-- ===== src/Tests/Formats.antt =====
-- Witnesses for the clipboard formats of Windows.
use clipboard_helper.Prelude.{
  ℕ, zero, suc, ◌*◌, ◌≤◌, ◌<◌, ◌≡◌, refl, some, true, false, [], ◌∷◌, ◌++◌, arith, Bytes, length,
}
use clipboard_helper.Windows.Codec.Files.{Wide, VirtualFileSpec}
use clipboard_helper.Windows.Formats.{
  build_cf_dib_v5_payload, build_cf_hdrop_payload, build_file_group_descriptor_payload,
  max_image_dimension,
}
use clipboard_helper.Windows.Formats.Layout.{le32, units_le, zeros, read_units, length-zeros}
use clipboard_helper.Windows.Formats.Dib.{BgraImage, read_dib}
use clipboard_helper.Windows.Formats.DibRows.{read_dib-IsWhole}
use clipboard_helper.Windows.Formats.DibTrip.{read_dib-build_cf_dib_v5_payload}
use clipboard_helper.Windows.Formats.Hdrop.{read_hdrop, read_hdrop-build_cf_hdrop_payload}
use clipboard_helper.Windows.Formats.Names.{is_utf16, slot_name, slot_name-is_utf16}
use clipboard_helper.Windows.Formats.Group.{read_group, read_slot, c_string}
use clipboard_helper.Windows.Formats.Slots.{IsName}
use clipboard_helper.Windows.Formats.GroupTrip.{
  slots_of, read_group-build_file_group_descriptor_payload, read_group-unterminated,
}
use clipboard_helper.Prelude.{map}
use clipboard_helper.Windows.DataObject.{Registered, get_data, offered_formats}
use clipboard_helper.Windows.DataObject.Offered.{answers, get_data-offered}

abbrev two_pixels : Bytes
two_pixels = 1 ∷ 2 ∷ 3 ∷ 255 ∷ 4 ∷ 5 ∷ 6 ∷ 255 ∷ []

abbrev small_image : BgraImage
small_image = record { width = 2; height = 1; pixels = two_pixels }

read_dib-build_cf_dib_v5_payload_example :
    read_dib (build_cf_dib_v5_payload 2 1 (some two_pixels) 8) ≡ some small_image
read_dib-build_cf_dib_v5_payload_example =
    read_dib-build_cf_dib_v5_payload 2 1 two_pixels (omega arith) (omega arith) (omega arith)
      (omega arith) refl

read_dib-IsWhole_example :
    (0 < small_image.width)
    × (small_image.width ≤ max_image_dimension)
    × (0 < small_image.height)
    × (small_image.height ≤ max_image_dimension)
    × (length small_image.pixels ≡ small_image.height * (small_image.width * 4))
read_dib-IsWhole_example =
    read_dib-IsWhole (build_cf_dib_v5_payload 2 1 (some two_pixels) 8) small_image (
      read_dib-build_cf_dib_v5_payload 2 1 two_pixels (omega arith) (omega arith) (omega arith)
        (omega arith) refl)

read_hdrop-build_cf_hdrop_payload_example :
    read_hdrop (build_cf_hdrop_payload ((67 ∷ 58 ∷ []) ∷ (68 ∷ []) ∷ []))
    ≡ (67 ∷ 58 ∷ []) ∷ (68 ∷ []) ∷ []
read_hdrop-build_cf_hdrop_payload_example =
    read_hdrop-build_cf_hdrop_payload (67 ∷ 58 ∷ []) ((68 ∷ []) ∷ []) (
      ((λ e. cc), ((omega arith, omega arith), ((omega arith, omega arith), tt))),
      (((λ e. cc), ((omega arith, omega arith), tt)), tt),
    )

slot_name-is_utf16_example :
    (is_utf16 false (slot_name (97 ∷ 47 ∷ 0xD83D ∷ 0xDE00 ∷ [])) ≡ true)
    × (length (slot_name (97 ∷ 47 ∷ 0xD83D ∷ 0xDE00 ∷ [])) < 260)
slot_name-is_utf16_example = slot_name-is_utf16 (97 ∷ 47 ∷ 0xD83D ∷ 0xDE00 ∷ []) refl

abbrev one_spec : VirtualFileSpec
one_spec = record { name = 97 ∷ 47 ∷ 98 ∷ []; size = 5; file_id = 1 ∷ []; is_directory = false }

read_group-build_file_group_descriptor_payload_example :
    read_group (build_file_group_descriptor_payload (λ i. 9) (one_spec ∷ [])) (7 ∷ [])
    ≡ some (slots_of (one_spec ∷ []) 0)
read_group-build_file_group_descriptor_payload_example =
    read_group-build_file_group_descriptor_payload (λ i. 9) one_spec [] (7 ∷ []) (omega arith)
      (
        (
          (
            (omega arith, omega arith),
            ((omega arith, omega arith), ((omega arith, omega arith), tt)),
          ),
          omega arith,
        ),
        tt,
      )

ones : ℕ → Wide
ones zero = []
ones (suc n) = 1 ∷ ones n

ones-IsName : (n : ℕ) → IsName (ones n)
unfolding ones
ones-IsName zero = tt
ones-IsName (suc n) = ((omega arith, omega arith), ones-IsName n)

length-ones : (n : ℕ) → length (ones n) ≡ n
unfolding ones
length-ones zero = refl
length-ones (suc n) = omega (arith, length-ones n)

read_group-unterminated_example :
    read_group (le32 1 ++ (zeros 72 ++ units_le (ones 260))) (98 ∷ 0 ∷ 0 ∷ 0 ∷ [])
    ≡ some (
        record (read_slot (zeros 72 ++ (units_le (ones 260) ++ 98 ∷ 0 ∷ 0 ∷ 0 ∷ [])) 0) {
          name = ones 260 ++ c_string (read_units (98 ∷ 0 ∷ 0 ∷ 0 ∷ []));
        }
        ∷ [])
read_group-unterminated_example =
    read_group-unterminated (zeros 72) (98 ∷ 0 ∷ 0 ∷ 0 ∷ []) (ones 260) (length-zeros 72)
      (length-ones 260) (ones-IsName 260)

abbrev registered : Registered
registered = record {
  descriptor = 49161;
  contents = 49162;
  drop_effect = 49163;
  file_attributes = 49164;
}

get_data-offered_example :
    map
      (get_data registered (λ i. 9) (one_spec ∷ []) true)
      (offered_formats registered (one_spec ∷ []))
    ≡ answers (λ i. 9) (one_spec ∷ [])
get_data-offered_example =
    get_data-offered registered (λ i. 9) (λ e. absurd (omega arith)) (λ e. absurd (omega arith))
      (λ e. absurd (omega arith)) (λ e. absurd (omega arith)) (λ e. absurd (omega arith))
      (one_spec ∷ []) (omega arith) (omega arith)
