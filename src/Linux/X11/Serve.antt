-- ===== src/Linux/X11/Serve.antt =====
-- linux/src/clipboard_manager_x11.cpp: retrieveData, its wait included, against the slot.
use clipboard_helper.Prelude.{
  ℕ, ◌≡◌, refl, ◌∙◌, ap, Option, none, some, Bool, true, false, ◌||◌, List, arith, Bytes, bytes_eq,
}
use clipboard_helper.Linux.Manager.{pushed}
use clipboard_helper.Linux.UriList.{format_for_mime}
use clipboard_helper.Linux.Wayland.Sends.{ImageFormat, png, bmp, image_format}
use clipboard_helper.Linux.X11.Formats.{qt_image_format}
use clipboard_helper.Linux.X11.{new_manager}
use clipboard_helper.Linux.X11.Delayed.{
  ContentKind, text, image, files, MetaType, q_string, q_image, other_type, Variant, invalid,
  string, byte_array, image_value, Retrieval, returned, blocks, saved, encode_image, image_as,
  materialise_text, materialise_image, materialise, DelayedState, new_state, own_data,
  wait_predicate, end_wait, retrieval_of, retrieve_data,
}
use clipboard_helper.Linux.X11.Events.{Event, happen_all}
use clipboard_helper.Linux.X11.Slot.{
  view, specify_all, content_for, own_data-content, happen_all-IsConsistent, happen_all-view,
}

abbrev pub is_q_image : MetaType → Bool
is_q_image q_image = true
is_q_image q_string = false
is_q_image other_type = false

-- What a wait for an object ends with, by the slot's content for it: `some none` is a failure.
abbrev pub awaited : Bool → Bool → Option Bytes → Option (Option Bytes)
awaited true timed_out content = some none
awaited false timed_out (some bytes) = some (some bytes)
awaited false true none = some none
awaited false false none = none

end_wait-awaited :
    (timed_out : Bool) (s : DelayedState) (hash : Bytes)
    → end_wait timed_out s.stop s hash ≡ awaited s.stop timed_out (own_data s hash)
unfolding end_wait wait_predicate
end_wait-awaited timed_out s hash = ground arith

module _ {I : Type 0} (decode : Bytes → Option I) (save : I → ImageFormat → Option Bytes)
    (reencode : Bytes → Bytes) where
  -- The specification of retrieveData, by what there is for the object and its kind. An image that
  -- decodes is given as an image for QImage and for Qt's own format, and else as a file of the format
  -- that the MIME type names.
  abbrev pub serve_image : Option I → Option ImageFormat → Bool → Variant I
  serve_image none fmt whole = invalid
  serve_image (some img) fmt true = image_value img
  serve_image (some img) none false = invalid
  serve_image (some img) (some fmt) false = elim (save img fmt) [
    | none ↦ invalid
    | some out ↦ byte_array out
  ]

  abbrev pub serve_text : Bytes → MetaType → Variant I
  serve_text bytes q_string = string (reencode bytes)
  serve_text bytes q_image = byte_array bytes
  serve_text bytes other_type = byte_array bytes

  abbrev pub serve :
      Option Bytes → ContentKind → Bytes → Option Bytes → Bytes → MetaType → Retrieval I
  serve none kind hash request mime type = blocks hash request
  serve (some bytes) text hash request mime type = returned (serve_text bytes type)
  serve (some bytes) files hash request mime type =
      returned (byte_array (format_for_mime bytes mime))
  serve (some bytes) image hash request mime type = returned (
      serve_image (decode bytes) (image_format mime)
        (is_q_image type || bytes_eq mime qt_image_format))

  saved-elim :
      (o : Option Bytes)
      → saved decode save reencode o ≡ elim o [ none ↦ invalid | some out ↦ byte_array out ]
  unfolding saved
  saved-elim none = refl
  saved-elim (some out) = refl

  encode_image-serve_image :
      (img : I) (mime : Bytes)
      → encode_image decode save reencode img mime
        ≡ serve_image (some img) (image_format mime) false
  unfolding encode_image image_format
  encode_image-serve_image img mime =
      let to_png = saved-elim (save img png) in
      let to_bmp = saved-elim (save img bmp) in ground arith

  image_as-serve_image :
      (img : I) (mime : Bytes) (type : MetaType)
      → image_as decode save reencode img mime type
        ≡ serve_image
            (some img)
            (image_format mime)
            (is_q_image type || bytes_eq mime qt_image_format)
  unfolding image_as
  image_as-serve_image img mime q_image = refl
  image_as-serve_image img mime q_string = let e = encode_image-serve_image img mime in ground arith
  image_as-serve_image img mime other_type =
      let e = encode_image-serve_image img mime in ground arith

  materialise_image-serve_image :
      (bytes mime : Bytes) (type : MetaType)
      → materialise_image decode save reencode bytes mime type
        ≡ serve_image
            (decode bytes)
            (image_format mime)
            (is_q_image type || bytes_eq mime qt_image_format)
  unfolding materialise_image
  materialise_image-serve_image bytes mime type = decoded (decode bytes)
    where
      decoded :
          (o : Option I)
          → elim o [ none ↦ invalid | some img ↦ image_as decode save reencode img mime type ]
            ≡ serve_image o (image_format mime) (is_q_image type || bytes_eq mime qt_image_format)
      decoded none = refl
      decoded (some img) = image_as-serve_image img mime type

  retrieval_of-serve :
      (content : Option Bytes) (kind : ContentKind) (hash : Bytes) (request : Option Bytes)
      (mime : Bytes) (type : MetaType)
      → retrieval_of decode save reencode content kind hash request mime type
        ≡ serve content kind hash request mime type
  unfolding retrieval_of materialise materialise_text
  retrieval_of-serve none kind hash request mime type = refl
  retrieval_of-serve (some bytes) text hash request mime q_string = refl
  retrieval_of-serve (some bytes) text hash request mime q_image = refl
  retrieval_of-serve (some bytes) text hash request mime other_type = refl
  retrieval_of-serve (some bytes) files hash request mime type = refl
  retrieval_of-serve (some bytes) image hash request mime type =
      ap returned (materialise_image-serve_image bytes mime type)

module _ {I : Type 0} (decode : Bytes → Option I) (save : I → ImageFormat → Option Bytes)
    (reencode : Bytes → Bytes) (formats_text : List Bytes → Bool) (es : List Event) where
  own_data-run :
      (hash : Bytes)
      → own_data (happen_all decode save reencode formats_text es new_manager).state hash
        ≡ content_for (specify_all es (view new_state)) hash
  own_data-run hash =
      let s = (happen_all decode save reencode formats_text es (new_manager {I = I})).state in
      own_data-content s hash
        (happen_all-IsConsistent decode save reencode formats_text es new_manager tt)
      ∙ ap (λ slot. content_for slot hash)
          (happen_all-view decode save reencode formats_text es new_manager)

  -- Behind any events on a new manager: an object is served at once exactly if it is for the slot's
  -- hash and the slot has content, with that content as the specification of its kind, the MIME type
  -- and the asked type says; otherwise the data is requested, and waited for, under the object's own
  -- hash.
  pub retrieve_data-Slot :
      (clock : ℕ) (hash : Bytes) (kind : ContentKind) (mime : Bytes) (type : MetaType)
      → let s = (happen_all decode save reencode formats_text es new_manager).state in
        retrieve_data decode save reencode clock s hash kind mime type
        ≡ serve decode save reencode
            (content_for (specify_all es (view new_state)) hash)
            kind
            hash
            (pushed s.on_request clock hash)
            mime
            type
  unfolding retrieve_data
  retrieve_data-Slot clock hash kind mime type =
      let s = (happen_all decode save reencode formats_text es (new_manager {I = I})).state in
      rw (own_data-run hash) (
        retrieval_of-serve decode save reencode (content_for (specify_all es (view new_state)) hash)
          kind hash (pushed s.on_request clock hash) mime type)

  -- Behind any events on a new manager: a wait fails if the manager is stopping; else it ends with the
  -- slot's content for the object's hash, once there is some, and fails at the timeout without. An
  -- object that was superseded has none, so its wait goes on until the timeout.
  pub end_wait-Slot :
      (timed_out : Bool) (hash : Bytes)
      → let s = (happen_all decode save reencode formats_text es new_manager).state in
        end_wait timed_out s.stop s hash
        ≡ awaited s.stop timed_out (content_for (specify_all es (view new_state)) hash)
  end_wait-Slot timed_out hash =
      let s = (happen_all decode save reencode formats_text es (new_manager {I = I})).state in
      end_wait-awaited timed_out s hash ∙ ap (awaited s.stop timed_out) (own_data-run hash)
