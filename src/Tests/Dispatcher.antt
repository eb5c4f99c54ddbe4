-- ===== src/Tests/Dispatcher.antt =====
-- Witnesses for the Windows Dispatcher.
use clipboard_helper.Prelude.{
  ℕ, ◌≡◌, refl, Option, none, some, true, false, List, [], ◌∷◌, arith, Bytes, take, drop,
}
use clipboard_helper.Windows.Codec.Files.{Wide}
use clipboard_helper.Proto.MessageType
use clipboard_helper.Linux.Codec
use clipboard_helper.Linux.Dispatch.{encode_clipboard_content_text}
use clipboard_helper.Windows.Codec.Encoders
use clipboard_helper.Windows.Codec.Agreement.{text_snapshot, encoders-agree}
use clipboard_helper.Windows.ChunkProvider.{new_slot}
use clipboard_helper.Windows.Render.{new_render_state}
use clipboard_helper.Windows.Dispatch.{got, World, Dispatcher}
use clipboard_helper.Windows.Dispatch.Files.{physical}
use clipboard_helper.Windows.Dispatch.Transfer.{pull, pull-file}
use clipboard_helper.Windows.Dispatch.References.{IsBalanced, IsWorld}
use clipboard_helper.Windows.Dispatch.Releases.{
  frame, change, Entry, enter_all, enter_all-IsBalanced,
}

-- A file of three bytes at every path.
abbrev file : Bytes
file = 10 ∷ 20 ∷ 30 ∷ []

abbrev world : World
world = record {
  utf8_to_wide = λ s. s;
  wide_to_utf8 = λ s. s;
  get_file_attributes = λ p. some (3, 0);
  clock = 7;
  succeeds = λ c. true;
  read_clipboard = some (record {
    snapshot = record {
      content_type = 3;
      text = [];
      image_png = [];
      file_paths = [];
      virtual_files = record { name = 97 ∷ []; size = 3 } ∷ [];
    };
    virtual_data_object = 5;
    lindexes = 0 ∷ [];
  });
  new_object = 6;
  is_current_clipboard = λ o. false;
  owner_is_us = false;
  has_owner = true;
  read_disk = λ path offset want. got (take want (drop offset file));
  read_virtual = λ o l offset want. none;
}

abbrev idle : Dispatcher
idle = record {
  render = new_render_state true;
  provider = record { has_pipe = true; pending = []; slots = λ i. new_slot; next = 0 };
  file_paths = [];
  virtual_data_object = 0;
  virtual_lindex = [];
  outbound_data_object = 0;
  calls = [];
}

pull-file_example : pull world (physical (97 ∷ [])) 2 2 0 ≡ some (drop 0 file)
pull-file_example =
    pull-file world (97 ∷ []) file 2 2 0 (λ offset want. refl) (omega arith) (omega arith)

world-IsWorld : IsWorld world
world-IsWorld r e n = ground arith

abbrev entries : List Entry
entries = change world ∷ frame world [] ∷ []

enter_all-IsBalanced_example : IsBalanced 5 (enter_all entries idle)
enter_all-IsBalanced_example =
    enter_all-IsBalanced 5 entries idle (λ e. omega arith) (world-IsWorld, (world-IsWorld, tt)) refl

abbrev code_units : Wide → Bytes
code_units s = s

abbrev no_attributes : Wide → Option (ℕ × ℕ)
no_attributes p = none

abbrev snapshot_bytes : Bytes
snapshot_bytes = Encoders.encode_clipboard_data code_units no_attributes (text_snapshot (104 ∷ []))

encoders-agree_example :
    (Encoders.encode_ready 7 ≡ Codec.encode_ready 7)
    × (Encoders.encode_error (1 ∷ []) 7 ≡ Codec.encode_error (1 ∷ []) 7)
    × (Encoders.encode_data_request (2 ∷ []) 1 7 ≡ Codec.encode_data_request (2 ∷ []) 1 7)
    × (Encoders.encode_clipboard_envelope MessageType.clipboard_content snapshot_bytes 7
        ≡ encode_clipboard_content_text (104 ∷ []) 7)
    × (Encoders.encode_clipboard_envelope MessageType.clipboard_changed snapshot_bytes 7
        ≡ Codec.encode_clipboard_changed_text (104 ∷ []) [] 7)
encoders-agree_example = encoders-agree code_units no_attributes (104 ∷ []) (1 ∷ []) (2 ∷ []) 1 7
