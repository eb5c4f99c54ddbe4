-- ===== src/Tests/Access.antt =====
-- Witnesses for the clipboard access and the STA thread of Windows.
use clipboard_helper.Prelude.{
  ℕ, ◌+◌, ◌≡◌, refl, Option, none, some, true, false, List, [], ◌∷◌, arith, Bytes, if◌then◌else◌,
}
use clipboard_helper.Windows.ChunkProvider.{new_slot}
use clipboard_helper.Windows.WorkQueue.{Outcome}
use clipboard_helper.Windows.Render.{Event, announced, provided, new_render_state, occur_all}
use clipboard_helper.Windows.Render.Supply.{no_supply, note_all}
use clipboard_helper.Windows.Dispatch.{World, Dispatcher, open_failed}
use clipboard_helper.Windows.Dispatch.Handle.{handle_get_clipboard}
use clipboard_helper.Windows.Dispatch.References.{IsReading, gained, lost, held}
use clipboard_helper.Windows.Formats.{build_cf_hdrop_payload, is_held}
use clipboard_helper.Windows.Formats.Dib.{BgraImage}
use clipboard_helper.Windows.Formats.Layout.{le32, read_le32-le32}
use clipboard_helper.Windows.Access.{
  Board, Answers, write_clipboard_files, render_image, image_payload, opens_scope, cf_hdrop, cf_dib,
}
use clipboard_helper.Windows.Access.Errors.{
  IsClean, write_clipboard_files-IsClean, IsRendered, render_image-IsRendered,
}
use clipboard_helper.Windows.Access.Reads.{
  Offer, refused, locked, hdrop_paths, read_virtual_files, read_from, read_descriptor, read_files,
  read_open, read_virtual, virtual_reading, read_clipboard,
}
use clipboard_helper.Windows.Codec.Files.{VirtualFileSpec}
use clipboard_helper.Windows.Formats.{build_file_group_descriptor_payload}
use clipboard_helper.Windows.Formats.Group.{ForeignFile, read_group}
use clipboard_helper.Windows.Formats.GroupTrip.{
  slots_of, read_group-build_file_group_descriptor_payload,
}
use clipboard_helper.Windows.Access.Virtual.{IsCounted}
use clipboard_helper.Windows.Access.Contract.{
  Owns, read_clipboard-IsReading, empty_group, empty_group-leaks,
}
use clipboard_helper.Windows.Sta.{Sta, Callbacks, render_all_formats, wnd_proc}
use clipboard_helper.Windows.Sta.Cached.{Rendering, render_callback, AllAmong, render_all-AllAmong}
use clipboard_helper.Windows.Sta.Lifecycle.{
  Setup, thread_main, times, initializes, init_signalled, messages_pumped, tasks_dropped,
  ole_initialized, ole_uninitialized, window_created, window_destroyed, thread_main-signals,
}

-- OpenClipboard fails once, and SetClipboardData takes no format.
abbrev refusing : Answers
refusing = record {
  held = 0;
  opens = false ∷ true ∷ [];
  empties = true;
  allocates = true;
  locks = true;
  accepts = λ fmt. false;
}

abbrev board : Board
board = record { is_open = false; blocks = 0; content = (13, some (1 ∷ [])) ∷ [] }

write_clipboard_files-IsClean_example :
    IsClean cf_hdrop
      (build_cf_hdrop_payload ((67 ∷ []) ∷ []))
      board
      (write_clipboard_files refusing ((67 ∷ []) ∷ []) board)
write_clipboard_files-IsClean_example =
    write_clipboard_files-IsClean refusing board refl ((67 ∷ []) ∷ [])

abbrev one_pixel : BgraImage
one_pixel = record { width = 1; height = 1; pixels = 1 ∷ 2 ∷ 3 ∷ 255 ∷ [] }

render_image-IsRendered_example :
    IsRendered cf_dib
      (image_payload one_pixel)
      board
      (render_image refusing cf_dib (some one_pixel) board)
render_image-IsRendered_example = render_image-IsRendered refusing cf_dib one_pixel board

abbrev offer : Offer
offer = record {
  hdrop = none;
  has_descriptor = false;
  ole = record { get_clipboard = none; registered = true; descriptor = refused };
  unicode = some (some (104 ∷ 0 ∷ []));
  has_dib = false;
  dibv5 = none;
  dib = none;
}

abbrev to_png : BgraImage → Option Bytes
to_png img = none

-- A group of one virtual file, on an object at 5.
abbrev one_spec : VirtualFileSpec
one_spec = record { name = 97 ∷ []; size = 3; file_id = 1 ∷ []; is_directory = false }

abbrev virtual_offer : Offer
virtual_offer = record offer {
  has_descriptor = true;
  ole = record {
    get_clipboard = some 5;
    registered = true;
    descriptor = locked (build_file_group_descriptor_payload (λ i. 9) (one_spec ∷ [])) [];
  };
}

abbrev one_file : List ForeignFile
one_file = slots_of (one_spec ∷ []) 0

one_group :
    read_group (build_file_group_descriptor_payload (λ i. 9) (one_spec ∷ [])) [] ≡ some one_file
one_group =
    read_group-build_file_group_descriptor_payload (λ i. 9) one_spec [] [] (omega arith)
      ((((omega arith, omega arith), tt), omega arith), tt)

virtual_files : (read_virtual_files 0 virtual_offer.ole).files ≡ some one_file
unfolding read_virtual_files read_from read_descriptor read_files is_held
virtual_files = rw one_group refl

virtual_read : read_clipboard to_png refusing virtual_offer ≡ some (virtual_reading 5 one_file)
unfolding read_clipboard read_open read_virtual read_virtual_files read_from read_descriptor
    read_files opens_scope is_held hdrop_paths
virtual_read = rw one_group refl

read_clipboard-IsReading_example :
    IsReading (virtual_reading 5 one_file)
    × Owns (read_virtual_files 0 virtual_offer.ole) (virtual_reading 5 one_file)
    × IsCounted (read_virtual_files 0 virtual_offer.ole)
read_clipboard-IsReading_example =
    read_clipboard-IsReading to_png refusing virtual_offer (virtual_reading 5 one_file)
      (λ e. cc (e, virtual_files)) virtual_read

abbrev world : World
world = record {
  utf8_to_wide = λ s. s;
  wide_to_utf8 = λ s. s;
  get_file_attributes = λ p. none;
  clock = 7;
  succeeds = λ c. true;
  read_clipboard = read_clipboard to_png refusing (empty_group 5 (le32 0) [] offer);
  new_object = 6;
  is_current_clipboard = λ o. false;
  owner_is_us = false;
  has_owner = true;
  read_disk = λ path offset want. open_failed;
  read_virtual = λ o i offset want. none;
}

abbrev idle : Dispatcher
idle = record {
  render = new_render_state true;
  provider = record { has_pipe = true; pending = []; slots = λ i. new_slot; next = 0 };
  file_paths = [];
  virtual_data_object = 0;
  virtual_lindex = [];
  outbound_data_object = 0;
  calls = [];
}

empty_group-leaks_example :
    gained 5 (handle_get_clipboard world idle).0.calls
    ≡ lost 5 (handle_get_clipboard world idle).0.calls
      + held 5 (handle_get_clipboard world idle).0
      + 1
unfolding opens_scope is_held le32
empty_group-leaks_example =
    empty_group-leaks to_png refusing offer 5 (le32 0) [] refl (λ e. omega arith)
      (read_le32-le32 0 [] (omega arith)) world idle refl refl

abbrev answered : List Event
answered = announced (1 ∷ []) 1 ∷ provided (1 ∷ []) (104 ∷ 105 ∷ []) ∷ []

abbrev sta : Sta Rendering
sta = record {
  state = record {
    render = occur_all answered (new_render_state true);
    frames = [];
    rendered = [];
    waiting = 0;
  };
  queue = [];
  held = 0;
}

abbrev run : ℕ → Rendering → Outcome Rendering
run t s = record { state = s; pushes = []; throws = false }

abbrev callbacks : Callbacks Rendering
callbacks = record { on_clipboard_changed = none; on_render_format = some (render_callback true 7) }

abbrev all_rendered : Sta Rendering
all_rendered = wnd_proc run callbacks (render_all_formats true (λ fmt. true)) sta

render_all-AllAmong_example :
    (all_rendered.state.frames ≡ [])
    × (all_rendered.state.waiting ≡ 0)
    × AllAmong all_rendered.state.rendered (note_all answered no_supply)
    × (all_rendered.held ≡ 0)
render_all-AllAmong_example =
    render_all-AllAmong run none answered true true true 7 (λ fmt. true) sta refl refl

abbrev setup : Setup
setup = record { ole_initializes = true; register_error = 1410; creates_window = false }

thread_main-signals_example :
    (times (init_signalled true) (thread_main setup) ≡ (if initializes setup then 1 else 0))
    × (times (init_signalled false) (thread_main setup) ≡ (if initializes setup then 0 else 1))
    × (times messages_pumped (thread_main setup) ≡ (if initializes setup then 1 else 0))
    × (times tasks_dropped (thread_main setup) ≡ (if initializes setup then 1 else 0))
    × (times ole_uninitialized (thread_main setup) ≡ times ole_initialized (thread_main setup))
    × (times window_destroyed (thread_main setup) ≡ times window_created (thread_main setup))
thread_main-signals_example = thread_main-signals setup
