-- ===== src/Windows/Dispatch/Announce.antt =====
-- windows/src/dispatch.cpp: HandleAnnounceDelayed and HandleProvideData.
use clipboard_helper.Prelude.{ℕ, List, [], ◌∷◌, ◌==◌, if◌then◌else◌, Bytes, is_empty}
use clipboard_helper.Prelude.Parse.{Parse, parsed, malformed, stuck}
use clipboard_helper.Proto.ContentType
use clipboard_helper.Windows.Codec.{
  ParsedAnnouncement, parse_announcement, ParsedProvideData, parse_provide_data,
}
use clipboard_helper.Windows.Codec.Files.{
  Wide, VirtualFileSpec, parse_file_metadata_for_virtual_file,
}
use clipboard_helper.Windows.Render.{announce_render, provide_render}
use clipboard_helper.Windows.Dispatch.{
  advertise, create, publish, World, Dispatcher, call, release_object,
}

unfoldable pub push_spec : Parse VirtualFileSpec → List VirtualFileSpec → List VirtualFileSpec
push_spec malformed specs = specs
push_spec stuck specs = specs
push_spec (parsed spec) specs = spec ∷ specs

-- The loop over `ann.files`.
unfoldable pub specs_of : (Bytes → Wide) → List Bytes → List VirtualFileSpec
specs_of utf8_to_wide [] = []
specs_of utf8_to_wide (file ∷ files) =
    push_spec (parse_file_metadata_for_virtual_file utf8_to_wide file) (specs_of utf8_to_wide files)

-- OleSetClipboard with the swap, and the releases behind it.
unfoldable pub set_outbound : World → ℕ → Dispatcher → Dispatcher
set_outbound w object d =
    if w.succeeds (publish object)
    then release_object d.outbound_data_object
        (record (call (publish object) d) { outbound_data_object = object })
    else release_object object (call (publish object) d)

-- `new_object` is 0 where the creation fails.
unfoldable pub publish_files : World → List VirtualFileSpec → Bytes → Dispatcher → Dispatcher
publish_files w specs transfer_id d =
    if is_empty specs
    then d
    else if is_empty transfer_id
    then d
    else if w.new_object == 0
    then d
    else set_outbound w w.new_object (call (create w.new_object specs transfer_id) d)

unfoldable pub apply_announcement : World → Parse ParsedAnnouncement → Dispatcher → Dispatcher
apply_announcement w malformed d = d
apply_announcement w stuck d = d
apply_announcement w (parsed ann) d =
    let d' = record d { render = announce_render ann.content_hash ann.content_type d.render } in
    if ann.content_type == ContentType.files
    then publish_files w (specs_of w.utf8_to_wide ann.files) ann.transfer_id d'
    else call (advertise ann.content_type) d'

unfoldable pub handle_announce_delayed : World → Bytes → Dispatcher → Dispatcher
handle_announce_delayed w sub_payload d = apply_announcement w (parse_announcement sub_payload) d

unfoldable pub apply_provide_data : Parse ParsedProvideData → Dispatcher → Dispatcher
apply_provide_data malformed d = d
apply_provide_data stuck d = d
apply_provide_data (parsed pd) d = record d {
  render = provide_render pd.content_hash pd.content d.render;
}

unfoldable pub handle_provide_data : Bytes → Dispatcher → Dispatcher
handle_provide_data sub_payload d = apply_provide_data (parse_provide_data sub_payload) d
