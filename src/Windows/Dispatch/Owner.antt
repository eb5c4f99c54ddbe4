-- ===== src/Windows/Dispatch/Owner.antt =====
-- windows/src/dispatch.cpp: OnClipboardChanged and ReleaseStaBoundResources.
use clipboard_helper.Prelude.{Option, none, some, ◌&&◌, [], ◌==◌, if◌then◌else◌}
use clipboard_helper.Proto.MessageType
use clipboard_helper.Windows.ChunkProvider.{cancel_all}
use clipboard_helper.Windows.Dispatch.{
  release, clear_clipboard, send_frame, Reading, World, Dispatcher, call, release_object,
}
use clipboard_helper.Windows.Dispatch.Handle.{update_files, reading_frame}

-- The object on the clipboard has lost it.
unfoldable pub drop_outbound : Dispatcher → Dispatcher
drop_outbound d =
    let d' = call (release d.outbound_data_object) (record d { outbound_data_object = 0 }) in
    record d' { provider = cancel_all d.provider }

unfoldable pub report_reading : World → Option Reading → Dispatcher → Dispatcher
report_reading w none d = d
report_reading w (some r) d =
    call (send_frame (reading_frame w MessageType.clipboard_changed r)) (update_files r d)

-- Behind the test of the outbound object.
unfoldable pub report_change : World → Dispatcher → Dispatcher
report_change w d = if w.owner_is_us then d else report_reading w w.read_clipboard d

unfoldable pub on_clipboard_changed : World → Dispatcher → Dispatcher
on_clipboard_changed w d =
    if d.outbound_data_object == 0
    then report_change w d
    else if w.is_current_clipboard d.outbound_data_object
    then d
    else report_change w (drop_outbound d)

unfoldable pub release_inbound : Dispatcher → Dispatcher
release_inbound d = record (release_object d.virtual_data_object d) {
  virtual_data_object = 0;
  virtual_lindex = [];
}

unfoldable pub release_outbound : World → Dispatcher → Dispatcher
release_outbound w d =
    let cleared =
      if w.is_current_clipboard d.outbound_data_object then call clear_clipboard d else d in
    if d.outbound_data_object == 0
    then d
    else record (call (release d.outbound_data_object) cleared) { outbound_data_object = 0 }

-- The STA worker runs what it is given.
unfoldable pub release_sta_bound_resources : World → Dispatcher → Dispatcher
release_sta_bound_resources w d =
    let d' = release_outbound w (release_inbound (record d { provider = cancel_all d.provider })) in
    if w.has_owner && w.owner_is_us then call clear_clipboard d' else d'
