-- ===== src/Linux/Manager/Stub.antt =====
-- linux/src/clipboard_manager.cpp: the manager that only logs. Its log lines are not modelled.
use clipboard_helper.Prelude.{none, [], Bytes}
use clipboard_helper.Linux.Manager.{Callback, ClipboardManager}

pub record StubClipboardManager : Type 0 where
  pub pending_hash : Bytes
  pub on_changed : Callback
  pub on_request : Callback

abbrev pub make_stub_manager : StubClipboardManager
make_stub_manager = record { pending_hash = []; on_changed = none; on_request = none }

announce : Bytes → StubClipboardManager → StubClipboardManager
announce content_hash m = record m { pending_hash = content_hash }

-- ProvideData compares the hashes for its log line alone.
unfoldable pub stub_manager : ClipboardManager StubClipboardManager
unfolding announce
stub_manager = record {
  set_clipboard_text = λ utf8 m. m;
  set_clipboard_image = λ webp_bytes m. m;
  announce_delayed_text = announce;
  announce_delayed_image = announce;
  announce_delayed_files = announce;
  provide_data = λ content_hash bytes m. m;
  get_clipboard_text = λ m. none;
  set_on_clipboard_changed = λ cb m. record m { on_changed = cb };
  set_on_data_request = λ cb m. record m { on_request = cb };
}
