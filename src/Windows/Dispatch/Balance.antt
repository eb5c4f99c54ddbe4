-- ===== src/Windows/Dispatch/Balance.antt =====
-- windows/src/dispatch.cpp: the references to COM objects behind every frame.
use clipboard_helper.Prelude.{
  ℕ, ◌≡◌, ◌≢◌, refl, Option, none, some, List, arith, ◌==◌, Bytes, is_empty, if-cases,
}
use clipboard_helper.Prelude.Parse.{Parse, parsed, malformed, stuck}
use clipboard_helper.Proto.MessageType
use clipboard_helper.Proto.ContentType
use clipboard_helper.Windows.Codec.{
  ParsedClipboardData, ParsedHelperMessage, ParsedProvideData, parse_clipboard_data,
}
use clipboard_helper.Windows.Codec.Chunks.{ParsedFileChunkRequest, ParsedFileChunkData}
use clipboard_helper.Windows.Dispatch.{write_files, stop_pipe, Reading, World, Dispatcher, call}
use clipboard_helper.Windows.Dispatch.Files.{
  Backing, physical, virtual, unknown, pin, reply_chunk, serve_chunk, handle_file_chunk_request,
  deliver_parsed, handle_file_chunk_data,
}
use clipboard_helper.Windows.Dispatch.Announce.{
  handle_announce_delayed, apply_provide_data, handle_provide_data,
}
use clipboard_helper.Windows.Dispatch.Handle.{
  write_clipboard, set_files, paths_of, apply_clipboard_data, handle_set_clipboard, get_reading,
  handle_get_clipboard, with_payload, route, handle_parsed,
}
use clipboard_helper.Windows.Dispatch.References.{
  IsBalanced, IsReading, IsWorld, neutral-IsBalanced, handle_announce_delayed-IsBalanced,
  update_files-IsBalanced,
}

module _ (k : ℕ) (nonnull : k ≢ 0) where
  -- Handlers that make neutral calls.
  pin-IsBalanced : (b : Backing) (d : Dispatcher) → IsBalanced k d → IsBalanced k (pin b d)
  unfolding pin call
  pin-IsBalanced unknown d h = h
  pin-IsBalanced (virtual object lindex) d h = ground arith
  pin-IsBalanced (physical path) d h = h

  serve_chunk-IsBalanced :
      (w : World) (req : Parse ParsedFileChunkRequest) (d : Dispatcher)
      → IsBalanced k d
      → IsBalanced k (serve_chunk w req d)
  unfolding serve_chunk reply_chunk
  serve_chunk-IsBalanced w malformed d h = h
  serve_chunk-IsBalanced w stuck d h = h
  serve_chunk-IsBalanced w (parsed req) d h =
      neutral-IsBalanced k nonnull _ (pin _ d) (refl, refl) (pin-IsBalanced _ d h)

  deliver_parsed-IsBalanced :
      (c : Parse ParsedFileChunkData) (d : Dispatcher)
      → IsBalanced k d
      → IsBalanced k (deliver_parsed c d)
  unfolding deliver_parsed
  deliver_parsed-IsBalanced malformed d h = h
  deliver_parsed-IsBalanced stuck d h = h
  deliver_parsed-IsBalanced (parsed c) d h = h

  apply_provide_data-IsBalanced :
      (pd : Parse ParsedProvideData) (d : Dispatcher)
      → IsBalanced k d
      → IsBalanced k (apply_provide_data pd d)
  unfolding apply_provide_data
  apply_provide_data-IsBalanced malformed d h = h
  apply_provide_data-IsBalanced stuck d h = h
  apply_provide_data-IsBalanced (parsed pd) d h = h

  -- A handler's state, behind its reply.
  abbrev pub Kept : Dispatcher × Bytes → Type 0
  Kept r = IsBalanced k r.0

  set_files-Kept :
      (w : World) (paths : List (List ℕ)) (d : Dispatcher)
      → IsBalanced k d
      → Kept (set_files w paths d)
  unfolding set_files write_clipboard
  set_files-Kept w paths d h =
      if-cases Kept (is_empty paths) (λ e. h)
        (λ e. neutral-IsBalanced k nonnull (write_files paths) d (refl, refl) h)

  apply_clipboard_data-Kept :
      (w : World) (cd : Parse ParsedClipboardData) (d : Dispatcher)
      → IsBalanced k d
      → Kept (apply_clipboard_data w cd d)
  unfolding apply_clipboard_data write_clipboard
  apply_clipboard_data-Kept w malformed d h = h
  apply_clipboard_data-Kept w stuck d h = h
  apply_clipboard_data-Kept w (parsed pcd) d h =
      if-cases Kept (pcd.content_type == ContentType.text)
        (λ e. neutral-IsBalanced k nonnull _ d (refl, refl) h)
        (λ e.
          if-cases Kept (pcd.content_type == ContentType.image)
            (λ e. neutral-IsBalanced k nonnull _ d (refl, refl) h)
            (λ e.
              if-cases Kept (pcd.content_type == ContentType.files)
                (λ e. set_files-Kept w (paths_of w.utf8_to_wide pcd.files) d h) (λ e. h)))

  handle_set_clipboard-Kept :
      (w : World) (s : Option Bytes) (d : Dispatcher)
      → IsBalanced k d
      → Kept (handle_set_clipboard w s d)
  unfolding handle_set_clipboard
  handle_set_clipboard-Kept w none d h = h
  handle_set_clipboard-Kept w (some s) d h =
      apply_clipboard_data-Kept w (parse_clipboard_data s) d h

  get_reading-Kept :
      (w : World) (r : Option Reading) (d : Dispatcher)
      → ((x : Reading) → r ≡ some x → IsReading x)
      → IsBalanced k d
      → Kept (get_reading w r d)
  unfolding get_reading
  get_reading-Kept w none d contract h = h
  get_reading-Kept w (some r) d contract h =
      update_files-IsBalanced k nonnull r d (contract r refl) h

  with_payload-Kept :
      (w : World) (s : Option Bytes) (failure : Bytes) (handler : Bytes → Dispatcher → Dispatcher)
      (d : Dispatcher)
      → ((x : Bytes) → IsBalanced k (handler x d))
      → IsBalanced k d
      → Kept (with_payload w s failure handler d)
  unfolding with_payload
  with_payload-Kept w none failure handler d all h = h
  with_payload-Kept w (some s) failure handler d all h = all s

  route-Kept :
      (w : World) (m : ParsedHelperMessage) (d : Dispatcher)
      → IsWorld w
      → IsBalanced k d
      → Kept (route w m d)
  unfolding route handle_get_clipboard handle_announce_delayed handle_provide_data
      handle_file_chunk_request handle_file_chunk_data
  route-Kept w m d contract h =
      if-cases Kept (m.type == MessageType.set_clipboard)
        (λ e. handle_set_clipboard-Kept w m.clipboard_data d h)
        (λ e.
          if-cases Kept (m.type == MessageType.get_clipboard)
            (λ e. get_reading-Kept w w.read_clipboard d contract h)
            (λ e.
              if-cases Kept (m.type == MessageType.announce_delayed)
                (λ e.
                  with_payload-Kept w m.announcement _ _ d
                    (λ s. handle_announce_delayed-IsBalanced k nonnull w _ d h) h)
                (λ e.
                  if-cases Kept (m.type == MessageType.provide_data)
                    (λ e.
                      with_payload-Kept w m.provide_data _ _ d
                        (λ s. apply_provide_data-IsBalanced _ d h) h)
                    (λ e.
                      if-cases Kept (m.type == MessageType.file_chunk_request)
                        (λ e.
                          with_payload-Kept w m.file_chunk_request _ _ d
                            (λ s. serve_chunk-IsBalanced w _ d h) h)
                        (λ e.
                          if-cases Kept (m.type == MessageType.file_chunk_data)
                            (λ e.
                              with_payload-Kept w m.file_chunk_data _ _ d
                                (λ s. deliver_parsed-IsBalanced _ d h) h)
                            (λ e.
                              if-cases Kept (m.type == MessageType.file_transfer_progress) (λ e. h)
                                (λ e.
                                  if-cases Kept (m.type == MessageType.shutdown)
                                    (λ e. neutral-IsBalanced k nonnull stop_pipe d (refl, refl) h)
                                    (λ e. h))))))))

  pub handle_parsed-Kept :
      (w : World) (m : Parse ParsedHelperMessage) (d : Dispatcher)
      → IsWorld w
      → IsBalanced k d
      → Kept (handle_parsed w m d)
  unfolding handle_parsed
  handle_parsed-Kept w malformed d contract h = h
  handle_parsed-Kept w stuck d contract h = h
  handle_parsed-Kept w (parsed m) d contract h = route-Kept w m d contract h
