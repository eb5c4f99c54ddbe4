-- ===== src/Windows/Dispatch/References.antt =====
-- windows/src/dispatch.cpp: the references to COM objects that the Dispatcher takes and gives back, by
-- the log of its calls.
use clipboard_helper.Prelude.{
  ℕ, ◌+◌, ◌≡◌, ◌≢◌, refl, some, false, List, [], ◌∷◌, arith, if◌then◌else◌, ◌==◌, Bytes, is_empty,
  if-cases,
}
use clipboard_helper.Prelude.Parse.{Parse, parsed, malformed, stuck}
use clipboard_helper.Proto.ContentType
use clipboard_helper.Windows.Codec.{ParsedAnnouncement}
use clipboard_helper.Windows.Codec.Files.{VirtualFileSpec}
use clipboard_helper.Windows.Dispatch.{
  Call, write_text, write_image, write_files, advertise, take, create, publish, add_ref, release,
  clear_clipboard, send_frame, stop_pipe, Reading, World, Dispatcher, call, release_object,
  update_file_paths, update_virtual_files,
}
use clipboard_helper.Windows.Dispatch.Announce.{set_outbound, publish_files, apply_announcement}
use clipboard_helper.Windows.Dispatch.Handle.{take_object, update_tables, update_files}

-- Whether an object is `k`, as a number.
abbrev pub hit : ℕ → ℕ → ℕ
hit k o = if o == k then 1 else 0

-- What a call gives of references to `k`, and what it takes away.
abbrev pub gain : ℕ → Call → ℕ
gain k (write_text t) = 0
gain k (write_image b) = 0
gain k (write_files ps) = 0
gain k (advertise t) = 0
gain k (take o) = hit k o
gain k (create o specs t) = hit k o
gain k (publish o) = 0
gain k (add_ref o) = hit k o
gain k (release o) = 0
gain k clear_clipboard = 0
gain k (send_frame f) = 0
gain k stop_pipe = 0

abbrev pub loss : ℕ → Call → ℕ
loss k (write_text t) = 0
loss k (write_image b) = 0
loss k (write_files ps) = 0
loss k (advertise t) = 0
loss k (take o) = 0
loss k (create o specs t) = 0
loss k (publish o) = 0
loss k (add_ref o) = 0
loss k (release o) = hit k o
loss k clear_clipboard = 0
loss k (send_frame f) = 0
loss k stop_pipe = 0

abbrev pub gained : ℕ → List Call → ℕ
gained k [] = 0
gained k (c ∷ cs) = gain k c + gained k cs

abbrev pub lost : ℕ → List Call → ℕ
lost k [] = 0
lost k (c ∷ cs) = loss k c + lost k cs

-- The references that the fields hold.
abbrev pub held : ℕ → Dispatcher → ℕ
held k d = hit k d.virtual_data_object + hit k d.outbound_data_object

abbrev pub IsBalanced : ℕ → Dispatcher → Type 0
IsBalanced k d = gained k d.calls ≡ lost k d.calls + held k d

-- The contract of ReadClipboard: an object comes with virtual files only.
abbrev pub IsReading : Reading → Type 0
IsReading r =
    (r.virtual_data_object ≢ 0)
    → (r.snapshot.content_type ≡ ContentType.files) × (is_empty r.snapshot.virtual_files ≡ false)

abbrev pub IsWorld : World → Type 0
IsWorld w = (r : Reading) → w.read_clipboard ≡ some r → IsReading r

-- A call that neither gives nor takes.
abbrev IsNeutral : ℕ → Call → Type 0
IsNeutral k c = (gain k c ≡ 0) × (loss k c ≡ 0)

module _ (k : ℕ) (nonnull : k ≢ 0) where
  pub neutral-IsBalanced :
      (c : Call) (d : Dispatcher) → IsNeutral k c → IsBalanced k d → IsBalanced k (call c d)
  unfolding call
  neutral-IsBalanced c d n h = ground arith

  pub release_object-lost :
      (o : ℕ) (d : Dispatcher)
      → (gained k (release_object o d).calls ≡ gained k d.calls)
        × (lost k (release_object o d).calls ≡ hit k o + lost k d.calls)
        × ((release_object o d).virtual_data_object ≡ d.virtual_data_object)
        × ((release_object o d).outbound_data_object ≡ d.outbound_data_object)
  unfolding release_object call
  release_object-lost o d = ground arith

  update_file_paths-IsBalanced :
      (paths : List (List ℕ)) (d : Dispatcher)
      → IsBalanced k d
      → IsBalanced k (update_file_paths paths d)
  unfolding update_file_paths
  update_file_paths-IsBalanced paths d h =
      let r = release_object-lost d.virtual_data_object d in ground arith

  -- The new object comes with one reference.
  update_virtual_files-IsBalanced :
      (object : ℕ) (lindexes : List ℕ) (d : Dispatcher)
      → gained k d.calls ≡ lost k d.calls + held k d + hit k object
      → IsBalanced k (update_virtual_files object lindexes d)
  unfolding update_virtual_files
  update_virtual_files-IsBalanced object lindexes d h =
      let r = release_object-lost d.virtual_data_object d in ground arith

  set_outbound-IsBalanced :
      (w : World) (object : ℕ) (d : Dispatcher)
      → gained k d.calls ≡ lost k d.calls + held k d + hit k object
      → IsBalanced k (set_outbound w object d)
  unfolding set_outbound call
  set_outbound-IsBalanced w object d h =
      if-cases (IsBalanced k) (w.succeeds (publish object))
        (λ ok.
          let r =
            release_object-lost d.outbound_data_object
              (record (call (publish object) d) { outbound_data_object = object }) in
          ground arith)
        (λ ok. let r = release_object-lost object (call (publish object) d) in ground arith)

  publish_files-IsBalanced :
      (w : World) (specs : List VirtualFileSpec) (transfer_id : Bytes) (d : Dispatcher)
      → IsBalanced k d
      → IsBalanced k (publish_files w specs transfer_id d)
  unfolding publish_files call
  publish_files-IsBalanced w specs transfer_id d h =
      if-cases (IsBalanced k) (is_empty specs) (λ e. h)
        (λ e.
          if-cases (IsBalanced k) (is_empty transfer_id) (λ e. h)
            (λ e.
              if-cases (IsBalanced k) (w.new_object == 0) (λ e. h)
                (λ e.
                  set_outbound-IsBalanced w w.new_object
                    (call (create w.new_object specs transfer_id) d) (ground arith))))

  pub handle_announce_delayed-IsBalanced :
      (w : World) (ann : Parse ParsedAnnouncement) (d : Dispatcher)
      → IsBalanced k d
      → IsBalanced k (apply_announcement w ann d)
  unfolding apply_announcement
  handle_announce_delayed-IsBalanced w malformed d h = h
  handle_announce_delayed-IsBalanced w stuck d h = h
  handle_announce_delayed-IsBalanced w (parsed ann) d h =
      if-cases (IsBalanced k) (ann.content_type == ContentType.files)
        (λ e. publish_files-IsBalanced w _ ann.transfer_id _ h)
        (λ e. neutral-IsBalanced (advertise ann.content_type) _ (refl, refl) h)

  take_object-gained :
      (o : ℕ) (d : Dispatcher)
      → (gained k (take_object o d).calls ≡ gained k d.calls + hit k o)
        × (lost k (take_object o d).calls ≡ lost k d.calls)
        × (held k (take_object o d) ≡ held k d)
  unfolding take_object call
  take_object-gained o d = ground arith

  update_tables-IsBalanced :
      (r : Reading) (d : Dispatcher)
      → IsReading r
      → gained k d.calls ≡ lost k d.calls + held k d + hit k r.virtual_data_object
      → IsBalanced k (update_tables r d)
  unfolding update_tables
  update_tables-IsBalanced r d contract h =
      if-cases (IsBalanced k) (r.snapshot.content_type == ContentType.files)
        (λ e.
          if-cases (IsBalanced k) (is_empty r.snapshot.virtual_files)
            (λ n.
              let null : r.virtual_data_object ≡ 0 = ground arith in
              update_file_paths-IsBalanced r.snapshot.file_paths d (ground arith))
            (λ n. update_virtual_files-IsBalanced r.virtual_data_object r.lindexes d h))
        (λ e. let null : r.virtual_data_object ≡ 0 = ground arith in ground arith)

  pub update_files-IsBalanced :
      (r : Reading) (d : Dispatcher)
      → IsReading r
      → IsBalanced k d
      → IsBalanced k (update_files r d)
  unfolding update_files
  update_files-IsBalanced r d contract h =
      let t = take_object-gained r.virtual_data_object d in
      update_tables-IsBalanced r (take_object r.virtual_data_object d) contract (omega arith)
