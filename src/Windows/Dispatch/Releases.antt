-- ===== src/Windows/Dispatch/Releases.antt =====
-- windows/src/dispatch.cpp: the references to COM objects behind frames, changes and the release.
use clipboard_helper.Prelude.{
  ℕ, ◌≡◌, ◌≢◌, refl, Option, none, some, ◌&&◌, List, [], ◌∷◌, arith, ◌==◌, Bytes, if-cases,
}
use clipboard_helper.Windows.Codec.{parse_helper_message}
use clipboard_helper.Windows.ChunkProvider.{cancel_all}
use clipboard_helper.Windows.Dispatch.{send_frame, Reading, World, Dispatcher, call}
use clipboard_helper.Windows.Dispatch.Handle.{handle}
use clipboard_helper.Windows.Dispatch.Owner.{
  drop_outbound, report_reading, report_change, on_clipboard_changed, release_inbound,
  release_outbound, release_sta_bound_resources,
}
use clipboard_helper.Windows.Dispatch.References.{
  gained, lost, IsBalanced, IsReading, IsWorld, neutral-IsBalanced, release_object-lost,
  update_files-IsBalanced,
}
use clipboard_helper.Windows.Dispatch.Balance.{handle_parsed-Kept}

module _ (k : ℕ) (nonnull : k ≢ 0) where
  report_change-IsBalanced :
      (w : World) (d : Dispatcher) → IsWorld w → IsBalanced k d → IsBalanced k (report_change w d)
  unfolding report_change
  report_change-IsBalanced w d contract h =
      if-cases (IsBalanced k) w.owner_is_us (λ e. h) (λ e. reading w.read_clipboard contract)
    where
      reading :
          (r : Option Reading)
          → ((x : Reading) → r ≡ some x → IsReading x)
          → IsBalanced k (report_reading w r d)
      reading none all = unfold report_reading in h
      reading (some r) all =
          unfold report_reading in
          neutral-IsBalanced k nonnull (send_frame _) _ (refl, refl)
            (update_files-IsBalanced k nonnull r d (all r refl) h)

  drop_outbound-IsBalanced : (d : Dispatcher) → IsBalanced k d → IsBalanced k (drop_outbound d)
  unfolding drop_outbound call
  drop_outbound-IsBalanced d h = ground arith

  on_clipboard_changed-IsBalanced :
      (w : World) (d : Dispatcher)
      → IsWorld w
      → IsBalanced k d
      → IsBalanced k (on_clipboard_changed w d)
  unfolding on_clipboard_changed
  on_clipboard_changed-IsBalanced w d contract h =
      if-cases (IsBalanced k) (d.outbound_data_object == 0)
        (λ e. report_change-IsBalanced w d contract h)
        (λ e.
          if-cases (IsBalanced k) (w.is_current_clipboard d.outbound_data_object) (λ e. h)
            (λ e. report_change-IsBalanced w _ contract (drop_outbound-IsBalanced d h)))

-- Whatever frames arrive and however the clipboard changes: references are balanced throughout.
pub data Entry : Type 0 where
  frame : World → Bytes → Entry
  change : World → Entry

abbrev pub enter : Entry → Dispatcher → Dispatcher
enter (frame w request) d = (handle w request d).0
enter (change w) d = on_clipboard_changed w d

abbrev pub enter_all : List Entry → Dispatcher → Dispatcher
enter_all [] d = d
enter_all (e ∷ es) d = enter_all es (enter e d)

abbrev pub HasContract : List Entry → Type 0
HasContract [] = Unit
HasContract (frame w request ∷ es) = IsWorld w × HasContract es
HasContract (change w ∷ es) = IsWorld w × HasContract es

-- Any frames and clipboard changes, in any order, while ReadClipboard keeps its contract: of every
-- object, the references that were taken are those that were released and those that are held.
pub enter_all-IsBalanced :
    (k : ℕ) (es : List Entry) (d : Dispatcher)
    → k ≢ 0
    → HasContract es
    → IsBalanced k d
    → IsBalanced k (enter_all es d)
unfolding handle
enter_all-IsBalanced k [] d nonnull contract h = h
enter_all-IsBalanced k (frame w request ∷ es) d nonnull contract h =
    enter_all-IsBalanced k es _ nonnull contract.1
      (handle_parsed-Kept k nonnull w (parse_helper_message request) d contract.0 h)
enter_all-IsBalanced k (change w ∷ es) d nonnull contract h =
    enter_all-IsBalanced k es _ nonnull contract.1
      (on_clipboard_changed-IsBalanced k nonnull w d contract.0 h)

release_inbound-IsBalanced :
    (k : ℕ) (d : Dispatcher)
    → k ≢ 0
    → IsBalanced k d
    → IsBalanced k (release_inbound d) × ((release_inbound d).virtual_data_object ≡ 0)
unfolding release_inbound
release_inbound-IsBalanced k d nonnull h =
    let r = release_object-lost k nonnull d.virtual_data_object d in (ground arith, refl)

release_outbound-IsBalanced :
    (k : ℕ) (w : World) (d : Dispatcher)
    → k ≢ 0
    → d.virtual_data_object ≡ 0
    → IsBalanced k d
    → gained k (release_outbound w d).calls ≡ lost k (release_outbound w d).calls
unfolding release_outbound call
release_outbound-IsBalanced k w d nonnull e h = ground arith

-- ReleaseStaBoundResources behind balanced references: of every object, all references that were taken
-- have been released.
pub release_sta_bound_resources-gained :
    (k : ℕ) (w : World) (d : Dispatcher)
    → k ≢ 0
    → IsBalanced k d
    → gained k (release_sta_bound_resources w d).calls
      ≡ lost k (release_sta_bound_resources w d).calls
unfolding release_sta_bound_resources call
release_sta_bound_resources-gained k w d nonnull h =
    let (balanced, inbound) =
      release_inbound-IsBalanced k (record d { provider = cancel_all d.provider }) nonnull h in
    let out =
      release_outbound-IsBalanced k w
        (release_inbound (record d { provider = cancel_all d.provider })) nonnull inbound
        balanced in
    if-cases (λ (x : Dispatcher). gained k x.calls ≡ lost k x.calls) (w.has_owner && w.owner_is_us)
      (λ e. omega (arith, out)) (λ e. out)
