-- ===== src/Linux/Wayland/Slot.antt =====
-- linux/src/clipboard_manager_wayland.cpp: the shared state against what it stands for, a slot with
-- the announced kind, its key and the content, if it has come. The field `pending_data_hash` and the
-- comparisons with it have no counterpart in the slot.
use clipboard_helper.Prelude.{
  ◌≡◌, refl, ◌∙◌, Option, none, some, true, List, [], ◌∷◌, arith, if◌then◌else◌, Bytes, bytes_eq,
  bytes_eq_iff,
}
use clipboard_helper.Linux.Manager.{Callback}
use clipboard_helper.Linux.Wayland.{ContentKind, WlrState, set_eager, set_announced, set_provided}
use clipboard_helper.Linux.Wayland.Sends.{pending_for}

pub record Slot : Type 0 where
  pub kind : ContentKind
  pub key : Bytes
  pub content : Option Bytes

abbrev pub view : WlrState → Slot
view s = record { kind = s.content_kind; key = s.current_hash; content = s.pending_data }

-- What changes the shared state, in any order.
pub data Operation : Type 0 where
  set : ContentKind → Bytes → Operation
  announce : ContentKind → Bytes → Operation
  provide : Bytes → Bytes → Operation
  cache : Option Bytes → Operation
  install : Callback → Callback → Operation
  shut_down : Operation

abbrev pub perform : Operation → WlrState → WlrState
perform (set kind payload) s = set_eager kind payload s
perform (announce kind hash) s = set_announced kind hash s
perform (provide hash bytes) s = set_provided hash bytes s
perform (cache t) s = record s { cached_clipboard_text = t }
perform (install changed request) s = record s { on_changed = changed; on_request = request }
perform shut_down s = record s { stop = true }

-- The same of the slot: content is taken exactly under the current key.
abbrev pub specify : Operation → Slot → Slot
specify (set kind payload) slot = record { kind = kind; key = payload; content = some payload }
specify (announce kind hash) slot = record { kind = kind; key = hash; content = none }
specify (provide hash bytes) slot =
    if bytes_eq slot.key hash then record slot { content = some bytes } else slot
specify (cache t) slot = slot
specify (install changed request) slot = slot
specify shut_down slot = slot

abbrev pub run : List Operation → WlrState → WlrState
run [] s = s
run (op ∷ ops) s = run ops (perform op s)

abbrev pub specify_all : List Operation → Slot → Slot
specify_all [] slot = slot
specify_all (op ∷ ops) slot = specify_all ops (specify op slot)

abbrev pub Fits : Option Bytes → Bytes → Bytes → Type 0
Fits none hash key = Unit
Fits (some bytes) hash key = hash ≡ key

-- Pending data is always that of the current hash.
abbrev pub IsConsistent : WlrState → Type 0
IsConsistent s = Fits s.pending_data s.pending_data_hash s.current_hash

perform-IsConsistent :
    (op : Operation) (s : WlrState) → IsConsistent s → IsConsistent (perform op s)
unfolding set_eager set_announced set_provided
perform-IsConsistent (set kind payload) s h = refl
perform-IsConsistent (announce kind hash) s h = tt
perform-IsConsistent (provide hash bytes) s h = ground (arith, bytes_eq_iff s.current_hash hash)
perform-IsConsistent (cache t) s h = h
perform-IsConsistent (install changed request) s h = h
perform-IsConsistent shut_down s h = h

perform-view : (op : Operation) (s : WlrState) → view (perform op s) ≡ specify op (view s)
unfolding set_eager set_announced set_provided
perform-view (set kind payload) s = refl
perform-view (announce kind hash) s = refl
perform-view (provide hash bytes) s = ground arith
perform-view (cache t) s = refl
perform-view (install changed request) s = refl
perform-view shut_down s = refl

pub run-IsConsistent :
    (ops : List Operation) (s : WlrState) → IsConsistent s → IsConsistent (run ops s)
run-IsConsistent [] s h = h
run-IsConsistent (op ∷ ops) s h = run-IsConsistent ops (perform op s) (perform-IsConsistent op s h)

pub run-view : (ops : List Operation) (s : WlrState) → view (run ops s) ≡ specify_all ops (view s)
run-view [] s = refl
run-view (op ∷ ops) s = let e = perform-view op s in run-view ops (perform op s) ∙ rw e refl

-- Behind the test of the hash, the pending data under the current hash is the slot's content.
pub pending_for-current :
    (s : WlrState) → IsConsistent s → pending_for s s.current_hash ≡ s.pending_data
unfolding pending_for
pending_for-current s h = ground (arith, bytes_eq_iff s.pending_data_hash s.current_hash)

-- The same of another hash: there is none.
pub pending_for-eq-some :
    (s : WlrState) (hash bytes : Bytes)
    → IsConsistent s
    → pending_for s hash ≡ some bytes
    → (s.current_hash ≡ hash) × (s.pending_data ≡ some bytes)
unfolding pending_for
pending_for-eq-some s hash bytes h e = ground (arith, bytes_eq_iff s.pending_data_hash hash)
