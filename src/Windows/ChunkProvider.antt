-- ===== src/Windows/ChunkProvider.antt =====
-- windows/src/dispatch.cpp, DispatcherChunkProvider: the requests for chunks of virtual files that
-- wait for the parent. The critical sections are the steps: FetchChunk up to its wait, its end
-- behind the wait, DeliverChunk and CancelAll; they interleave in any order. A slot is a number, its
-- contents stand in the store. FetchChunk's wait ends by a signal, by WM_QUIT or by the timeout, and
-- the code behind it reads only `got_quit` and the slot.
pub mod Delivery
use clipboard_helper.Prelude.{
  ℕ, ◌+◌, Bool, true, false, not, ◌&&◌, ◌||◌, List, [], ◌∷◌, ◌++◌, ◌==◌, if◌then◌else◌, Bytes,
  is_empty, bytes_eq,
}
use clipboard_helper.Windows.Codec.Files.{to_string_loop}

pub record PendingChunk : Type 0 where
  pub has_event : Bool
  pub signalled : Bool
  pub content : Bytes
  pub is_last : Bool
  pub error : Bytes
  pub received : Bool
  pub cancelled : Bool

-- A slot whose event has just been created.
abbrev pub new_slot : PendingChunk
new_slot = record {
  has_event = true;
  signalled = false;
  content = [];
  is_last = false;
  error = [];
  received = false;
  cancelled = false;
}

pub record Provider : Type 0 where
  pub has_pipe : Bool
  pub pending : List (Bytes × List ℕ)
  pub slots : ℕ → PendingChunk
  pub next : ℕ

pub data HResult : Type 0 where
  s_ok : HResult
  e_fail : HResult
  e_invalidarg : HResult
  e_abort : HResult
  stg_e_reverted : HResult

-- A 64-bit offset has twenty digits at most.
unfoldable pub make_key : Bytes → Bytes → ℕ → Bytes
make_key transfer_id file_id offset =
    transfer_id ++ b'|' ∷ file_id ++ b'|' ∷ to_string_loop 19 offset

unfoldable pub find_queue : Bytes → List (Bytes × List ℕ) → List ℕ
find_queue key [] = []
find_queue key ((k, queue) ∷ pending) =
    let rest = find_queue key pending in if bytes_eq k key then queue else rest

-- `pending_[key].push_back(slot)`
unfoldable pub push_back : Bytes → ℕ → List (Bytes × List ℕ) → List (Bytes × List ℕ)
push_back key slot [] = (key, slot ∷ []) ∷ []
push_back key slot ((k, queue) ∷ pending) =
    let rest = push_back key slot pending in
    if bytes_eq k key then (k, queue ++ slot ∷ []) ∷ pending else (k, queue) ∷ rest

unfoldable pub erase_first : ℕ → List ℕ → List ℕ
erase_first slot [] = []
erase_first slot (s ∷ queue) =
    let rest = erase_first slot queue in if s == slot then queue else s ∷ rest

unfoldable pub erase_from_queue_locked : Bytes → ℕ → List (Bytes × List ℕ) → List (Bytes × List ℕ)
erase_from_queue_locked key slot [] = []
erase_from_queue_locked key slot ((k, queue) ∷ pending) =
    let rest = erase_from_queue_locked key slot pending in
    if bytes_eq k key
    then (if is_empty (erase_first slot queue)
        then pending
        else (k, erase_first slot queue) ∷ pending)
    else (k, queue) ∷ rest

unfoldable pub set_slot : ℕ → PendingChunk → Provider → Provider
set_slot slot chunk p = record p { slots = λ i. if i == slot then chunk else p.slots i }

-- What FetchChunk has done when it starts to wait.
pub data Fetch : Type 0 where
  returned : HResult → Fetch
  waiting : ℕ → Fetch

-- FetchChunk up to the wait: whether CreateEventW succeeds, and whether SendFrame does.
unfoldable pub begin_fetch : Bool → Bool → Bytes → Bytes → ℕ → Provider → Fetch × Provider
begin_fetch created sent transfer_id file_id offset p =
    let key = make_key transfer_id file_id offset in
    let slot = p.next in
    let staged = record (set_slot slot new_slot p) {
      pending = push_back key slot p.pending;
      next = slot + 1;
    } in
    if not p.has_pipe
    then (returned e_fail, p)
    else if is_empty transfer_id || is_empty file_id
    then (returned e_invalidarg, p)
    else if not created
    then (returned e_fail, p)
    else if not sent
    then (
      returned e_fail,
      record staged { pending = erase_from_queue_locked key slot staged.pending },
    )
    else (waiting slot, staged)

-- The result of FetchChunk with `out_data` and `out_is_last`.
pub record Fetched : Type 0 where
  pub result : HResult
  pub out_data : Bytes
  pub out_is_last : Bool

abbrev pub failing : HResult → Fetched
failing result = record { result = result; out_data = []; out_is_last = false }

-- The tests behind the wait.
unfoldable pub judge : Bool → PendingChunk → Fetched
judge got_quit chunk =
    if got_quit
    then failing e_abort
    else if chunk.cancelled && not chunk.received
    then failing stg_e_reverted
    else if not chunk.received
    then failing e_fail
    else if not (is_empty chunk.error)
    then failing e_fail
    else record { result = s_ok; out_data = chunk.content; out_is_last = chunk.is_last }

-- FetchChunk behind the wait: the slot leaves its queue, and its event is closed.
unfoldable pub end_fetch : Bool → Bytes → ℕ → Provider → Fetched × Provider
end_fetch got_quit key slot p =
    let chunk = p.slots slot in
    let taken = record chunk { content = []; error = []; has_event = false } in
    let p' = set_slot slot taken p in
    (judge got_quit chunk, record p' { pending = erase_from_queue_locked key slot p.pending })

-- `if (slot->event) ::SetEvent(slot->event);`
unfoldable pub set_event : PendingChunk → PendingChunk
set_event chunk = if chunk.has_event then record chunk { signalled = true } else chunk

-- The front of the queue that DeliverChunk finds.
unfoldable pub deliver_to : List ℕ → Bytes → Bool → Bytes → Provider → Provider
deliver_to [] content is_last error p = p
deliver_to (slot ∷ queue) content is_last error p =
    let chunk = record (p.slots slot) {
      content = content;
      is_last = is_last;
      error = error;
      received = true;
    } in
    set_slot slot (set_event chunk) p

unfoldable pub deliver_chunk : Bytes → Bytes → ℕ → Bytes → Bool → Bytes → Provider → Provider
deliver_chunk transfer_id file_id offset content is_last error p =
    deliver_to (find_queue (make_key transfer_id file_id offset) p.pending) content is_last error p

unfoldable pub cancel_queue : List ℕ → Provider → Provider
cancel_queue [] p = p
cancel_queue (slot ∷ queue) p =
    let chunk = record (p.slots slot) { cancelled = true } in
    cancel_queue queue (set_slot slot (set_event chunk) p)

unfoldable pub cancel_queues : List (Bytes × List ℕ) → Provider → Provider
cancel_queues [] p = p
cancel_queues ((k, queue) ∷ pending) p = cancel_queues pending (cancel_queue queue p)

unfoldable pub cancel_all : Provider → Provider
cancel_all p = cancel_queues p.pending p
