-- ===== src/Windows/ChunkProvider/Delivery.antt =====
-- windows/src/dispatch.cpp: FetchChunk and DeliverChunk together.
use clipboard_helper.Prelude.{
  ℕ, ◌+◌, ◌≡◌, refl, ap, ◌∙◌, inl, inr, Bool, true, false, List, [], ◌∷◌, ◌++◌, arith, ◌==◌,
  Bool-cases, Bytes, is_empty, bytes_eq, bytes_eq_refl,
}
use clipboard_helper.Windows.ChunkProvider.{
  PendingChunk, new_slot, Provider, s_ok, e_fail, make_key, find_queue, push_back, set_slot,
  waiting, begin_fetch, judge, failing, end_fetch, set_event, deliver_to, deliver_chunk,
}

find_queue-push_back :
    (key : Bytes) (slot : ℕ) (pending : List (Bytes × List ℕ))
    → find_queue key (push_back key slot pending) ≡ find_queue key pending ++ slot ∷ []
unfolding find_queue push_back
find_queue-push_back key slot [] = rw (bytes_eq_refl key)
find_queue-push_back key slot ((k, queue) ∷ pending) = elim (Bool-cases (bytes_eq k key)) [
  | inl e ↦ rw (e, e)
  | inr e ↦ rw (e, e) (find_queue-push_back key slot pending)
]

own_slot : (n : ℕ) → (n == n) ≡ true
own_slot n = ground arith

other_slot : (n : ℕ) → (n + 1 == n) ≡ false
other_slot n = ground arith

-- The provider behind the staging of one more request whose frame was sent.
abbrev pub staged : Bytes → Bytes → ℕ → Provider → Provider
staged t f o p = (begin_fetch true true t f o p).1

begin_fetch-waiting :
    (t f : Bytes) (o : ℕ) (q : Provider)
    → q.has_pipe ≡ true
    → is_empty t ≡ false
    → is_empty f ≡ false
    → begin_fetch true true t f o q ≡ (
      waiting q.next,
      record (set_slot q.next new_slot q) {
        pending = push_back (make_key t f o) q.next q.pending;
        next = q.next + 1;
      },
    )
unfolding begin_fetch
begin_fetch-waiting t f o q hp ht hf = rw (hp, ht, hf)

set_slot-own : (n : ℕ) (c : PendingChunk) (p : Provider) → (set_slot n c p).slots n ≡ c
unfolding set_slot
set_slot-own n c p = let same = own_slot n in rw same refl

set_slot-next :
    (n : ℕ) (c : PendingChunk) (p : Provider) → (set_slot n c p).slots (n + 1) ≡ p.slots (n + 1)
unfolding set_slot
set_slot-next n c p = let other = other_slot n in rw other refl

-- A slot that an answer without an error has reached.
abbrev answered : Bytes → Bool → PendingChunk → PendingChunk
answered content is_last c =
    set_event (record c { content = content; is_last = is_last; error = []; received = true })

judge-answered :
    (content : Bytes) (is_last : Bool) (c : PendingChunk)
    → judge false (answered content is_last c)
      ≡ record { result = s_ok; out_data = content; out_is_last = is_last }
unfolding judge set_event
judge-answered content is_last c = ground arith

deliver-front :
    (t f : Bytes) (o : ℕ) (content : Bytes) (is_last : Bool) (q : Provider) (slot : ℕ)
    (queue : List ℕ)
    → find_queue (make_key t f o) q.pending ≡ slot ∷ queue
    → deliver_chunk t f o content is_last [] q
      ≡ set_slot slot (answered content is_last (q.slots slot)) q
unfolding deliver_chunk
deliver-front t f o content is_last q slot queue h = rw h (unfold deliver_to in refl)

end_fetch-judge :
    (key : Bytes) (slot : ℕ) (p : Provider) (c : PendingChunk)
    → p.slots slot ≡ c
    → (end_fetch false key slot p).0 ≡ judge false c
unfolding end_fetch
end_fetch-judge key slot p c h = ap (judge false) h

pending-set_slot : (n : ℕ) (c : PendingChunk) (p : Provider) → (set_slot n c p).pending ≡ p.pending
unfolding set_slot
pending-set_slot n c p = refl

-- With a pipe, identifiers that are not empty and no other request for the same chunk: a request
-- that waits and is answered without an error ends with S_OK and the answer's bytes.
pub fetch-delivered :
    (t f : Bytes) (o : ℕ) (p : Provider) (content : Bytes) (is_last : Bool)
    → p.has_pipe ≡ true
    → is_empty t ≡ false
    → is_empty f ≡ false
    → find_queue (make_key t f o) p.pending ≡ []
    → (end_fetch false
        (make_key t f o)
        p.next
        (deliver_chunk t f o content is_last [] (staged t f o p))).0
      ≡ record { result = s_ok; out_data = content; out_is_last = is_last }
fetch-delivered t f o p content is_last piped named filed alone =
    let key = make_key t f o in
    let q = record (set_slot p.next new_slot p) {
      pending = push_back key p.next p.pending;
      next = p.next + 1;
    } in
    let first : find_queue key q.pending ≡ p.next ∷ [] =
      find_queue-push_back key p.next p.pending ∙ ap (λ l. l ++ p.next ∷ []) alone in
    let d = set_slot p.next (answered content is_last (q.slots p.next)) q in
    ap (λ r. (end_fetch false key p.next (deliver_chunk t f o content is_last [] r.1)).0)
      (begin_fetch-waiting t f o p piped named filed)
    ∙ ap (λ r. (end_fetch false key p.next r).0)
        (deliver-front t f o content is_last q p.next [] first)
    ∙ end_fetch-judge key p.next d _ (set_slot-own p.next _ q)
    ∙ judge-answered content is_last (q.slots p.next)

-- With a pipe, identifiers that are not empty and no other request for the same chunk: of two
-- requests for one chunk, answered twice before either ends, the first is given the second answer,
-- and the second fails though it was answered.
pub second_waiter :
    (t f : Bytes) (o : ℕ) (p : Provider) (one two : Bytes) (last_one last_two : Bool)
    → p.has_pipe ≡ true
    → is_empty t ≡ false
    → is_empty f ≡ false
    → find_queue (make_key t f o) p.pending ≡ []
    → ((end_fetch false (make_key t f o) p.next (
          deliver_chunk t f o two last_two []
            (deliver_chunk t f o one last_one [] (staged t f o (staged t f o p))))).0
        ≡ record { result = s_ok; out_data = two; out_is_last = last_two })
      × ((end_fetch false (make_key t f o) (p.next + 1) (
            deliver_chunk t f o two last_two []
              (deliver_chunk t f o one last_one [] (staged t f o (staged t f o p))))).0
          ≡ failing e_fail)
unfolding set_slot
second_waiter t f o p one two last_one last_two piped named filed alone = (
  ap (λ r. (end_fetch false (make_key t f o) p.next r).0) delivered
      ∙ end_fetch-judge (make_key t f o) p.next d2 _ (set_slot-own p.next _ d1)
      ∙ judge-answered two last_two (d1.slots p.next),
  ap (λ r. (end_fetch false (make_key t f o) (p.next + 1) r).0) delivered
      ∙ end_fetch-judge (make_key t f o) (p.next + 1) d2 new_slot (
          set_slot-next p.next _ d1
          ∙ set_slot-next p.next _ q2
          ∙ set_slot-own (p.next + 1) new_slot q1)
      ∙ unfold judge in refl,
)
  where
    q1 : Provider
    q1 = record (set_slot p.next new_slot p) {
      pending = push_back (make_key t f o) p.next p.pending;
      next = p.next + 1;
    }

    q2 : Provider
    q2 = record (set_slot (p.next + 1) new_slot q1) {
      pending = push_back (make_key t f o) (p.next + 1) q1.pending;
      next = p.next + 1 + 1;
    }

    d1 : Provider
    d1 = set_slot p.next (answered one last_one (q2.slots p.next)) q2

    d2 : Provider
    d2 = set_slot p.next (answered two last_two (d1.slots p.next)) d1

    front : find_queue (make_key t f o) q2.pending ≡ p.next ∷ (p.next + 1) ∷ []
    front =
        find_queue-push_back (make_key t f o) (p.next + 1) q1.pending
        ∙ ap (λ l. l ++ (p.next + 1) ∷ [])
            (find_queue-push_back (make_key t f o) p.next p.pending
              ∙ ap (λ l. l ++ p.next ∷ []) alone)

    delivered :
        deliver_chunk t f o two last_two []
          (deliver_chunk t f o one last_one [] (staged t f o (staged t f o p)))
        ≡ d2
    delivered =
        ap
          (λ r.
            deliver_chunk t f o two last_two []
              (deliver_chunk t f o one last_one [] (staged t f o r.1)))
          (begin_fetch-waiting t f o p piped named filed)
        ∙ ap (λ r. deliver_chunk t f o two last_two [] (deliver_chunk t f o one last_one [] r.1))
            (begin_fetch-waiting t f o q1 piped named filed)
        ∙ ap (deliver_chunk t f o two last_two [])
            (deliver-front t f o one last_one q2 p.next ((p.next + 1) ∷ []) front)
        ∙ deliver-front t f o two last_two d1 p.next ((p.next + 1) ∷ []) front
