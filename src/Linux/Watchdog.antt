-- ===== src/Linux/Watchdog.antt =====
-- linux/src/parent_watchdog.cpp: the callback on the parent's death. What the process meets is a
-- list of answers: those of kill(pid, 0), and what the loop reads of `stop_`.
use clipboard_helper.Prelude.{
  ℕ, ◌+◌, ◌≡◌, refl, Bool, true, false, not, ◌&&◌, List, [], ◌∷◌, arith, if◌then◌else◌,
}

-- One round of PollLoop: `stop_` at its head, `stop_` at some slice of the sleep, and what kill
-- says of the parent behind the sleep (`gone` is -1 with ESRCH).
pub record Round : Type 0 where
  pub stop_at_head : Bool
  pub stop_in_sleep : Bool
  pub gone : Bool

-- `fired_`, whether `shutdown_cb_` is set, and how often it was called.
pub record ParentWatchdog : Type 0 where
  pub fired : Bool
  pub has_shutdown_cb : Bool
  pub calls : ℕ

-- `if (!fired_.exchange(true) && shutdown_cb_) shutdown_cb_();`
unfoldable pub fire : ParentWatchdog → ParentWatchdog
fire w =
    let w' = record w { fired = true } in
    if not w.fired && w.has_shutdown_cb then record w' { calls = w.calls + 1 } else w'

-- The rounds of PollLoop; the list ends where the observation ends.
unfoldable pub poll_loop : List Round → ParentWatchdog → ParentWatchdog
poll_loop [] w = w
poll_loop (r ∷ rounds) w =
    let rest = poll_loop rounds w in
    if r.stop_at_head then w else if r.stop_in_sleep then w else if r.gone then fire w else rest

-- Start: the check before the thread, then the thread's rounds.
unfoldable pub start : Bool → List Round → ParentWatchdog → ParentWatchdog
start gone_at_start rounds w =
    let polled = poll_loop rounds w in if gone_at_start then fire w else polled

-- A watchdog behind its constructor and the first lines of Start.
abbrev pub fresh : Bool → ParentWatchdog
fresh has_shutdown_cb = record { fired = false; has_shutdown_cb = has_shutdown_cb; calls = 0 }

-- The parent was seen to be gone before the loop was told to stop.
abbrev pub sees_gone : List Round → Bool
sees_gone [] = false
sees_gone (r ∷ rounds) =
    let rest = sees_gone rounds in
    if r.stop_at_head
    then false
    else if r.stop_in_sleep
    then false
    else if r.gone
    then true
    else rest

poll_loop-calls :
    (rounds : List Round) (has_cb : Bool)
    → (poll_loop rounds (fresh has_cb)).calls ≡ (if sees_gone rounds && has_cb then 1 else 0)
unfolding poll_loop fire
poll_loop-calls [] has_cb = refl
poll_loop-calls (r ∷ rounds) has_cb = ground (arith, poll_loop-calls rounds has_cb)

-- Whatever the rounds are, the callback is called once if there is one and the parent was gone at
-- the start or was seen to be gone in a round before a stop, and never otherwise.
pub start-calls :
    (gone_at_start : Bool) (rounds : List Round) (has_cb : Bool)
    → (start gone_at_start rounds (fresh has_cb)).calls
      ≡ (if (if gone_at_start then true else sees_gone rounds) && has_cb then 1 else 0)
unfolding start fire
start-calls true rounds true = refl
start-calls true rounds false = refl
start-calls false rounds has_cb = poll_loop-calls rounds has_cb
