-- ===== src/Windows/WorkQueue.antt =====
-- windows/src/work_queue.cpp: tasks from other threads, run by the thread that drains. A task acts
-- on a state of the program and on the queue itself: it may push more tasks, which is the list that
-- it returns, and it may throw. Each operation is one step under the lock.
use clipboard_helper.Prelude.{
  ℕ, suc, ◌+◌, ◌≡◌, Bool, true, false, List, [], ◌∷◌, ◌++◌, append_assoc, append-nil, arith,
  if◌then◌else◌, length,
}

-- A task is a name; `run` gives the state behind it, the tasks that it pushes and whether it throws.
pub record Outcome (S : Type 0) : Type 0 where
  pub state : S
  pub pushes : List ℕ
  pub throws : Bool

pub record DrainStats : Type 0 where
  pub executed : ℕ
  pub exceptions : ℕ

unfoldable pub push : ℕ → List ℕ → List ℕ
push task queue = queue ++ task ∷ []

unfoldable pub push_all : List ℕ → List ℕ → List ℕ
push_all [] queue = queue
push_all (t ∷ tasks) queue = push_all tasks (push t queue)

module _ {S : Type 0} (run : ℕ → S → Outcome S) where
  -- The loop of Drain over the snapshot.
  unfoldable pub drain_loop : List ℕ → S → List ℕ → DrainStats → S × List ℕ × DrainStats
  drain_loop [] s queue stats = (s, queue, stats)
  drain_loop (t ∷ snapshot) s queue stats =
      let out = run t s in
      drain_loop snapshot out.state (push_all out.pushes queue) (record {
        executed = stats.executed + 1;
        exceptions = if out.throws then stats.exceptions + 1 else stats.exceptions;
      })

  unfoldable pub drain : S → List ℕ → S × List ℕ × DrainStats
  drain s queue = drain_loop queue s [] (record { executed = 0; exceptions = 0 })

unfoldable pub drop_all : List ℕ → List ℕ
drop_all queue = []

push_all-append : (tasks queue : List ℕ) → push_all tasks queue ≡ queue ++ tasks
unfolding push_all push
push_all-append [] queue = rw (append-nil queue)
push_all-append (t ∷ tasks) queue =
    rw (push_all-append tasks (queue ++ t ∷ []), append_assoc queue (t ∷ []) tasks)

module _ {S : Type 0} (run : ℕ → S → Outcome S) where
  -- The tasks of a snapshot in their order: the state behind them, what they push, how many throw.
  abbrev pub run_all : List ℕ → S → Outcome S
  run_all [] s = record { state = s; pushes = []; throws = false }
  run_all (t ∷ tasks) s =
      let out = run t s in
      let rest = run_all tasks out.state in record rest { pushes = out.pushes ++ rest.pushes }

  abbrev pub throws_of : List ℕ → S → ℕ
  throws_of [] s = 0
  throws_of (t ∷ tasks) s =
      let out = run t s in (if out.throws then 1 else 0) + throws_of tasks out.state

  drain_loop-run :
      (tasks : List ℕ) (s : S) (queue : List ℕ) (stats : DrainStats)
      → drain_loop run tasks s queue stats ≡ (
        (run_all tasks s).state,
        queue ++ (run_all tasks s).pushes,
        record {
          executed = stats.executed + length tasks;
          exceptions = stats.exceptions + throws_of tasks s;
        },
      )
  unfolding drain_loop
  drain_loop-run [] s queue stats =
      let e : stats.executed + 0 ≡ stats.executed = omega arith in
      let x : stats.exceptions + 0 ≡ stats.exceptions = omega arith in rw (append-nil queue, e, x)
  drain_loop-run (t ∷ tasks) s queue stats =
      let out = run t s in
      rw
        (
          drain_loop-run tasks out.state (push_all out.pushes queue) (record {
            executed = stats.executed + 1;
            exceptions = if out.throws then stats.exceptions + 1 else stats.exceptions;
          }),
          push_all-append out.pushes queue,
          append_assoc queue out.pushes (run_all tasks out.state).pushes,
        )
        (counted out.throws stats.exceptions (throws_of tasks out.state) stats.executed
          (length tasks))
    where
      counted :
          (b : Bool) (n m k l : ℕ)
          → ◌≡◌ {A = S × List ℕ × DrainStats}
              (
                (run_all tasks (run t s).state).state,
                queue ++ ((run t s).pushes ++ (run_all tasks (run t s).state).pushes),
                record { executed = k + 1 + l; exceptions = (if b then n + 1 else n) + m },
              )
              (
                (run_all tasks (run t s).state).state,
                queue ++ ((run t s).pushes ++ (run_all tasks (run t s).state).pushes),
                record { executed = k + suc l; exceptions = n + ((if b then 1 else 0) + m) },
              )
      counted true n m k l =
          let e : k + 1 + l ≡ k + suc l = omega arith in
          let x : n + 1 + m ≡ n + (1 + m) = omega arith in rw (e, x)
      counted false n m k l =
          let e : k + 1 + l ≡ k + suc l = omega arith in
          let x : n + m ≡ n + (0 + m) = omega arith in rw (e, x)

  -- Drain runs each queued task once, in the order of the pushes, and goes on behind one that
  -- throws; tasks that the run ones push wait for the next Drain, in their order; and the counts are
  -- those of the tasks and of the exceptions.
  pub drain-run :
      (s : S) (queue : List ℕ)
      → drain run s queue ≡ (
        (run_all queue s).state,
        (run_all queue s).pushes,
        record { executed = length queue; exceptions = throws_of queue s },
      )
  unfolding drain
  drain-run s queue =
      let e : 0 + length queue ≡ length queue = omega arith in
      let x : 0 + throws_of queue s ≡ throws_of queue s = omega arith in
      rw (e, x) at (drain_loop-run queue s [] (record { executed = 0; exceptions = 0 }))
