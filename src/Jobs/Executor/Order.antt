-- ===== src/Jobs/Executor/Order.antt =====
-- Tasks start in the order of their submission, each once, and `stop` drains them.
use realtime_chat.Common.{
  length, length-append, ℕ, zero, suc, ◌+◌, ◌≡◌, refl, ap, ◌⊎◌, inl, inr, Bool, true, false, ◌||◌,
  List, [], ◌∷◌, ◌++◌, append_assoc, append-nil, arith, Bool-cases,
}
use realtime_chat.Jobs.Executor.{
  Worker, entering, falling_asleep, asleep, working, exited, StopPhase, not_stopping, notifying,
  joining, Executor, new_executor, is_locked, worker_at, put_worker, woken, wake_all, spawn,
  is_exited, all_exited, is_none, start, submit, notify_one, clear_running, notify_all, join_all,
  take_task, worker_loop, Action, starts, clears, notifies, joins, submits, notifies_one, works,
  act, run,
}

abbrev pub is_busy : Worker → ℕ
is_busy (working t) = 1
is_busy _ = 0

unfoldable pub busy : List Worker → ℕ
busy [] = 0
busy (w ∷ ws) = is_busy w + busy ws

unfoldable pub has_exited : List Worker → Bool
has_exited [] = false
has_exited (w ∷ ws) = is_exited w || has_exited ws

pub record IsOrderly (e : Executor) : Type 0 where
  pub in_order : e.accepted ≡ e.started ++ e.tasks
  pub counted : e.completed + e.failed + busy e.workers ≡ length e.started
  pub drained : has_exited e.workers ≡ true → (e.running ≡ false) × (e.tasks ≡ [])

-- A worker's number that is none reads as exited, and is put nowhere.
busy-put_worker :
    (i : ℕ) (w : Worker) (ws : List Worker)
    → is_exited (worker_at i ws) ≡ false
    → busy (put_worker i w ws) + is_busy (worker_at i ws) ≡ busy ws + is_busy w
unfolding busy put_worker worker_at
busy-put_worker i w [] h = ground arith
busy-put_worker zero w (v ∷ ws) h = omega arith
busy-put_worker (suc i) w (v ∷ ws) h = ground (arith, busy-put_worker i w ws)

busy-woken : (i : ℕ) (ws : List Worker) → busy (put_worker i (woken (worker_at i ws)) ws) ≡ busy ws
unfolding busy put_worker worker_at
busy-woken i [] = refl
busy-woken zero (w ∷ ws) = ground arith
busy-woken (suc i) (w ∷ ws) = ground (arith, busy-woken i ws)

has_exited-woken :
    (i : ℕ) (ws : List Worker)
    → has_exited (put_worker i (woken (worker_at i ws)) ws) ≡ has_exited ws
unfolding has_exited put_worker worker_at
has_exited-woken i [] = refl
has_exited-woken zero (w ∷ ws) = ground arith
has_exited-woken (suc i) (w ∷ ws) = ground (arith, has_exited-woken i ws)

has_exited-put_worker :
    (i : ℕ) (w : Worker) (ws : List Worker)
    → has_exited (put_worker i w ws) ≡ true
    → (is_exited w ≡ true) ⊎ (has_exited ws ≡ true)
unfolding has_exited put_worker
has_exited-put_worker i w [] h = inr h
has_exited-put_worker zero w (v ∷ ws) h = ground arith
has_exited-put_worker (suc i) w (v ∷ ws) h = ground (arith, has_exited-put_worker i w ws)

busy-wake_all : (ws : List Worker) → busy (wake_all ws) ≡ busy ws
unfolding busy wake_all
busy-wake_all [] = refl
busy-wake_all (w ∷ ws) = ground (arith, busy-wake_all ws)

has_exited-wake_all : (ws : List Worker) → has_exited (wake_all ws) ≡ has_exited ws
unfolding has_exited wake_all
has_exited-wake_all [] = refl
has_exited-wake_all (w ∷ ws) = ground (arith, has_exited-wake_all ws)

busy-spawn : (n : ℕ) → busy (spawn n) ≡ 0
unfolding busy spawn
busy-spawn zero = refl
busy-spawn (suc n) = ground (arith, busy-spawn n)

has_exited-spawn : (n : ℕ) → has_exited (spawn n) ≡ false
unfolding has_exited spawn
has_exited-spawn zero = refl
has_exited-spawn (suc n) = ground (arith, has_exited-spawn n)

busy-all_exited : (ws : List Worker) → all_exited ws ≡ true → busy ws ≡ 0
unfolding busy all_exited
busy-all_exited [] h = refl
busy-all_exited (w ∷ ws) h = ground (arith, busy-all_exited ws)

new_executor-IsOrderly : (n : ℕ) → IsOrderly (new_executor n)
unfolding new_executor busy has_exited
new_executor-IsOrderly n = ground arith

start-IsOrderly : (e : Executor) → IsOrderly e → IsOrderly (start e)
unfolding start busy has_exited
start-IsOrderly e h = ground (arith, busy-spawn e.worker_count, has_exited-spawn e.worker_count)

submit-IsOrderly : (t : ℕ) (e : Executor) → IsOrderly e → IsOrderly (submit t e)
unfolding submit
submit-IsOrderly t e h = ground (arith, h.drained, append_assoc e.started e.tasks (t ∷ []))

notify_one-IsOrderly : (i : ℕ) (e : Executor) → IsOrderly e → IsOrderly (notify_one i e)
unfolding notify_one
notify_one-IsOrderly i e h =
    ground (arith, h.drained, busy-woken i e.workers, has_exited-woken i e.workers)

clear_running-IsOrderly : (e : Executor) → IsOrderly e → IsOrderly (clear_running e)
unfolding clear_running
clear_running-IsOrderly e h = ground (arith, h.drained)

notify_all-IsOrderly : (p : StopPhase) (e : Executor) → IsOrderly e → IsOrderly (notify_all p e)
unfolding notify_all
notify_all-IsOrderly not_stopping e h = h
notify_all-IsOrderly notifying e h =
    ground (arith, h.drained, busy-wake_all e.workers, has_exited-wake_all e.workers)
notify_all-IsOrderly joining e h = h

join_all-IsOrderly : (p : StopPhase) (e : Executor) → IsOrderly e → IsOrderly (join_all p e)
unfolding join_all busy has_exited
join_all-IsOrderly not_stopping e h = h
join_all-IsOrderly notifying e h = h
join_all-IsOrderly joining e h = ground (arith, h.drained, busy-all_exited e.workers)

take_task-IsOrderly :
    (i : ℕ) (ts : List ℕ) (e : Executor)
    → e.tasks ≡ ts
    → is_exited (worker_at i e.workers) ≡ false
    → is_busy (worker_at i e.workers) ≡ 0
    → IsOrderly e
    → IsOrderly (take_task i ts e)
unfolding take_task
take_task-IsOrderly i [] e q x b h = ground (
  arith,
  h.drained,
  busy-put_worker i falling_asleep e.workers,
  busy-put_worker i exited e.workers,
  has_exited-put_worker i falling_asleep e.workers,
  has_exited-put_worker i exited e.workers,
)
take_task-IsOrderly i (t ∷ ts) e q x b h = ground (
  arith,
  h.drained,
  length-append e.started (t ∷ []),
  append_assoc e.started (t ∷ []) ts,
  busy-put_worker i (working t) e.workers,
  has_exited-put_worker i (working t) e.workers,
)

worker_loop-IsOrderly :
    (w : Worker) (i : ℕ) (throws : Bool) (e : Executor)
    → worker_at i e.workers ≡ w
    → IsOrderly e
    → IsOrderly (worker_loop w i throws e)
unfolding worker_loop
worker_loop-IsOrderly entering i throws e at h = elim (Bool-cases (is_locked e.workers)) [
  | inl l ↦ rw l h
  | inr l ↦ rw l (take_task-IsOrderly i e.tasks e refl (ap is_exited at) (ap is_busy at) h)
]
worker_loop-IsOrderly falling_asleep i throws e at h =
    ground (
      arith,
      h.drained,
      busy-put_worker i asleep e.workers,
      has_exited-put_worker i asleep e.workers,
    )
worker_loop-IsOrderly asleep i throws e at h = h
worker_loop-IsOrderly (working t) i true e at h = ground (
  arith,
  h.drained,
  busy-put_worker i entering e.workers,
  has_exited-put_worker i entering e.workers,
)
worker_loop-IsOrderly (working t) i false e at h = ground (
  arith,
  h.drained,
  busy-put_worker i entering e.workers,
  has_exited-put_worker i entering e.workers,
)
worker_loop-IsOrderly exited i throws e at h = h

act-IsOrderly : (a : Action) (e : Executor) → IsOrderly e → IsOrderly (act a e)
unfolding act
act-IsOrderly starts e h = start-IsOrderly e h
act-IsOrderly clears e h = clear_running-IsOrderly e h
act-IsOrderly notifies e h = notify_all-IsOrderly e.phase e h
act-IsOrderly joins e h = join_all-IsOrderly e.phase e h
act-IsOrderly (submits t) e h = submit-IsOrderly t e h
act-IsOrderly (notifies_one i) e h = notify_one-IsOrderly i e h
act-IsOrderly (works i throws) e h = worker_loop-IsOrderly (worker_at i e.workers) i throws e refl h

run-IsOrderly : (as' : List Action) (e : Executor) → IsOrderly e → IsOrderly (run as' e)
unfolding run
run-IsOrderly [] e h = h
run-IsOrderly (a ∷ as') e h = run-IsOrderly as' (act a e) (act-IsOrderly a e h)

-- In every interleaving tasks are started in the order in which they were enqueued, each once: what
-- was enqueued is what was started, followed by what still waits.
pub run-in_order :
    (count : ℕ) (interleaving : List Action)
    → (run interleaving (new_executor count)).accepted
      ≡ (run interleaving (new_executor count)).started
        ++ (run interleaving (new_executor count)).tasks
run-in_order count interleaving =
    (run-IsOrderly interleaving (new_executor count) (new_executor-IsOrderly count)).in_order

first_exited : (ws : List Worker) → all_exited ws ≡ true → is_none ws ≡ false → has_exited ws ≡ true
unfolding all_exited has_exited
first_exited [] a n = ground arith
first_exited (w ∷ ws) a n = ground arith

-- In every interleaving, once the workers have returned, no task waits, and every task that was ever
-- enqueued has completed or failed.
pub all_exited-drained :
    (count : ℕ) (interleaving : List Action)
    → all_exited (run interleaving (new_executor count)).workers ≡ true
    → is_none (run interleaving (new_executor count)).workers ≡ false
    → ((run interleaving (new_executor count)).tasks ≡ [])
      × ((run interleaving (new_executor count)).completed
            + (run interleaving (new_executor count)).failed
          ≡ length (run interleaving (new_executor count)).accepted)
all_exited-drained count interleaving a n =
    let e = run interleaving (new_executor count) in
    let h = run-IsOrderly interleaving (new_executor count) (new_executor-IsOrderly count) in
    ground (
      arith,
      h.drained (first_exited e.workers a n),
      busy-all_exited e.workers a,
      append-nil e.started,
    )
