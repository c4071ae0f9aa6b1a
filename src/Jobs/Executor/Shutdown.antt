-- ===== src/Jobs/Executor/Shutdown.antt =====
-- What `stop` waits for: the workers that are awake return, and one that misses the notification
-- never does.
use realtime_chat.Common.{
  length, ℕ, zero, suc, ◌+◌, ◌*◌, ◌<◌, ◌≡◌, refl, Bool, true, false, ◌&&◌, List, [], ◌∷◌, arith,
}
use realtime_chat.Jobs.Executor.{
  Worker, entering, falling_asleep, asleep, working, exited, joining, Executor, is_locked,
  worker_at, put_worker, wake_all, is_exited, all_exited, start, submit, notify_one, clear_running,
  notify_all, join_all, take_task, worker_loop, Action, starts, clears, notifies, joins, submits,
  notifies_one, works, act, run,
}

-- No worker sleeps or is about to: each is about to take the mutex, running a task, or returned.
abbrev pub is_awake : Worker → Bool
is_awake asleep = false
is_awake falling_asleep = false
is_awake _ = true

unfoldable pub all_awake : List Worker → Bool
all_awake [] = true
all_awake (w ∷ ws) = is_awake w && all_awake ws

-- The actions that a worker has still to take before it returns, but for the tasks in the queue.
abbrev pub steps_of : Worker → ℕ
steps_of (working t) = 2
steps_of exited = 0
steps_of _ = 1

unfoldable pub steps_left : List Worker → ℕ
steps_left [] = 0
steps_left (w ∷ ws) = steps_of w + steps_left ws

abbrev pub work_left : Executor → ℕ
work_left e = 2 * length e.tasks + steps_left e.workers

-- The flag is cleared and nobody sleeps.
pub record IsStopping (e : Executor) : Type 0 where
  pub stopped : e.running ≡ false
  pub awake : all_awake e.workers ≡ true

awake-unlocked : (ws : List Worker) → all_awake ws ≡ true → is_locked ws ≡ false
unfolding all_awake is_locked
awake-unlocked [] h = refl
awake-unlocked (w ∷ ws) h = ground (arith, awake-unlocked ws)

all_awake-put_worker :
    (i : ℕ) (w : Worker) (ws : List Worker)
    → is_awake w ≡ true
    → all_awake ws ≡ true
    → all_awake (put_worker i w ws) ≡ true
unfolding all_awake put_worker
all_awake-put_worker i w [] k h = refl
all_awake-put_worker zero w (v ∷ ws) k h = ground arith
all_awake-put_worker (suc i) w (v ∷ ws) k h = ground (arith, all_awake-put_worker i w ws k)

steps_left-put_worker :
    (i : ℕ) (w : Worker) (ws : List Worker)
    → is_exited (worker_at i ws) ≡ false
    → steps_left (put_worker i w ws) + steps_of (worker_at i ws) ≡ steps_left ws + steps_of w
unfolding steps_left put_worker worker_at
steps_left-put_worker i w [] h = ground arith
steps_left-put_worker zero w (v ∷ ws) h = omega arith
steps_left-put_worker (suc i) w (v ∷ ws) h = ground (arith, steps_left-put_worker i w ws)

worker_at-awake :
    (i : ℕ) (ws : List Worker) → all_awake ws ≡ true → is_awake (worker_at i ws) ≡ true
unfolding all_awake worker_at
worker_at-awake i [] h = refl
worker_at-awake zero (w ∷ ws) h = ground arith
worker_at-awake (suc i) (w ∷ ws) h = ground (arith, worker_at-awake i ws)

take_task-falls :
    (i : ℕ) (ts : List ℕ) (e : Executor)
    → e.tasks ≡ ts
    → worker_at i e.workers ≡ entering
    → IsStopping e
    → IsStopping (take_task i ts e) × (work_left (take_task i ts e) < work_left e)
unfolding take_task
take_task-falls i [] e q at h =
    ground
      (arith, all_awake-put_worker i exited e.workers, steps_left-put_worker i exited e.workers)
take_task-falls i (t ∷ ts) e q at h = ground (
  arith,
  all_awake-put_worker i (working t) e.workers,
  steps_left-put_worker i (working t) e.workers,
)

worker_loop-falls :
    (w : Worker) (i : ℕ) (throws : Bool) (e : Executor)
    → worker_at i e.workers ≡ w
    → is_exited w ≡ false
    → IsStopping e
    → IsStopping (worker_loop w i throws e) × (work_left (worker_loop w i throws e) < work_left e)
unfolding worker_loop
worker_loop-falls entering i throws e at x h =
    rw (awake-unlocked e.workers h.awake) (take_task-falls i e.tasks e refl at h)
worker_loop-falls falling_asleep i throws e at x h =
    ground (arith, worker_at-awake i e.workers h.awake)
worker_loop-falls asleep i throws e at x h = ground (arith, worker_at-awake i e.workers h.awake)
worker_loop-falls (working t) i true e at x h =
    ground
      (arith, all_awake-put_worker i entering e.workers, steps_left-put_worker i entering e.workers)
worker_loop-falls (working t) i false e at x h =
    ground
      (arith, all_awake-put_worker i entering e.workers, steps_left-put_worker i entering e.workers)
worker_loop-falls exited i throws e at x h = ground arith

-- While `stop` waits and no worker sleeps, every action of a worker that has not returned leaves
-- less work, whether its task throws or not, and no worker falls asleep: so all of them return.
pub works-falls :
    (i : ℕ) (throws : Bool) (e : Executor)
    → IsStopping e
    → is_exited (worker_at i e.workers) ≡ false
    → IsStopping (act (works i throws) e) × (work_left (act (works i throws) e) < work_left e)
unfolding act
works-falls i throws e h x = worker_loop-falls (worker_at i e.workers) i throws e refl x h

-- A worker that has read the flag before `stop` clears it, and that `stop` notifies before it
-- sleeps.
abbrev pub missed_wakeup : List Action
missed_wakeup = works 0 false ∷ clears ∷ notifies ∷ works 0 false ∷ []

-- The state in which the worker sleeps and `stop` waits for it.
abbrev pub hung : Executor → Executor
hung e = record e { running = false; workers = asleep ∷ []; phase = joining }

missed_wakeup-hung :
    (e : Executor)
    → e.running ≡ true
    → e.tasks ≡ []
    → e.workers ≡ entering ∷ []
    → run missed_wakeup e ≡ hung e
unfolding run act clear_running notify_all worker_loop take_task is_locked worker_at put_worker
    wake_all
missed_wakeup-hung e r t w = ground arith

act-hung : (e : Executor) (a : Action) → e.owed ≡ 0 → act a (hung e) ≡ hung e
unfolding act start submit notify_one clear_running notify_all join_all worker_loop is_locked
    worker_at all_exited
act-hung e starts o = refl
act-hung e clears o = refl
act-hung e notifies o = refl
act-hung e joins o = refl
act-hung e (submits t) o = refl
act-hung e (notifies_one i) o = ground arith
act-hung e (works zero throws) o = refl
act-hung e (works (suc i) throws) o = refl

-- With one worker about to look for a task, none waiting and no notification owed, that
-- interleaving of it with `stop` ends in a state in which the worker sleeps and `stop` waits for it,
-- and which no further action changes: `stop` never returns.
pub stop_may_hang :
    (e : Executor) (a : Action)
    → e.running ≡ true
    → e.tasks ≡ []
    → e.owed ≡ 0
    → e.workers ≡ entering ∷ []
    → (run missed_wakeup e ≡ hung e) × (act a (hung e) ≡ hung e)
stop_may_hang e a r t o w = (missed_wakeup-hung e r t w, act-hung e a o)
