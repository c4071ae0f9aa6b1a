-- ===== src/Jobs/Executor.antt =====
-- The background executor: include/rtc/jobs/background_executor.hpp and
-- src/jobs/background_executor.cpp, as the actions of its threads. A section under the mutex is one
-- action, but for the wait: a worker that has found nothing to do still holds the mutex, and sleeps
-- from its next action on. `start` and `stop` are called by one owner. The trace context and the
-- request id that travel with a task are left out.
pub mod Order
pub mod Shutdown
use realtime_chat.Common.{
  ℕ, zero, suc, ◌+◌, ◌-◌, Bool, true, false, not, ◌&&◌, ◌||◌, List, [], ◌∷◌, ◌++◌, if◌then◌else◌,
  ◌==◌, bytes_eq, nat_eq,
}

pub data Worker : Type 0 where
  -- About to take the mutex; holding it before the wait; waiting; running a task; returned.
  entering falling_asleep asleep : Worker
  working : ℕ → Worker
  exited : Worker

-- How far `stop` has come after it cleared the flag.
pub data StopPhase : Type 0 where
  not_stopping notifying joining : StopPhase

pub record Executor : Type 0 where
  pub worker_count : ℕ
  pub running : Bool
  pub tasks : List ℕ
  pub workers : List Worker
  pub phase : StopPhase
  -- The calls of `notify_one` that submissions still owe.
  pub owed : ℕ
  pub completed : ℕ
  pub failed : ℕ
  -- The tasks enqueued and the tasks started so far, in order.
  pub accepted : List ℕ
  pub started : List ℕ

unfoldable pub new_executor : ℕ → Executor
new_executor count = record {
  worker_count = if count == 0 then 1 else count;
  running = false;
  tasks = [];
  workers = [];
  phase = not_stopping;
  owed = 0;
  completed = 0;
  failed = 0;
  accepted = [];
  started = [];
}

abbrev pub holds_mutex : Worker → Bool
holds_mutex falling_asleep = true
holds_mutex _ = false

unfoldable pub is_locked : List Worker → Bool
is_locked [] = false
is_locked (w ∷ ws) = holds_mutex w || is_locked ws

unfoldable pub worker_at : ℕ → List Worker → Worker
worker_at i [] = exited
worker_at zero (w ∷ ws) = w
worker_at (suc i) (w ∷ ws) = worker_at i ws

unfoldable pub put_worker : ℕ → Worker → List Worker → List Worker
put_worker i w [] = []
put_worker zero w (v ∷ ws) = w ∷ ws
put_worker (suc i) w (v ∷ ws) = v ∷ put_worker i w ws

abbrev pub woken : Worker → Worker
woken asleep = entering
woken w = w

unfoldable pub wake_all : List Worker → List Worker
wake_all [] = []
wake_all (w ∷ ws) = woken w ∷ wake_all ws

unfoldable pub spawn : ℕ → List Worker
spawn zero = []
spawn (suc n) = entering ∷ spawn n

abbrev pub is_exited : Worker → Bool
is_exited exited = true
is_exited _ = false

unfoldable pub all_exited : List Worker → Bool
all_exited [] = true
all_exited (w ∷ ws) = is_exited w && all_exited ws

abbrev pub is_none : List Worker → Bool
is_none [] = true
is_none (w ∷ ws) = false

-- Its owner has called `stop` after an earlier `start`, which has joined all workers of before.
unfoldable pub start : Executor → Executor
start e =
    if e.running || not (is_none e.workers)
    then e
    else record e { running = true; workers = spawn e.worker_count }

unfoldable pub submit : ℕ → Executor → Executor
submit task e = if is_locked e.workers || not e.running then e else record e {
  tasks = e.tasks ++ (task ∷ []);
  owed = e.owed + 1;
  accepted = e.accepted ++ (task ∷ []);
}

unfoldable pub notify_one : ℕ → Executor → Executor
notify_one i e = if e.owed == 0 then e else record e {
  owed = e.owed - 1;
  workers = put_worker i (woken (worker_at i e.workers)) e.workers;
}

unfoldable pub clear_running : Executor → Executor
clear_running e = if e.running then record e { running = false; phase = notifying } else e

unfoldable pub notify_all : StopPhase → Executor → Executor
notify_all notifying e = record e { workers = wake_all e.workers; phase = joining }
notify_all _ e = e

unfoldable pub join_all : StopPhase → Executor → Executor
join_all joining e =
    if all_exited e.workers then record e { workers = []; phase = not_stopping } else e
join_all _ e = e

-- A worker that has the mutex: to sleep, to return, or with the task at the front.
unfoldable pub take_task : ℕ → List ℕ → Executor → Executor
take_task i [] e = record e {
  workers = put_worker i (if e.running then falling_asleep else exited) e.workers;
}
take_task i (t ∷ ts) e = record e {
  tasks = ts;
  workers = put_worker i (working t) e.workers;
  started = e.started ++ (t ∷ []);
}

-- The next action of worker `i`, whose task throws or not.
unfoldable pub worker_loop : Worker → ℕ → Bool → Executor → Executor
unfolding take_task
worker_loop entering i throws e = if is_locked e.workers then e else take_task i e.tasks e
worker_loop falling_asleep i throws e = record e { workers = put_worker i asleep e.workers }
worker_loop asleep i throws e = e
worker_loop (working t) i true e = record e {
  failed = e.failed + 1;
  workers = put_worker i entering e.workers;
}
worker_loop (working t) i false e = record e {
  completed = e.completed + 1;
  workers = put_worker i entering e.workers;
}
worker_loop exited i throws e = e

pub data Action : Type 0 where
  starts clears notifies joins : Action
  submits notifies_one : ℕ → Action
  works : ℕ → Bool → Action

-- An action that has to wait, or has nothing to do, changes nothing.
unfoldable pub act : Action → Executor → Executor
unfolding start submit notify_one clear_running notify_all join_all worker_loop
act starts e = start e
act clears e = clear_running e
act notifies e = notify_all e.phase e
act joins e = join_all e.phase e
act (submits t) e = submit t e
act (notifies_one i) e = notify_one i e
act (works i throws) e = worker_loop (worker_at i e.workers) i throws e

-- The actions of an interleaving, in order.
unfoldable pub run : List Action → Executor → Executor
run [] e = e
run (a ∷ as') e = run as' (act a e)
