-- ===== src/Tests/Jobs.antt =====
-- Witnesses for the executor and the pool of connections.
use realtime_chat.Common.{length, ◌+◌, ◌<◌, ◌≡◌, refl, true, false, List, [], ◌∷◌, ◌++◌}
use realtime_chat.Jobs.Executor.{
  entering, working, not_stopping, joining, Executor, new_executor, is_locked, worker_at,
  put_worker, wake_all, spawn, all_exited, start, submit, notify_one, clear_running, notify_all,
  join_all, take_task, worker_loop, Action, starts, clears, notifies, joins, submits, works, act,
  run,
}
use realtime_chat.Jobs.Executor.Order.{run-in_order, all_exited-drained}
use realtime_chat.Jobs.Executor.Shutdown.{
  all_awake, work_left, IsStopping, works-falls, missed_wakeup, hung, stop_may_hang,
}

-- One worker runs task 7, is told to stop, and returns.
abbrev one_task : List Action
one_task =
    starts ∷ submits 7 ∷ works 0 false ∷ clears ∷ notifies ∷ works 0 false ∷ works 0 false ∷ []

one_task-completed : (run one_task (new_executor 1)).completed ≡ 1
unfolding run act new_executor start spawn submit clear_running notify_all worker_loop worker_at
    put_worker take_task is_locked wake_all
one_task-completed = refl

abbrev idle_executor : Executor
idle_executor = record {
  worker_count = 1;
  running = true;
  tasks = [];
  workers = entering ∷ [];
  phase = not_stopping;
  owed = 0;
  completed = 0;
  failed = 0;
  accepted = [];
  started = [];
}

abbrev stopping_executor : Executor
stopping_executor = record {
  worker_count = 2;
  running = false;
  tasks = 5 ∷ [];
  workers = entering ∷ working 4 ∷ [];
  phase = joining;
  owed = 0;
  completed = 0;
  failed = 0;
  accepted = 4 ∷ 5 ∷ [];
  started = 4 ∷ [];
}

stopping_executor-IsStopping : IsStopping stopping_executor
unfolding all_awake
stopping_executor-IsStopping = record { stopped = refl; awake = refl }

run-in_order_example :
    (run one_task (new_executor 1)).accepted
    ≡ (run one_task (new_executor 1)).started ++ (run one_task (new_executor 1)).tasks
run-in_order_example = run-in_order 1 one_task

all_exited-drained_example :
    ((run one_task (new_executor 1)).tasks ≡ [])
    × ((run one_task (new_executor 1)).completed + (run one_task (new_executor 1)).failed
        ≡ length (run one_task (new_executor 1)).accepted)
unfolding run act new_executor start spawn submit notify_one clear_running notify_all join_all
    worker_loop worker_at put_worker take_task is_locked wake_all all_exited
all_exited-drained_example = all_exited-drained 1 one_task refl refl

works-falls_example :
    IsStopping (act (works 0 true) stopping_executor)
    × (work_left (act (works 0 true) stopping_executor) < work_left stopping_executor)
unfolding worker_at
works-falls_example = works-falls 0 true stopping_executor stopping_executor-IsStopping refl

stop_may_hang_example :
    (run missed_wakeup idle_executor ≡ hung idle_executor)
    × (act joins (hung idle_executor) ≡ hung idle_executor)
stop_may_hang_example = stop_may_hang idle_executor joins refl refl refl refl
