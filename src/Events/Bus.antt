-- ===== src/Events/Bus.antt =====
-- The bus of domain events: src/events/in_process_event_bus.cpp, over the dispatcher and, where it
-- has one, the background executor (src/jobs/background_executor.cpp), of which the queue and the
-- acceptance of tasks are kept. Each worker that dispatches an event is at some place of the list of
-- subscribers; the steps of the workers and of those who publish interleave. The counter of dropped
-- events is left out: it counts what memory runs out for.
use realtime_chat.Common.{ℕ, zero, suc, ◌+◌, Bool, false, not, List, [], ◌∷◌, ◌++◌, if◌then◌else◌}
use realtime_chat.Events.{EventDispatcher, offer, dispatch}

-- An event, and the subscribers that it has still to be offered to.
pub record Dispatching : Type 0 where
  pub event : ℕ
  pub remaining : List ℕ

pub record EventBus : Type 0 where
  pub dispatcher : EventDispatcher
  pub has_executor : Bool
  -- Whether the executor runs, its queue, and what its workers are at.
  pub accepting : Bool
  pub tasks : List ℕ
  pub dispatching : List Dispatching
  pub published : ℕ

abbrev pub begin : List ℕ → EventBus → EventBus
begin [] b = b
begin (event ∷ tasks) b = record b {
  tasks = tasks;
  dispatching = record { event = event; remaining = b.dispatcher.subscribers } ∷ b.dispatching;
  dispatcher = record b.dispatcher { dispatched = b.dispatcher.dispatched + 1 };
}

-- A free worker takes the oldest task and starts to dispatch it.
unfoldable pub take_task : EventBus → EventBus
take_task b = begin b.tasks b

pub data BusStep : Type 0 where
  publishes works : ℕ → BusStep
  takes stops : BusStep

module _ (interested_in throws : ℕ → ℕ → Bool) where
  -- An executor that does not run forgets the task.
  unfoldable pub publish : ℕ → EventBus → EventBus
  publish event bus =
      let b = record bus { published = bus.published + 1 } in
      if not b.has_executor
      then record b { dispatcher = dispatch interested_in throws event b.dispatcher }
      else if b.accepting
      then record b { tasks = b.tasks ++ (event ∷ []) }
      else b

  -- One turn of the loop of the worker at a place; at the end of the loop the worker is done.
  unfoldable pub turn : ℕ → List Dispatching → EventDispatcher → List Dispatching × EventDispatcher
  turn i [] d = ([], d)
  turn zero (w ∷ ws) d = elim w.remaining [
    | [] ↦ (ws, d)
    | s ∷ ss ↦ (record w { remaining = ss } ∷ ws, offer interested_in throws w.event s d)
  ]
  turn (suc i) (w ∷ ws) d = let (ws', d') = turn i ws d in (w ∷ ws', d')

  unfoldable pub work : ℕ → EventBus → EventBus
  unfolding turn
  work i b =
      let (ws, d) = turn i b.dispatching b.dispatcher in
      record b { dispatching = ws; dispatcher = d }

  unfoldable pub step : BusStep → EventBus → EventBus
  unfolding publish take_task work
  step (publishes event) b = publish event b
  step (works i) b = work i b
  step takes b = take_task b
  step stops b = record b { accepting = false }

  unfoldable pub run : List BusStep → EventBus → EventBus
  unfolding step
  run [] b = b
  run (x ∷ xs) b = run xs (step x b)
