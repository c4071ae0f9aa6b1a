-- ===== src/Events.antt =====
-- Domain events: src/events/event_dispatcher.cpp and src/events/in_process_event_bus.cpp, the bus
-- without an executor (with one, the dispatch is a task of the background executor). A subscriber is
-- a number and an event the number of its type; which types a subscriber wants, and on which it
-- throws, are the subscribers'.
pub mod Delivery
pub mod Bus
pub mod Settling
use realtime_chat.Common.{
  ℕ, ◌+◌, Bool, not, List, [], ◌∷◌, ◌++◌, contains, if◌then◌else◌, bytes_eq, nat_eq,
}

pub record EventDispatcher : Type 0 where
  pub subscribers : List ℕ
  -- The calls of `handle`: the subscriber and the event, in order.
  pub handled : List (ℕ × ℕ)
  pub dispatched : ℕ
  pub failures : ℕ

abbrev pub new_dispatcher : EventDispatcher
new_dispatcher = record { subscribers = []; handled = []; dispatched = 0; failures = 0 }

unfoldable pub subscribe : ℕ → EventDispatcher → EventDispatcher
subscribe s d =
    if contains s d.subscribers then d else record d { subscribers = d.subscribers ++ (s ∷ []) }

unfoldable pub subscribe_all : List ℕ → EventDispatcher → EventDispatcher
unfolding subscribe
subscribe_all [] d = d
subscribe_all (s ∷ ss) d = subscribe_all ss (subscribe s d)

module _ (interested_in throws : ℕ → ℕ → Bool) where
  -- One turn of the loop: a subscriber that wants the event, and may throw.
  unfoldable pub offer : ℕ → ℕ → EventDispatcher → EventDispatcher
  offer event s d = if not (interested_in s event) then d else record d {
    handled = d.handled ++ ((s, event) ∷ []);
    failures = if throws s event then d.failures + 1 else d.failures;
  }

  unfoldable pub offer_each : ℕ → List ℕ → EventDispatcher → EventDispatcher
  unfolding offer
  offer_each event [] d = d
  offer_each event (s ∷ ss) d = offer_each event ss (offer event s d)

  unfoldable pub dispatch : ℕ → EventDispatcher → EventDispatcher
  unfolding offer_each
  dispatch event d = offer_each event d.subscribers (record d { dispatched = d.dispatched + 1 })

  -- Events that are published one after the other.
  unfoldable pub publish_all : List ℕ → EventDispatcher → EventDispatcher
  unfolding dispatch
  publish_all [] d = d
  publish_all (e ∷ es) d = publish_all es (dispatch e d)
