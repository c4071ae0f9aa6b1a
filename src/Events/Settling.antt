-- ===== src/Events/Settling.antt =====
-- What the subscribers have been handed when the bus has settled.
use realtime_chat.Common.{
  ℕ, zero, suc, ◌+◌, ◌≡◌, refl, ap, ◌∙◌, inl, inr, Bool, true, not, ◌&&◌, ◌||◌, List, [], ◌∷◌, ◌++◌,
  arith, contains, nat_beq, if◌then◌else◌, nat_beq_iff, Bool-cases, ◌==◌, bytes_eq, nat_eq,
}
use realtime_chat.Events.{
  EventDispatcher, new_dispatcher, subscribe_all, offer, offer_each, dispatch,
}
use realtime_chat.Events.Delivery.{
  Distinct, subscribe_all-Distinct, contains-subscribe_all, handled-subscribe_all, contains-nil,
}
use realtime_chat.Events.Bus.{
  Dispatching, EventBus, begin, take_task, BusStep, publishes, works, takes, stops, publish, turn,
  work, step, run,
}

-- How often a subscriber was handed an event.
abbrev pub times : ℕ → ℕ → List (ℕ × ℕ) → ℕ
times s e [] = 0
times s e ((t, x) ∷ out) = (if t == s && x == e then 1 else 0) + times s e out

-- How often a number stands in a list.
abbrev pub occurs : ℕ → List ℕ → ℕ
occurs s [] = 0
occurs s (t ∷ ts) = (if t == s then 1 else 0) + occurs s ts

-- Whether an event that is published is dispatched: at once, or by the executor.
abbrev pub is_taken : EventBus → Bool
is_taken b = not b.has_executor || b.accepting

times-append : (s e : ℕ) (a b : List (ℕ × ℕ)) → times s e (a ++ b) ≡ times s e a + times s e b
times-append s e [] b = omega arith
times-append s e ((t, x) ∷ a) b = ground (arith, times-append s e a b)

occurs-Distinct :
    (s : ℕ) (xs : List ℕ) → Distinct xs → occurs s xs ≡ (if contains s xs then 1 else 0)
unfolding contains
occurs-Distinct s [] d = refl
occurs-Distinct s (x ∷ xs) d = elim (Bool-cases (nat_beq x s)) [
  | inl e ↦
      ground
        (arith, occurs-Distinct s xs d.1, nat_beq_iff x s, nat_beq_iff s x, ap (λ k. contains k xs))
  | inr e ↦ ground (arith, occurs-Distinct s xs d.1, nat_beq_iff x s, nat_beq_iff s x)
]

module _ (interested_in throws : ℕ → ℕ → Bool) where
  -- How often a subscriber will be handed an event when another is offered to the given ones.
  abbrev due : ℕ → ℕ → ℕ → List ℕ → ℕ
  due s e event ss = if event == e && interested_in s e then occurs s ss else 0

  abbrev outstanding : ℕ → ℕ → List Dispatching → ℕ
  outstanding s e [] = 0
  outstanding s e (w ∷ ws) = due s e w.event w.remaining + outstanding s e ws

  abbrev queued : ℕ → ℕ → List ℕ → List ℕ → ℕ
  queued s e ss [] = 0
  queued s e ss (t ∷ ts) = due s e t ss + queued s e ss ts

  queued-append :
      (s e : ℕ) (ss a b : List ℕ) → queued s e ss (a ++ b) ≡ queued s e ss a + queued s e ss b
  queued-append s e ss [] b = omega arith
  queued-append s e ss (t ∷ a) b = ground (arith, queued-append s e ss a b)

  times-offer :
      (s e event t : ℕ) (d : EventDispatcher)
      → times s e (offer interested_in throws event t d).handled
        ≡ times s e d.handled + due s e event (t ∷ [])
  unfolding offer
  times-offer s e event t d = elim (Bool-cases (nat_beq t s)) [
    | inl same ↦ ground (
      arith,
      times-append s e d.handled ((t, event) ∷ []),
      nat_beq_iff t s,
      nat_beq_iff event e,
      ap (λ k. interested_in k event),
      ap (interested_in s),
    )
    | inr other ↦ ground (arith, times-append s e d.handled ((t, event) ∷ []))
  ]

  subscribers-offer :
      (event t : ℕ) (d : EventDispatcher)
      → (offer interested_in throws event t d).subscribers ≡ d.subscribers
  unfolding offer
  subscribers-offer event t d = ground arith

  times-offer_each :
      (s e event : ℕ) (ss : List ℕ) (d : EventDispatcher)
      → (times s e (offer_each interested_in throws event ss d).handled
          ≡ times s e d.handled + due s e event ss)
        × ((offer_each interested_in throws event ss d).subscribers ≡ d.subscribers)
  unfolding offer_each
  times-offer_each s e event [] d = (ground arith, refl)
  times-offer_each s e event (t ∷ ss) d =
      let rest = times-offer_each s e event ss (offer interested_in throws event t d) in
      (ground (arith, rest.0, times-offer s e event t d), rest.1 ∙ subscribers-offer event t d)

  -- What has been handed and what is to come.
  abbrev total : ℕ → ℕ → EventBus → ℕ
  total s e b =
      times s e b.dispatcher.handled
      + (outstanding s e b.dispatching + queued s e b.dispatcher.subscribers b.tasks)

  turn-first :
      (s e event : ℕ) (remaining : List ℕ) (ws : List Dispatching) (d : EventDispatcher)
      → let w : Dispatching = record { event = event; remaining = remaining } in
        (times s e (turn interested_in throws 0 (w ∷ ws) d).1.handled
            + outstanding s e (turn interested_in throws 0 (w ∷ ws) d).0
          ≡ times s e d.handled + outstanding s e (w ∷ ws))
        × ((turn interested_in throws 0 (w ∷ ws) d).1.subscribers ≡ d.subscribers)
  unfolding turn
  turn-first s e event [] ws d = (ground arith, refl)
  turn-first s e event (t ∷ ss) ws d =
      (ground (arith, times-offer s e event t d), subscribers-offer event t d)

  turn-total :
      (s e i : ℕ) (ws : List Dispatching) (d : EventDispatcher)
      → (times s e (turn interested_in throws i ws d).1.handled
            + outstanding s e (turn interested_in throws i ws d).0
          ≡ times s e d.handled + outstanding s e ws)
        × ((turn interested_in throws i ws d).1.subscribers ≡ d.subscribers)
  unfolding turn
  turn-total s e i [] d = (refl, refl)
  turn-total s e zero (w ∷ ws) d = turn-first s e w.event w.remaining ws d
  turn-total s e (suc i) (w ∷ ws) d =
      let rest = turn-total s e i ws d in (ground (arith, rest.0), rest.1)

  -- The events of a history that are taken to be dispatched.
  abbrev taken_in_step : BusStep → EventBus → List ℕ
  taken_in_step (publishes event) b = if is_taken b then event ∷ [] else []
  taken_in_step _ b = []

  pub taken : List BusStep → EventBus → List ℕ
  taken [] b = []
  taken (x ∷ xs) b = taken_in_step x b ++ taken xs (step interested_in throws x b)

  begin-total :
      (s e : ℕ) (ts : List ℕ) (b : EventBus)
      → b.tasks ≡ ts
      → (total s e (begin ts b) ≡ total s e b)
        × ((begin ts b).dispatcher.subscribers ≡ b.dispatcher.subscribers)
  begin-total s e [] b h = (refl, refl)
  begin-total s e (t ∷ ts) b h = (rw h (omega arith), refl)

  publish-total :
      (s e event : ℕ) (b : EventBus)
      → (total s e (publish interested_in throws event b)
          ≡ total s e b
            + queued s e b.dispatcher.subscribers (if is_taken b then event ∷ [] else []))
        × ((publish interested_in throws event b).dispatcher.subscribers ≡ b.dispatcher.subscribers)
  unfolding publish dispatch
  publish-total s e event b =
      let subs = b.dispatcher.subscribers in
      let counted = record b.dispatcher { dispatched = b.dispatcher.dispatched + 1 } in
      let direct = times-offer_each s e event subs counted in
      elim (Bool-cases b.has_executor) [
        | inr none_there ↦ (
          ground (arith, direct.0, direct.1, ap (λ ss. queued s e ss b.tasks) direct.1),
          ground (arith, direct.1),
        )
        | inl there ↦ (ground (arith, queued-append s e subs b.tasks (event ∷ [])), ground arith)
      ]

  step-total :
      (s e : ℕ) (x : BusStep) (b : EventBus)
      → (total s e (step interested_in throws x b)
          ≡ total s e b + queued s e b.dispatcher.subscribers (taken_in_step x b))
        × ((step interested_in throws x b).dispatcher.subscribers ≡ b.dispatcher.subscribers)
  unfolding step take_task work
  step-total s e (publishes event) b = publish-total s e event b
  step-total s e (works i) b =
      let turned = turn-total s e i b.dispatching b.dispatcher in
      (ground (arith, turned.0, ap (λ ss. queued s e ss b.tasks) turned.1), turned.1)
  step-total s e takes b =
      let begun = begin-total s e b.tasks b refl in (ground (arith, begun.0), begun.1)
  step-total s e stops b = (ground arith, refl)

  run-total :
      (s e : ℕ) (xs : List BusStep) (b : EventBus)
      → (total s e (run interested_in throws xs b)
          ≡ total s e b + queued s e b.dispatcher.subscribers (taken xs b))
        × ((run interested_in throws xs b).dispatcher.subscribers ≡ b.dispatcher.subscribers)
  unfolding run taken
  run-total s e [] b = (ground arith, refl)
  run-total s e (x ∷ xs) b =
      let b' = step interested_in throws x b in
      let first = step-total s e x b in
      let rest = run-total s e xs b' in
      (
        ground (
          arith,
          first.0,
          rest.0,
          ap (λ ss. queued s e ss (taken xs b')) first.1,
          queued-append s e b.dispatcher.subscribers (taken_in_step x b) (taken xs b'),
        ),
        rest.1 ∙ first.1,
      )

  queued-occurs :
      (s e : ℕ) (ss ts : List ℕ)
      → Distinct ss
      → queued s e ss ts ≡ (if contains s ss && interested_in s e then occurs e ts else 0)
  queued-occurs s e ss [] d = ground arith
  queued-occurs s e ss (t ∷ ts) d =
      ground (arith, queued-occurs s e ss ts d, occurs-Distinct s ss d)

-- A bus on which subscribers were registered and nothing was published.
abbrev pub fresh_bus : Bool → List ℕ → EventBus
fresh_bus has_executor ss = record {
  dispatcher = subscribe_all ss new_dispatcher;
  has_executor = has_executor;
  accepting = true;
  tasks = [];
  dispatching = [];
  published = 0;
}

-- With an executor or without, however those who publish, the workers and the stopping of the
-- executor interleave, and whoever throws: when no task is queued and no worker is dispatching, every
-- registered subscriber has been handed every event that it wants exactly as often as the event was
-- taken, that is published while the executor ran or on a bus without one; and it has been handed
-- nothing else, nor has anyone else.
pub settled-handed :
    (interested_in throws : ℕ → ℕ → Bool) (has_executor : Bool) (ss : List ℕ) (xs : List BusStep)
    (s e : ℕ)
    → (run interested_in throws xs (fresh_bus has_executor ss)).tasks ≡ []
    → (run interested_in throws xs (fresh_bus has_executor ss)).dispatching ≡ []
    → times s e (run interested_in throws xs (fresh_bus has_executor ss)).dispatcher.handled ≡ (
        if contains s ss && interested_in s e
        then occurs e (taken interested_in throws xs (fresh_bus has_executor ss))
        else 0)
settled-handed interested_in throws has_executor ss xs s e idle done =
    let b = fresh_bus has_executor ss in
    let d = subscribe_all ss new_dispatcher in
    let q = run interested_in throws xs b in
    let conserved = (run-total interested_in throws s e xs b).0 in
    let now_total : total interested_in throws s e q ≡ times s e q.dispatcher.handled =
      rw (idle, done) (omega arith) in
    let no_total : total interested_in throws s e b ≡ 0 =
      rw (handled-subscribe_all ss new_dispatcher) refl in
    ground (
      arith,
      conserved,
      now_total,
      no_total,
      queued-occurs interested_in throws s e d.subscribers (taken interested_in throws xs b)
          (subscribe_all-Distinct ss new_dispatcher tt),
      contains-subscribe_all s ss new_dispatcher,
      contains-nil s,
    )
