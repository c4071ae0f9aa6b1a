-- ===== src/Events/Delivery.antt =====
-- What each subscriber is handed, whoever throws.
use realtime_chat.Common.{
  ℕ, ◌+◌, ◌≡◌, refl, sym, ap, ◌∙◌, inl, inr, Bool, false, ◌&&◌, ◌||◌, List, [], ◌∷◌, ◌++◌,
  append_assoc, append-nil, arith, contains, nat_beq, if◌then◌else◌, nat_beq_iff, Bool-cases, ◌==◌,
  bytes_eq, nat_eq,
}
use realtime_chat.Events.{
  EventDispatcher, new_dispatcher, subscribe, subscribe_all, offer, offer_each, dispatch,
  publish_all,
}

-- The events that a subscriber was handed, in order.
abbrev pub handed : ℕ → List (ℕ × ℕ) → List ℕ
handed s [] = []
handed s ((t, e) ∷ out) = if t == s then e ∷ handed s out else handed s out

abbrev pub keep : (ℕ → Bool) → List ℕ → List ℕ
keep p [] = []
keep p (e ∷ es) = if p e then e ∷ keep p es else keep p es

handed-append : (s : ℕ) (a b : List (ℕ × ℕ)) → handed s (a ++ b) ≡ handed s a ++ handed s b
handed-append s [] b = refl
handed-append s ((t, e) ∷ a) b = ground (arith, handed-append s a b)

-- No number stands in a list twice.
abbrev pub Distinct : List ℕ → Type 0
Distinct [] = Unit
Distinct (x ∷ xs) = (contains x xs ≡ false) × Distinct xs

contains-push : (s t : ℕ) (xs : List ℕ) → contains s (xs ++ (t ∷ [])) ≡ (contains s xs || s == t)
unfolding contains
contains-push s t [] = ground arith
contains-push s t (x ∷ xs) = ground (arith, contains-push s t xs)

Distinct-push :
    (t : ℕ) (xs : List ℕ) → contains t xs ≡ false → Distinct xs → Distinct (xs ++ (t ∷ []))
unfolding contains
Distinct-push t [] n d = (refl, tt)
Distinct-push t (x ∷ xs) n d = ground (arith, contains-push x t xs, Distinct-push t xs)

pub subscribe_all-Distinct :
    (ss : List ℕ) (d : EventDispatcher)
    → Distinct d.subscribers
    → Distinct (subscribe_all ss d).subscribers
unfolding subscribe_all
subscribe_all-Distinct [] d h = h
subscribe_all-Distinct (s ∷ ss) d h =
    subscribe_all-Distinct ss (subscribe s d) (elim (Bool-cases (contains s d.subscribers)) [
      | inl e ↦ simp (e, subscribe) h
      | inr e ↦ simp (e, subscribe) (Distinct-push s d.subscribers e h)
    ])

pub contains-subscribe_all :
    (s : ℕ) (ss : List ℕ) (d : EventDispatcher)
    → contains s (subscribe_all ss d).subscribers ≡ (contains s d.subscribers || contains s ss)
unfolding subscribe_all subscribe contains
contains-subscribe_all s [] d = ground arith
contains-subscribe_all s (t ∷ ss) d =
    ground (arith, contains-subscribe_all s ss (subscribe t d), contains-push s t d.subscribers)

pub handled-subscribe_all :
    (ss : List ℕ) (d : EventDispatcher) → (subscribe_all ss d).handled ≡ d.handled
unfolding subscribe_all subscribe
handled-subscribe_all [] d = refl
handled-subscribe_all (s ∷ ss) d = ground (arith, handled-subscribe_all ss (subscribe s d))

pub contains-nil : (s : ℕ) → contains s [] ≡ false
unfolding contains
contains-nil s = refl

module _ (interested_in throws : ℕ → ℕ → Bool) where
  subscribers-offer_each :
      (event : ℕ) (ss : List ℕ) (d : EventDispatcher)
      → (offer_each interested_in throws event ss d).subscribers ≡ d.subscribers
  unfolding offer_each offer
  subscribers-offer_each event [] d = refl
  subscribers-offer_each event (s ∷ ss) d =
      ground (arith, subscribers-offer_each event ss (offer interested_in throws event s d))

  abbrev once : Bool → ℕ → List ℕ
  once b event = if b then event ∷ [] else []

  handed-offer :
      (event s t : ℕ) (d : EventDispatcher)
      → handed s (offer interested_in throws event t d).handled
        ≡ handed s d.handled ++ once (t == s && interested_in t event) event
  unfolding offer
  handed-offer event s t d =
      ground (arith, handed-append s d.handled ((t, event) ∷ []), append-nil (handed s d.handled))

  once-contains :
      (event s t : ℕ) (ss : List ℕ)
      → contains t ss ≡ false
      → once (t == s && interested_in t event) event
          ++ once (contains s ss && interested_in s event) event
        ≡ once (contains s (t ∷ ss) && interested_in s event) event
  unfolding contains
  once-contains event s t ss u = elim (Bool-cases (nat_beq t s)) [
    | inl e ↦
        ground (arith, nat_beq_iff t s, ap (λ k. contains k ss), ap (λ k. interested_in k event))
    | inr e ↦ ground (arith, nat_beq_iff t s, nat_beq_iff s t)
  ]

  handed-offer_each :
      (event s : ℕ) (ss : List ℕ) (d : EventDispatcher)
      → Distinct ss
      → handed s (offer_each interested_in throws event ss d).handled
        ≡ handed s d.handled ++ once (contains s ss && interested_in s event) event
  unfolding offer_each contains
  handed-offer_each event s [] d u = sym (append-nil (handed s d.handled))
  handed-offer_each event s (t ∷ ss) d u =
      handed-offer_each event s ss (offer interested_in throws event t d) u.1
      ∙ ap (λ out. out ++ once (contains s ss && interested_in s event) event)
          (handed-offer event s t d)
      ∙ append_assoc (handed s d.handled) (once (t == s && interested_in t event) event)
          (once (contains s ss && interested_in s event) event)
      ∙ ap (λ out. handed s d.handled ++ out) (once-contains event s t ss u.0)

  once-keep :
      (wanted : Bool) (e s : ℕ) (es : List ℕ)
      → once (wanted && interested_in s e) e ++ (if wanted then keep (interested_in s) es else [])
        ≡ (if wanted then keep (interested_in s) (e ∷ es) else [])
  once-keep wanted e s es = ground arith

  handed-publish_all :
      (s : ℕ) (es : List ℕ) (d : EventDispatcher)
      → Distinct d.subscribers
      → handed s (publish_all interested_in throws es d).handled
        ≡ handed s d.handled ++ (if contains s d.subscribers then keep (interested_in s) es else [])
  unfolding publish_all dispatch
  handed-publish_all s [] d u = ground (arith, append-nil (handed s d.handled))
  handed-publish_all s (e ∷ es) d u =
      let d' = dispatch interested_in throws e d in
      let same =
        subscribers-offer_each e d.subscribers (record d { dispatched = d.dispatched + 1 }) in
      let rest = handed-publish_all s es d' (rw same u) in
      let first =
        handed-offer_each e s d.subscribers (record d { dispatched = d.dispatched + 1 }) u in
      let cs = contains s d.subscribers in
      rest
      ∙ ap (λ out. out ++ (if contains s d'.subscribers then keep (interested_in s) es else []))
          first
      ∙ append_assoc (handed s d.handled) (once (cs && interested_in s e) e)
          (if contains s d'.subscribers then keep (interested_in s) es else [])
      ∙ ap (λ out. handed s d.handled ++ out)
          (ap
              (λ b.
                once (cs && interested_in s e) e ++ (if b then keep (interested_in s) es else []))
              (ap (contains s) same)
            ∙ once-keep cs e s es)

-- On a bus without an executor: whoever throws, each of the registered subscribers is handed exactly the published events that
-- it wants, in order, each once, however often it was registered; and nobody else is handed any.
pub handed-registered :
    (interested_in throws : ℕ → ℕ → Bool) (ss es : List ℕ) (s : ℕ)
    → handed s (publish_all interested_in throws es (subscribe_all ss new_dispatcher)).handled
      ≡ (if contains s ss then keep (interested_in s) es else [])
handed-registered interested_in throws ss es s =
    let d = subscribe_all ss new_dispatcher in
    ground (
      arith,
      handed-publish_all interested_in throws s es d (subscribe_all-Distinct ss new_dispatcher tt),
      handled-subscribe_all ss new_dispatcher,
      contains-subscribe_all s ss new_dispatcher,
      contains-nil s,
    )
