-- ===== src/Common/Keyed.antt =====
-- Maps whose keys are pairwise different, and the loop that erases the entries failing a test.
use Prim.Native.Nat.{ℕ, suc, ◌+◌}
use mathlib.Core.Bool.{Bool}
use mathlib.Core.List.{List, [], ◌∷◌, ◌++◌}
use mathlib.Core.Option.{Option, none, some}
use mathlib.Core.Path.{◌≡◌, refl}
use native.Mathlib.Omega.{arith}
use realtime_chat.Common.Tests.{if◌then◌else◌}
use realtime_chat.Common.Keys.{Eq}
use realtime_chat.Common.Maps.{Assoc, lookup, insert, erase, lookup-insert, lookup-erase}

abbrev pub length {ℓ} : {A : Type ℓ} → List A → ℕ
length [] = 0
length (x ∷ xs) = suc (length xs)

pub length-append {ℓ} : {A : Type ℓ} (xs ys : List A) → length (xs ++ ys) ≡ length xs + length ys
length-append [] ys = omega arith
length-append (x ∷ xs) ys = omega (arith, length-append xs ys)

abbrev pub keep_if {ℓ} : {V : Type ℓ} → (V → Bool) → Option V → Option V
keep_if p none = none
keep_if p (some v) = if p v then some v else none

module _ {ℓ κ} {K : Type ℓ} {V : Type κ} ⦃e : Eq K⦄ where
  abbrev pub HasUniqueKeys : Assoc K V → Type κ
  HasUniqueKeys [] = Unit
  HasUniqueKeys ((k, v) ∷ m) = (lookup k m ≡ none) × HasUniqueKeys m

  pub insert-HasUniqueKeys :
      (k : K) (v : V) (m : Assoc K V) → HasUniqueKeys m → HasUniqueKeys (insert k v m)
  unfolding insert lookup
  insert-HasUniqueKeys k v [] h = (refl, tt)
  insert-HasUniqueKeys k v ((j, w) ∷ m) h =
      ground
        (arith, e.beq_iff k j, e.beq_iff j k, lookup-insert j k v m, insert-HasUniqueKeys k v m h.1)

  pub erase-HasUniqueKeys : (k : K) (m : Assoc K V) → HasUniqueKeys m → HasUniqueKeys (erase k m)
  unfolding erase
  erase-HasUniqueKeys k [] h = tt
  erase-HasUniqueKeys k ((j, w) ∷ m) h =
      ground (arith, lookup-erase j k m, erase-HasUniqueKeys k m h.1)

  unfoldable pub retain : (V → Bool) → Assoc K V → Assoc K V
  retain p [] = []
  retain p ((k, v) ∷ m) = if p v then (k, v) ∷ retain p m else retain p m

  -- How many entries fail the test.
  unfoldable pub rejected : (V → Bool) → Assoc K V → ℕ
  rejected p [] = 0
  rejected p ((k, v) ∷ m) = if p v then rejected p m else suc (rejected p m)

  pub lookup-retain-none :
      (p : V → Bool) (k : K) (m : Assoc K V) → lookup k m ≡ none → lookup k (retain p m) ≡ none
  unfolding retain lookup
  lookup-retain-none p k [] h = refl
  lookup-retain-none p k ((j, v) ∷ m) h = ground (arith, lookup-retain-none p k m)

  pub lookup-retain :
      (p : V → Bool) (k : K) (m : Assoc K V)
      → HasUniqueKeys m
      → lookup k (retain p m) ≡ keep_if p (lookup k m)
  unfolding retain lookup
  lookup-retain p k [] h = refl
  lookup-retain p k ((j, v) ∷ m) h =
      ground (arith, e.beq_iff k j, lookup-retain-none p j m, lookup-retain p k m h.1)

  pub retain-HasUniqueKeys :
      (p : V → Bool) (m : Assoc K V) → HasUniqueKeys m → HasUniqueKeys (retain p m)
  unfolding retain
  retain-HasUniqueKeys p [] h = tt
  retain-HasUniqueKeys p ((k, v) ∷ m) h =
      ground (arith, lookup-retain-none p k m, retain-HasUniqueKeys p m h.1)

  pub length-retain : (p : V → Bool) (m : Assoc K V) → length (retain p m) + rejected p m ≡ length m
  unfolding retain rejected
  length-retain p [] = omega arith
  length-retain p ((k, v) ∷ m) = ground (arith, length-retain p m)
