-- ===== src/Realtime/Multimap.antt =====
-- An std::unordered_map from ids to std::unordered_sets of ids, as the room and session registries
-- keep them: `put` is `m[k].insert(x)`, `drop` erases `x` from the set of `k` and the set itself
-- once it is empty.
use realtime_chat.Common.{
  ℕ, ◌≡◌, refl, ◌≢◌, inl, inr, Bool, true, false, not, ◌&&◌, ◌||◌, Option, none, some, List, [],
  ◌∷◌, arith, lookup-insert, lookup-erase, contains-add, contains-remove, Assoc, lookup, insert,
  erase, contains, add, remove, nat_beq, if◌then◌else◌, Option-cases, nat_eq, bytes_eq,
}

abbrev pub Multimap : Type 0
Multimap = Assoc ℕ (List ℕ)

abbrev or_empty : Option (List ℕ) → List ℕ
or_empty none = []
or_empty (some s) = s

unfoldable pub values : ℕ → Multimap → List ℕ
values k m = or_empty (lookup k m)

unfoldable pub put : ℕ → ℕ → Multimap → Multimap
unfolding values
put k x m = insert k (add x (values k m)) m

-- `m[k]` for its side effect: an absent key gets the empty set.
unfoldable pub touch_key : ℕ → Multimap → Multimap
unfolding values
touch_key k m = insert k (values k m) m

abbrev pub is_empty {ℓ} : {A : Type ℓ} → List A → Bool
is_empty [] = true
is_empty (x ∷ xs) = false

unfoldable pub drop : ℕ → ℕ → Multimap → Multimap
drop k x m = elim (lookup k m) [
  | none ↦ m
  | some s ↦ if is_empty (remove x s) then erase k m else insert k (remove x s) m
]

pub values-put :
    (j k y x : ℕ) (m : Multimap)
    → contains y (values j (put k x m)) ≡ (nat_beq j k && nat_beq y x || contains y (values j m))
unfolding values put
values-put j k y x m =
    ground (arith, lookup-insert j k (add x (values k m)) m, contains-add y x (values k m))

pub values-touch_key : (j k : ℕ) (m : Multimap) → values j (touch_key k m) ≡ values j m
unfolding values touch_key
values-touch_key j k m = ground (arith, lookup-insert j k (values k m) m)

contains-is_empty : (y : ℕ) (s : List ℕ) → is_empty s ≡ true → contains y s ≡ false
unfolding contains
contains-is_empty y [] h = refl
contains-is_empty y (x ∷ s) h = cc

pub values-drop :
    (j k y x : ℕ) (m : Multimap)
    → contains y (values j (drop k x m))
      ≡ (not (nat_beq j k && nat_beq y x) && contains y (values j m))
unfolding values drop contains
values-drop j k y x m = elim (Option-cases (lookup k m)) [
  | inl e ↦ ground arith
  | inr (s, e) ↦ ground (
    arith,
    lookup-insert j k (remove x s) m,
    lookup-erase j k m,
    contains-remove y x s,
    contains-is_empty y (remove x s),
  )
]

pub values-erase :
    (j k : ℕ) (m : Multimap) → values j (erase k m) ≡ (if nat_beq j k then [] else values j m)
unfolding values
values-erase j k m = ground (arith, lookup-erase j k m)

-- No key has the empty set.
abbrev pub HasNoEmpty : Multimap → Type 0
HasNoEmpty m = (k : ℕ) → lookup k m ≢ some []

add-nonempty : (x : ℕ) (s : List ℕ) → add x s ≢ []
unfolding add contains
add-nonempty x [] = ground arith
add-nonempty x (y ∷ s) = ground arith

pub put-HasNoEmpty : (k x : ℕ) (m : Multimap) → HasNoEmpty m → HasNoEmpty (put k x m)
unfolding put
put-HasNoEmpty k x m h j =
    ground (arith, h j, lookup-insert j k (add x (values k m)) m, add-nonempty x (values k m))

pub drop-HasNoEmpty : (k x : ℕ) (m : Multimap) → HasNoEmpty m → HasNoEmpty (drop k x m)
unfolding drop
drop-HasNoEmpty k x m h j = elim (Option-cases (lookup k m)) [
  | inl e ↦ ground (arith, h j)
  | inr (s, e) ↦ ground (arith, h j, lookup-insert j k (remove x s) m, lookup-erase j k m)
]

pub erase-HasNoEmpty : (k : ℕ) (m : Multimap) → HasNoEmpty m → HasNoEmpty (erase k m)
erase-HasNoEmpty k m h j = ground (arith, h j, lookup-erase j k m)
