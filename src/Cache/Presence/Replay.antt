-- ===== src/Cache/Presence/Replay.antt =====
-- The shared presence after any changes by any users, against the net counts of connections.
use realtime_chat.Common.{
  length, int64_max, ℕ, zero, suc, ◌+◌, ◌-◌, ◌≤◌, ◌<◌, ◌≡◌, refl, ◌≢◌, inl, inr, true, List, [],
  ◌∷◌, arith, lookup, ltb, if◌then◌else◌, Bool-cases, ◌==◌, bytes_eq, nat_eq,
}
use realtime_chat.Cache.Store.{Store, empty_store, sismember}
use realtime_chat.Cache.Presence.{add_connection, remove_connection, is_online}
use realtime_chat.Cache.Presence.Tally.{Holds, add_connection-Holds, remove_connection-Holds}
use realtime_chat.Cache.Presence.Users.{add_connection-frame, remove_connection-frame}

-- A connection of a user that opens or closes, with the time.
pub data Change : Type 0 where
  opened : ℕ → ℕ → Change
  closed : ℕ → ℕ → Change

abbrev pub apply : Change → Store → Store
apply (opened now u) st = (add_connection now u st).1
apply (closed now u) st = (remove_connection now u st).1

unfoldable pub apply_all : List Change → Store → Store
apply_all [] st = st
apply_all (c ∷ cs) st = apply_all cs (apply c st)

abbrev pub count : ℕ → Change → ℕ → ℕ
count v (opened now u) n = if v == u then suc n else n
count v (closed now u) n = if v == u then n - 1 else n

-- The connections of a user, from `n`; a closing without a connection counts for nothing.
unfoldable pub count_all : ℕ → List Change → ℕ → ℕ
count_all v [] n = n
count_all v (c ∷ cs) n = count_all v cs (count v c n)

abbrev pub user_of : Change → ℕ
user_of (opened now u) = u
user_of (closed now u) = u

unfoldable pub AreIds : List Change → Type 0
AreIds [] = Unit
AreIds (c ∷ cs) = (user_of c ≤ int64_max) × AreIds cs

count-bound : (v : ℕ) (c : Change) (n : ℕ) → count v c n ≤ suc n
count-bound v (opened now u) n = ground arith
count-bound v (closed now u) n = ground arith

apply-Holds :
    (v n : ℕ) (c : Change) (st : Store)
    → v ≤ int64_max
    → user_of c ≤ int64_max
    → n < int64_max
    → ((t : ℕ) → Holds t v n st)
    → (t : ℕ) → Holds t v (count v c n) (apply c st)
apply-Holds v n (opened now u) st bv bu b h t = elim (Bool-cases (v == u)) [
  | inl e ↦
      let same : u ≡ v = ground arith in
      rw (e, same) ((add_connection-Holds now t v n st b (h now) (h t)).1)
  | inr e ↦
      let other : v ≢ u = ground arith in
      rw e (add_connection-frame now t u v n st bv bu other (h t))
]
apply-Holds v n (closed now u) st bv bu b h t = elim (Bool-cases (v == u)) [
  | inl e ↦
      let same : u ≡ v = ground arith in
      rw (e, same) ((remove_connection-Holds now t v n st (omega arith) (h now) (h t)).1)
  | inr e ↦
      let other : v ≢ u = ground arith in
      rw e (remove_connection-frame now t u v n st bv bu other (h t))
]

apply_all-Holds :
    (v : ℕ) (cs : List Change) (n : ℕ) (st : Store)
    → v ≤ int64_max
    → AreIds cs
    → n + length cs ≤ int64_max
    → ((t : ℕ) → Holds t v n st)
    → (t : ℕ) → Holds t v (count_all v cs n) (apply_all cs st)
unfolding AreIds count_all apply_all
apply_all-Holds v [] n st bv ids b h = h
apply_all-Holds v (c ∷ cs) n st bv ids b h =
    apply_all-Holds v cs (count v c n) (apply c st) bv ids.1 (omega (arith, count-bound v c n))
      (apply-Holds v n c st bv ids.0 (omega arith) h)

told : (t v n : ℕ) (st : Store) → Holds t v n st → is_online t v st ≡ ltb 0 n
told t v zero st (h, off, lasts) = off
told t v (suc n) st (h, on, lasts) =
    let some_left : ltb 0 (suc n) ≡ true = ground arith in rw (on, some_left)

empty-Holds : (v t : ℕ) → Holds t v 0 empty_store
unfolding is_online sismember lookup
empty-Holds v t = (refl, refl, refl)

-- Whatever connections of whatever users have opened and closed since the store was empty, one
-- change after the other and whatever their times, a user is online at any time exactly when the
-- net count of their connections, in which a closing without a connection counts for nothing, is
-- more than zero. The ids and the number of changes fit in a std::int64_t.
pub online_iff_connected :
    (v : ℕ) (cs : List Change) (t : ℕ)
    → v ≤ int64_max
    → AreIds cs
    → length cs ≤ int64_max
    → is_online t v (apply_all cs empty_store) ≡ ltb 0 (count_all v cs 0)
online_iff_connected v cs t bv ids b =
    told t v (count_all v cs 0) (apply_all cs empty_store)
      (apply_all-Holds v cs 0 empty_store bv ids (omega arith) (empty-Holds v) t)
