-- ===== src/Cache/Presence/Tally.antt =====
-- The shared presence of one user as a tally.
use realtime_chat.Common.{
  int64_max, from_chars-to_string, to_string, from_chars, ℕ, zero, suc, ◌+◌, ◌-◌, ◌≤◌, ◌<◌, ◌≡◌,
  refl, inl, inr, true, false, none, some, [], ◌∷◌, arith, lookup-insert, lookup-erase, lookup, add,
  remove, leb, Option-cases, Bytes, bytes_beq_iff, ◌==◌, bytes_eq, nat_eq, ℤ, pos,
}
use realtime_chat.Cache.Store.{
  Store, get, set, del, incr, sadd, srem, sismember, deadline, is_expired,
}
use realtime_chat.Cache.Store.View.{value_at, is_dead}
use realtime_chat.Cache.Store.Counters.{IsCounting, incr_fresh, incr-IsCounting}
use realtime_chat.Cache.Store.Laws.{sismember-sadd, sismember-srem}
use realtime_chat.Cache.Presence.{
  online_set, id_text, conn_key, add_connection, remove_connection, is_online, is_one, went_offline,
  remaining, leave_with,
}

-- The store holds `n` connections of the user, and the set of users that are online lasts.
abbrev pub Holds : ℕ → ℕ → ℕ → Store → Type 0
Holds now user_id zero st =
    (value_at now (conn_key user_id) st ≡ none)
    × (is_online now user_id st ≡ false)
    × (is_dead now (lookup online_set st.sets) ≡ false)
Holds now user_id (suc n) st =
    IsCounting (conn_key user_id) (suc n) none st
    × (is_online now user_id st ≡ true)
    × (is_dead now (lookup online_set st.sets) ≡ false)

pub incr-sets :
    (now user_id : ℕ) (st : Store) → (incr now (conn_key user_id) (pos 0) st).1.sets ≡ st.sets
unfolding incr
incr-sets now user_id st = ground arith

pub sadd-strings : (key member : Bytes) (st : Store) → (sadd key member st).strings ≡ st.strings
unfolding sadd
sadd-strings key member st = ground arith

pub is_dead-sadd :
    (now : ℕ) (key member : Bytes) (st : Store)
    → is_dead now (lookup key (sadd key member st).sets) ≡ is_dead now (lookup key st.sets)
unfolding sadd is_expired
is_dead-sadd now key member st = elim (Option-cases (lookup key st.sets)) [
  | inl e ↦ ground (
    arith,
    bytes_beq_iff key key,
    lookup-insert key key (record { members = member ∷ []; expires_at = none }) st.sets,
  )
  | inr (entry, e) ↦ ground (
    arith,
    bytes_beq_iff key key,
    lookup-insert key key (record entry { members = add member entry.members }) st.sets,
  )
]

-- Entering the set of the users online, whatever the counter is.
enter :
    (now user_id : ℕ) (st : Store)
    → is_dead now (lookup online_set st.sets) ≡ false
    → (is_online now user_id (sadd online_set (id_text user_id) st) ≡ true)
      × (is_dead now (lookup online_set (sadd online_set (id_text user_id) st).sets) ≡ false)
unfolding is_online
enter now user_id st h = (
  ground (
    arith,
    bytes_beq_iff online_set online_set,
    bytes_beq_iff (id_text user_id) (id_text user_id),
    sismember-sadd now online_set online_set (id_text user_id) (id_text user_id) st,
  ),
  rw (is_dead-sadd now online_set (id_text user_id) st, h),
)

is_one-suc : (n : ℕ) → is_one (pos (suc n)) ≡ (n == 0)
is_one-suc zero = refl
is_one-suc (suc n) = ground arith

-- What `add_connection` says and leaves, when the counter has come to `suc n`.
join :
    (now user_id n : ℕ) (counted : ℤ × Store)
    → counted.0 ≡ pos (suc n)
    → IsCounting (conn_key user_id) (suc n) none counted.1
    → is_dead now (lookup online_set counted.1.sets) ≡ false
    → (is_one counted.0 ≡ (n == 0))
      × Holds now user_id (suc n) (sadd online_set (id_text user_id) counted.1)
join now user_id n counted e c d = (
  rw (e, is_one-suc n),
  (
    rw (sadd-strings online_set (id_text user_id) counted.1, c),
    (enter now user_id counted.1 d).0,
    (enter now user_id counted.1 d).1,
  ),
)

-- A connection more, as seen at any other time too.
pub add_connection-Holds :
    (now later user_id n : ℕ) (st : Store)
    → n < int64_max
    → Holds now user_id n st
    → Holds later user_id n st
    → ((add_connection now user_id st).0 ≡ (n == 0))
      × Holds later user_id (suc n) (add_connection now user_id st).1
unfolding add_connection deadline is_expired
add_connection-Holds now later user_id zero st b (h, _, _) (_, off, lasts) =
    let first = incr_fresh now (conn_key user_id) (pos 0) st h in
    join later user_id 0 (incr now (conn_key user_id) (pos 0) st) first.0 first.1
      (rw (incr-sets now user_id st, lasts))
add_connection-Holds now later user_id (suc n) st b (h, _, _) (_, on, lasts) =
    let next =
      incr-IsCounting now (conn_key user_id) (pos 0) (suc n) none st (omega arith) refl h in
    let e : suc n + 1 ≡ suc (suc n) = omega arith in
    join later user_id (suc n) (incr now (conn_key user_id) (pos 0) st) (rw (next.0, e))
      (rw (next.1, e)) (rw (incr-sets now user_id st, lasts))

pub is_dead-srem :
    (now : ℕ) (key member : Bytes) (st : Store)
    → is_dead now (lookup key (srem key member st).sets) ≡ is_dead now (lookup key st.sets)
unfolding srem is_expired
is_dead-srem now key member st = elim (Option-cases (lookup key st.sets)) [
  | inl e ↦ ground arith
  | inr (entry, e) ↦ ground (
    arith,
    bytes_beq_iff key key,
    lookup-insert key key (record entry { members = remove member entry.members }) st.sets,
  )
]

pub srem-strings : (key member : Bytes) (st : Store) → (srem key member st).strings ≡ st.strings
unfolding srem
srem-strings key member st = ground arith

-- The key of a counter is not the key of the set.
pub lookup-del :
    (user_id : ℕ) (st : Store)
    → (lookup (conn_key user_id) (del (conn_key user_id) st).1.strings ≡ none)
      × (lookup online_set (del (conn_key user_id) st).1.sets ≡ lookup online_set st.sets)
unfolding del
lookup-del user_id st = (
  ground (
    arith,
    bytes_beq_iff (conn_key user_id) (conn_key user_id),
    lookup-erase (conn_key user_id) (conn_key user_id) st.strings,
  ),
  lookup-erase online_set (conn_key user_id) st.sets,
)

-- Going offline, whatever the counter is.
leave :
    (now later user_id : ℕ) (st : Store)
    → is_dead later (lookup online_set st.sets) ≡ false
    → ((leave_with now user_id (pos zero) st).0 ≡ true)
      × Holds later user_id zero (leave_with now user_id (pos zero) st).1
unfolding went_offline is_online leave_with
leave now later user_id st d =
    let gone = (del (conn_key user_id) st).1 in
    (
      refl,
      (
        rw (srem-strings online_set (id_text user_id) gone, (lookup-del user_id st).0),
        ground (
          arith,
          bytes_beq_iff online_set online_set,
          bytes_beq_iff (id_text user_id) (id_text user_id),
          sismember-srem later online_set online_set (id_text user_id) (id_text user_id) gone,
        ),
        rw (is_dead-srem later online_set (id_text user_id) gone, (lookup-del user_id st).1, d),
      ),
    )

-- Staying online, with the counter set down.
stay :
    (now later user_id n : ℕ) (st : Store)
    → is_online later user_id st ≡ true
    → is_dead later (lookup online_set st.sets) ≡ false
    → ((leave_with now user_id (pos (suc n)) st).0 ≡ false)
      × Holds later user_id (suc n) (leave_with now user_id (pos (suc n)) st).1
unfolding set is_online sismember deadline leave_with
stay now later user_id n st on d = (
  refl,
  (
    ground (
      arith,
      bytes_beq_iff (conn_key user_id) (conn_key user_id),
      lookup-insert (conn_key user_id) (conn_key user_id)
          (record { value = id_text (suc n); expires_at = none }) st.strings,
    ),
    on,
    d,
  ),
)

get-IsCounting :
    (now : ℕ) (key : Bytes) (n : ℕ) (st : Store)
    → IsCounting key n none st
    → get now key st ≡ (some (to_string (pos n)), st)
unfolding get is_expired
get-IsCounting now key n st h = rw (h, get)

get-none :
    (now : ℕ) (key : Bytes) (st : Store)
    → value_at now key st ≡ none
    → ((get now key st).0 ≡ none) × ((get now key st).1.sets ≡ st.sets)
unfolding get
get-none now key st h = ground arith

remaining-suc : (n : ℕ) → n < int64_max → remaining (some (id_text (suc n))) ≡ pos n
remaining-suc n b =
    let e : from_chars (id_text (suc n)) ≡ some (pos (suc n)) =
      from_chars-to_string (suc n) (omega arith) in
    ground arith

-- A connection less; one that was not there goes offline again.
pub remove_connection-Holds :
    (now later user_id n : ℕ) (st : Store)
    → n ≤ int64_max
    → Holds now user_id n st
    → Holds later user_id n st
    → ((remove_connection now user_id st).0 ≡ leb n 1)
      × Holds later user_id (n - 1) (remove_connection now user_id st).1
unfolding remove_connection
remove_connection-Holds now later user_id zero st b (h, _, _) (_, off, lasts) =
    let got = get-none now (conn_key user_id) st h in
    rw (got.0) (leave now later user_id (get now (conn_key user_id) st).1 (rw (got.1, lasts)))
remove_connection-Holds now later user_id (suc zero) st b (h, _, _) (_, on, lasts) =
    rw (get-IsCounting now (conn_key user_id) 1 st h, remaining-suc 0 (omega arith))
      (leave now later user_id st lasts)
remove_connection-Holds now later user_id (suc (suc n)) st b (h, _, _) (_, on, lasts) =
    let more : leb (suc (suc n)) 1 ≡ false = ground arith in
    let less : suc (suc n) - 1 ≡ suc n = omega arith in
    rw
      (
        get-IsCounting now (conn_key user_id) (suc (suc n)) st h,
        remaining-suc (suc n) (omega arith),
        more,
        less,
      )
      (stay now later user_id n st on lasts)
