-- ===== src/Cache/Presence/Users.antt =====
-- The shared presence of all users: a user's tally is not touched by the others.
use realtime_chat.Common.{
  int64_max, to_string-injective, ℕ, zero, suc, ◌≤◌, ◌≡◌, refl, ◌≢◌, false, arith, lookup-insert,
  lookup-erase, lookup, Bytes, bytes_beq_iff, bytes_eq, nat_eq, ℤ, pos, negsuc,
}
use realtime_chat.Cache.Store.{Store, get, set, del, incr, sadd, srem, sismember, deadline}
use realtime_chat.Cache.Store.Counters.{lookup-incr_ne}
use realtime_chat.Cache.Store.View.{is_dead}
use realtime_chat.Cache.Store.Laws.{sismember-sadd, sismember-srem}
use realtime_chat.Cache.Presence.{
  online_set, id_text, conn_key, add_connection, remove_connection, is_online, leave_with,
  remaining,
}
use realtime_chat.Cache.Presence.Tally.{
  Holds, sadd-strings, is_dead-sadd, srem-strings, is_dead-srem, incr-sets, lookup-del,
}

id_text-injective : (v u : ℕ) → v ≤ int64_max → u ≤ int64_max → v ≢ u → id_text v ≢ id_text u
id_text-injective v u bv bu ne e = ne (to_string-injective v u bv bu e)

conn_key-injective : (v u : ℕ) → v ≤ int64_max → u ≤ int64_max → v ≢ u → conn_key v ≢ conn_key u
conn_key-injective v u bv bu ne e = ne (to_string-injective v u bv bu (ground (arith, e)))

-- Two stores that agree on what is kept of a user.
frame :
    (t v n : ℕ) (st after : Store)
    → lookup (conn_key v) after.strings ≡ lookup (conn_key v) st.strings
    → is_online t v after ≡ is_online t v st
    → is_dead t (lookup online_set after.sets) ≡ is_dead t (lookup online_set st.sets)
    → Holds t v n st
    → Holds t v n after
frame t v zero st after e o d (h, off, lasts) = (rw (e, h), rw (o, off), rw (d, lasts))
frame t v (suc n) st after e o d (h, on, lasts) = (rw (e, h), rw (o, on), rw (d, lasts))

lasting : (t v n : ℕ) (st : Store) → Holds t v n st → is_dead t (lookup online_set st.sets) ≡ false
lasting t v zero st (h, off, lasts) = lasts
lasting t v (suc n) st (h, on, lasts) = lasts

-- Who is online is read off the set of that name alone.
is_online_lem :
    (t v : ℕ) (st after : Store)
    → lookup online_set after.sets ≡ lookup online_set st.sets
    → is_online t v after ≡ is_online t v st
unfolding is_online sismember
is_online_lem t v st after e = rw (is_online, sismember, e)

is_online-sadd_ne :
    (t u v : ℕ) (st : Store)
    → id_text v ≢ id_text u
    → is_dead t (lookup online_set st.sets) ≡ false
    → is_online t v (sadd online_set (id_text u) st) ≡ is_online t v st
unfolding is_online
is_online-sadd_ne t u v st ne d = ground (
  arith,
  bytes_beq_iff online_set online_set,
  bytes_beq_iff (id_text v) (id_text u),
  sismember-sadd t online_set online_set (id_text u) (id_text v) st,
)

is_online-srem_ne :
    (t u v : ℕ) (st : Store)
    → id_text v ≢ id_text u
    → is_online t v (srem online_set (id_text u) st) ≡ is_online t v st
unfolding is_online
is_online-srem_ne t u v st ne = ground (
  arith,
  bytes_beq_iff online_set online_set,
  bytes_beq_iff (id_text v) (id_text u),
  sismember-srem t online_set online_set (id_text u) (id_text v) st,
)

pub add_connection-frame :
    (now t u v n : ℕ) (st : Store)
    → v ≤ int64_max
    → u ≤ int64_max
    → v ≢ u
    → Holds t v n st
    → Holds t v n (add_connection now u st).1
unfolding add_connection
add_connection-frame now t u v n st bv bu ne h =
    let counted = (incr now (conn_key u) (pos 0) st).1 in
    let d = lasting t v n st h in
    frame t v n st (sadd online_set (id_text u) counted)
      (rw (
        sadd-strings online_set (id_text u) counted,
        lookup-incr_ne now (conn_key u) (conn_key v) (pos 0) st (conn_key-injective v u bv bu ne),
      ))
      (rw (
        is_online-sadd_ne t u v counted (id_text-injective v u bv bu ne)
            (rw (incr-sets now u st, d)),
        is_online_lem t v st counted (rw (incr-sets now u st)),
      ))
      (rw (is_dead-sadd t online_set (id_text u) counted, incr-sets now u st)) h

get_ne :
    (now : ℕ) (key j : Bytes) (st : Store)
    → j ≢ key
    → (lookup j (get now key st).1.strings ≡ lookup j st.strings)
      × ((get now key st).1.sets ≡ st.sets)
unfolding get
get_ne now key j st ne = ground (arith, bytes_beq_iff j key, lookup-erase j key st.strings)

lookup-del_ne :
    (key j : Bytes) (st : Store) → j ≢ key → lookup j (del key st).1.strings ≡ lookup j st.strings
unfolding del
lookup-del_ne key j st ne = ground (arith, bytes_beq_iff j key, lookup-erase j key st.strings)

offline-frame :
    (t u v n : ℕ) (st : Store)
    → v ≤ int64_max
    → u ≤ int64_max
    → v ≢ u
    → Holds t v n st
    → Holds t v n (srem online_set (id_text u) (del (conn_key u) st).1)
offline-frame t u v n st bv bu ne h =
    let gone = (del (conn_key u) st).1 in
    let same = (lookup-del u st).1 in
    frame t v n st (srem online_set (id_text u) gone)
      (rw (
        srem-strings online_set (id_text u) gone,
        lookup-del_ne (conn_key u) (conn_key v) st (conn_key-injective v u bv bu ne),
      ))
      (rw (
        is_online-srem_ne t u v gone (id_text-injective v u bv bu ne),
        is_online_lem t v st gone same,
      ))
      (rw (is_dead-srem t online_set (id_text u) gone, same)) h

lookup-set_ne :
    (now : ℕ) (key j value : Bytes) (st : Store)
    → j ≢ key
    → (lookup j (set now key value (pos 0) st).strings ≡ lookup j st.strings)
      × ((set now key value (pos 0) st).sets ≡ st.sets)
unfolding set
lookup-set_ne now key j value st ne = (
  ground (
    arith,
    bytes_beq_iff j key,
    lookup-insert j key (record { value = value; expires_at = deadline now (pos 0) }) st.strings,
  ),
  refl,
)

-- What stays of another user, whether the user who leaves has connections left or not.
leave-frame :
    (now t u v n : ℕ) (left : ℤ) (st : Store)
    → v ≤ int64_max
    → u ≤ int64_max
    → v ≢ u
    → Holds t v n st
    → Holds t v n (leave_with now u left st).1
unfolding leave_with
leave-frame now t u v n (pos zero) st bv bu ne h = offline-frame t u v n st bv bu ne h
leave-frame now t u v n (negsuc k) st bv bu ne h = offline-frame t u v n st bv bu ne h
leave-frame now t u v n (pos (suc k)) st bv bu ne h =
    let after = set now (conn_key u) (id_text (suc k)) (pos 0) st in
    let same =
      lookup-set_ne now (conn_key u) (conn_key v) (id_text (suc k)) st
        (conn_key-injective v u bv bu ne) in
    frame t v n st after same.0 (is_online_lem t v st after (rw (same.1))) (rw (same.1)) h

pub remove_connection-frame :
    (now t u v n : ℕ) (st : Store)
    → v ≤ int64_max
    → u ≤ int64_max
    → v ≢ u
    → Holds t v n st
    → Holds t v n (remove_connection now u st).1
unfolding remove_connection
remove_connection-frame now t u v n st bv bu ne h =
    let got = (get now (conn_key u) st) in
    let same = get_ne now (conn_key u) (conn_key v) st (conn_key-injective v u bv bu ne) in
    leave-frame now t u v n (remaining got.0) got.1 bv bu ne
      (frame t v n st got.1 same.0 (is_online_lem t v st got.1 (rw (same.1))) (rw (same.1)) h)
