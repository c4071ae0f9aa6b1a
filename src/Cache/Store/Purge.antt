-- ===== src/Cache/Store/Purge.antt =====
-- The clean-up job.
use realtime_chat.Common.{
  length, keep_if, insert-HasUniqueKeys, erase-HasUniqueKeys, lookup-retain, retain-HasUniqueKeys,
  length-retain, ℕ, ◌+◌, ◌≤◌, ◌≡◌, refl, not, Option, none, some, [], arith, lookup, insert, erase,
  Bytes, bytes_eq, nat_eq, ℤ,
}
use realtime_chat.Cache.Store.{
  StringEntry, SetEntry, Store, set, get, del, exists, expire, incr, sadd, srem, purge_expired,
  fresh_string, fresh_set, is_expired,
}
use realtime_chat.Cache.Store.View.{
  IsWellFormed, value_at, live_string, live_members, members_at, is_expired_mono,
}

live_string-keep :
    (now later : ℕ) (o : Option StringEntry)
    → now ≤ later
    → live_string later (keep_if (fresh_string now) o) ≡ live_string later o
live_string-keep now later none h = refl
live_string-keep now later (some entry) h =
    ground (arith, is_expired_mono now later entry.expires_at h)

live_members-keep :
    (now later : ℕ) (o : Option SetEntry)
    → now ≤ later
    → live_members later (keep_if (fresh_set now) o) ≡ live_members later o
live_members-keep now later none h = refl
live_members-keep now later (some entry) h =
    ground (arith, is_expired_mono now later entry.expires_at h)

-- In a store that holds no key twice, purging removes exactly the strings and the sets whose deadline
-- has passed: the entry at a key is gone if it is expired, and is as it was otherwise. From then on
-- no key stands for another value and no set has other members than it would have had. The result is
-- the number of entries removed, and no key is there twice afterwards.
pub purge-view :
    (now later : ℕ) (key : Bytes) (st : Store)
    → now ≤ later
    → IsWellFormed st
    → (lookup key (purge_expired now st).1.strings
        ≡ keep_if (λ entry. not (is_expired now entry.expires_at)) (lookup key st.strings))
      × (lookup key (purge_expired now st).1.sets
          ≡ keep_if (λ entry. not (is_expired now entry.expires_at)) (lookup key st.sets))
      × (value_at later key (purge_expired now st).1 ≡ value_at later key st)
      × (members_at later key (purge_expired now st).1 ≡ members_at later key st)
      × (length (purge_expired now st).1.strings
            + length (purge_expired now st).1.sets
            + (purge_expired now st).0
          ≡ length st.strings + length st.sets)
      × IsWellFormed (purge_expired now st).1
unfolding purge_expired
purge-view now later key st h w = (
  lookup-retain (fresh_string now) key st.strings w.strings_keyed,
  lookup-retain (fresh_set now) key st.sets w.sets_keyed,
  rw (lookup-retain (fresh_string now) key st.strings w.strings_keyed)
      (live_string-keep now later (lookup key st.strings) h),
  rw (lookup-retain (fresh_set now) key st.sets w.sets_keyed)
      (live_members-keep now later (lookup key st.sets) h),
  omega (arith, length-retain (fresh_string now) st.strings, length-retain (fresh_set now) st.sets),
  record {
    strings_keyed = retain-HasUniqueKeys (fresh_string now) st.strings w.strings_keyed;
    sets_keyed = retain-HasUniqueKeys (fresh_set now) st.sets w.sets_keyed;
  },
)

-- The methods that write, as the steps of a history.
pub data Call : Type 0 where
  sets_value : Bytes → Bytes → ℤ → Call
  gets_value deletes checks : Bytes → Call
  expires increments : Bytes → ℤ → Call
  adds_member removes_member : Bytes → Bytes → Call
  purges : Call

pub step : ℕ → Call → Store → Store
step now (sets_value key value ttl) st = set now key value ttl st
step now (gets_value key) st = (get now key st).1
step now (deletes key) st = (del key st).1
step now (checks key) st = (exists now key st).1
step now (expires key ttl) st = expire now key ttl st
step now (increments key ttl) st = (incr now key ttl st).1
step now (adds_member key member) st = sadd key member st
step now (removes_member key member) st = srem key member st
step now purges st = (purge_expired now st).1

with_string :
    (key : Bytes) (entry : StringEntry) (st : Store)
    → IsWellFormed st
    → IsWellFormed (record st { strings = insert key entry st.strings })
with_string key entry st w = record {
  strings_keyed = insert-HasUniqueKeys key entry st.strings w.strings_keyed;
  sets_keyed = w.sets_keyed;
}

with_set :
    (key : Bytes) (entry : SetEntry) (st : Store)
    → IsWellFormed st
    → IsWellFormed (record st { sets = insert key entry st.sets })
with_set key entry st w = record {
  strings_keyed = w.strings_keyed;
  sets_keyed = insert-HasUniqueKeys key entry st.sets w.sets_keyed;
}

without_string :
    (key : Bytes) (st : Store)
    → IsWellFormed st
    → IsWellFormed (record st { strings = erase key st.strings })
without_string key st w = record {
  strings_keyed = erase-HasUniqueKeys key st.strings w.strings_keyed;
  sets_keyed = w.sets_keyed;
}

-- Every method keeps the keys of the two maps different.
pub step-IsWellFormed :
    (now : ℕ) (c : Call) (st : Store) → IsWellFormed st → IsWellFormed (step now c st)
unfolding step set get del exists expire incr sadd srem
step-IsWellFormed now (sets_value key value ttl) st w = with_string key _ st w
step-IsWellFormed now (gets_value key) st w = grind (arith, without_string)
step-IsWellFormed now (deletes key) st w = record {
  strings_keyed = erase-HasUniqueKeys key st.strings w.strings_keyed;
  sets_keyed = erase-HasUniqueKeys key st.sets w.sets_keyed;
}
step-IsWellFormed now (checks key) st w = grind (arith, without_string)
step-IsWellFormed now (expires key ttl) st w = grind (arith, with_string, with_set)
step-IsWellFormed now (increments key ttl) st w = grind (arith, with_string)
step-IsWellFormed now (adds_member key member) st w = grind (arith, with_set)
step-IsWellFormed now (removes_member key member) st w = grind (arith, with_set)
step-IsWellFormed now purges st w = (purge-view now now [] st (omega arith) w).5
