-- ===== src/Cache/Store.antt =====
-- The process-local cache store: include/rtc/cache/in_memory_cache_store.hpp and
-- src/cache/in_memory_cache_store.cpp. Each method runs under the store's mutex, so it is one step;
-- the steady clock's reading is an argument `now`, in nanoseconds. `current += 1` past the largest
-- std::int64_t, which is undefined in the source, goes on counting here.
pub mod View
pub mod Laws
pub mod Counters
pub mod Purge
use realtime_chat.Common.{
  length, retain, rejected, to_string, from_chars, ℕ, zero, suc, ◌+◌, ◌*◌, Bool, true, false, not,
  ◌||◌, Option, none, some, List, [], ◌∷◌, Assoc, lookup, insert, erase, contains, add, remove, leb,
  if◌then◌else◌, nat_eq, Bytes, codes, bytes_eq, ℤ, ◌+ℤ◌, pos, negsuc,
}

abbrev pub ticks_per_second : ℕ
ticks_per_second = 1_000_000_000

pub record StringEntry : Type 0 where
  pub value : Bytes
  pub expires_at : Option ℕ

pub record SetEntry : Type 0 where
  pub members : List Bytes
  pub expires_at : Option ℕ

pub record Store : Type 0 where
  pub strings : Assoc Bytes StringEntry
  pub sets : Assoc Bytes SetEntry

abbrev pub empty_store : Store
empty_store = record { strings = []; sets = [] }

unfoldable pub is_expired : ℕ → Option ℕ → Bool
is_expired now none = false
is_expired now (some expiry) = leb expiry now

-- A time to live of zero or less means no expiry.
unfoldable pub deadline : ℕ → ℤ → Option ℕ
deadline now (pos zero) = none
deadline now (pos (suc n)) = some (now + suc n * ticks_per_second)
deadline now (negsuc n) = none

unfoldable pub set : ℕ → Bytes → Bytes → ℤ → Store → Store
set now key value ttl st = record st {
  strings = insert key (record { value = value; expires_at = deadline now ttl }) st.strings;
}

unfoldable pub get : ℕ → Bytes → Store → Option Bytes × Store
get now key st = elim (lookup key st.strings) [
  | none ↦ (none, st)
  | some entry ↦
      if is_expired now entry.expires_at
      then (none, record st { strings = erase key st.strings })
      else (some entry.value, st)
]

abbrev pub is_some {ℓ} : {A : Type ℓ} → Option A → Bool
is_some none = false
is_some (some _) = true

unfoldable pub del : Bytes → Store → Bool × Store
del key st = (
  is_some (lookup key st.strings) || is_some (lookup key st.sets),
  record st { strings = erase key st.strings; sets = erase key st.sets },
)

unfoldable pub exists : ℕ → Bytes → Store → Bool × Store
exists now key st = elim (lookup key st.strings) [
  | none ↦ (false, st)
  | some entry ↦
      if is_expired now entry.expires_at
      then (false, record st { strings = erase key st.strings })
      else (true, st)
]

expire_string : ℕ → Bytes → ℤ → Store → Store
expire_string now key ttl st = elim (lookup key st.strings) [
  | none ↦ st
  | some entry ↦ record st {
    strings = insert key (record entry { expires_at = deadline now ttl }) st.strings;
  }
]

expire_set : ℕ → Bytes → ℤ → Store → Store
expire_set now key ttl st = elim (lookup key st.sets) [
  | none ↦ st
  | some entry ↦ record st {
    sets = insert key (record entry { expires_at = deadline now ttl }) st.sets;
  }
]

unfoldable pub expire : ℕ → Bytes → ℤ → Store → Store
unfolding expire_string expire_set
expire now key ttl st = expire_set now key ttl (expire_string now key ttl st)

abbrev get_or_zero : Option ℤ → ℤ
get_or_zero none = pos 0
get_or_zero (some n) = n

-- The counter of an entry after one more increment.
bump : Bytes → ℤ
bump value = get_or_zero (from_chars value) +ℤ pos 1

unfoldable pub incr : ℕ → Bytes → ℤ → Store → ℤ × Store
unfolding bump
incr now key ttl_on_create st =
    let created = record st {
      strings =
          insert key (record { value = codes "1"; expires_at = deadline now ttl_on_create })
            st.strings;
    } in
    elim (lookup key st.strings) [
      | none ↦ (pos 1, created)
      | some entry ↦ if is_expired now entry.expires_at then (pos 1, created) else (
        bump entry.value,
        record st {
          strings = insert key (record entry { value = to_string (bump entry.value) }) st.strings;
        },
      )
    ]

unfoldable pub sadd : Bytes → Bytes → Store → Store
sadd key member st = elim (lookup key st.sets) [
  | none ↦ record st {
    sets = insert key (record { members = member ∷ []; expires_at = none }) st.sets;
  }
  | some entry ↦ record st {
    sets = insert key (record entry { members = add member entry.members }) st.sets;
  }
]

unfoldable pub srem : Bytes → Bytes → Store → Store
srem key member st = elim (lookup key st.sets) [
  | none ↦ st
  | some entry ↦ record st {
    sets = insert key (record entry { members = remove member entry.members }) st.sets;
  }
]

unfoldable pub smembers : ℕ → Bytes → Store → List Bytes
smembers now key st = elim (lookup key st.sets) [
  | none ↦ []
  | some entry ↦ if is_expired now entry.expires_at then [] else entry.members
]

unfoldable pub sismember : ℕ → Bytes → Bytes → Store → Bool
sismember now key member st = elim (lookup key st.sets) [
  | none ↦ false
  | some entry ↦ if is_expired now entry.expires_at then false else contains member entry.members
]

unfoldable pub scard : ℕ → Bytes → Store → ℕ
scard now key st = elim (lookup key st.sets) [
  | none ↦ 0
  | some entry ↦ if is_expired now entry.expires_at then 0 else length entry.members
]

abbrev pub fresh_string : ℕ → StringEntry → Bool
fresh_string now entry = not (is_expired now entry.expires_at)

abbrev pub fresh_set : ℕ → SetEntry → Bool
fresh_set now entry = not (is_expired now entry.expires_at)

unfoldable pub purge_expired : ℕ → Store → ℕ × Store
purge_expired now st = (
  rejected (fresh_string now) st.strings + rejected (fresh_set now) st.sets,
  record { strings = retain (fresh_string now) st.strings; sets = retain (fresh_set now) st.sets },
)
