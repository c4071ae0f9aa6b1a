-- ===== src/Cache/Store/View.antt =====
-- What a client can see of a store at an instant, stated over the two maps without the clean-up
-- that the methods do on the way.
use realtime_chat.Common.{
  HasUniqueKeys, ℕ, ◌≤◌, ◌≡◌, refl, Bool, true, false, Option, none, some, List, [], arith, lookup,
  if◌then◌else◌, nat_eq, Bytes, bytes_eq,
}
use realtime_chat.Cache.Store.{StringEntry, SetEntry, Store, is_expired}

abbrev pub live_string : ℕ → Option StringEntry → Option Bytes
live_string now none = none
live_string now (some entry) = if is_expired now entry.expires_at then none else some entry.value

-- The value that a key stands for at time `now`.
abbrev pub value_at : ℕ → Bytes → Store → Option Bytes
value_at now key st = live_string now (lookup key st.strings)

abbrev pub live_members : ℕ → Option SetEntry → List Bytes
live_members now none = []
live_members now (some entry) = if is_expired now entry.expires_at then [] else entry.members

-- The elements of the set at a key at time `now`.
abbrev pub members_at : ℕ → Bytes → Store → List Bytes
members_at now key st = live_members now (lookup key st.sets)

-- A set whose deadline has passed and that no clean-up has removed yet.
abbrev pub is_dead : ℕ → Option SetEntry → Bool
is_dead now none = false
is_dead now (some entry) = is_expired now entry.expires_at

pub record IsWellFormed (st : Store) : Type 0 where
  pub strings_keyed : HasUniqueKeys st.strings
  pub sets_keyed : HasUniqueKeys st.sets

-- Once expired, always expired.
pub is_expired_mono :
    (now later : ℕ) (expiry : Option ℕ)
    → now ≤ later
    → is_expired now expiry ≡ true
    → is_expired later expiry ≡ true
unfolding is_expired
is_expired_mono now later none h e = e
is_expired_mono now later (some x) h e = ground arith

pub live_string_mono :
    (now later : ℕ) (o : Option StringEntry)
    → now ≤ later
    → live_string now o ≡ none
    → live_string later o ≡ none
live_string_mono now later none h e = refl
live_string_mono now later (some entry) h e =
    ground (arith, is_expired_mono now later entry.expires_at h)
