-- ===== src/Authorization/Freshness.antt =====
-- How far the cached answers of the authorization service may lag behind the user table.
use realtime_chat.Common.{
  int64_max, to_string-injective, to_string, ℕ, ◌+◌, ◌≤◌, ◌≡◌, refl, ◌∙◌, ◌≢◌, Bool, true, false,
  Option, none, some, List, [], ◌∷◌, ◌++◌, arith, if◌then◌else◌, Bytes, codes, bytes_beq_iff, ◌==◌,
  bytes_eq, nat_eq, ℤ, pos,
}
use realtime_chat.Errors.{err, exception, authentication}
use realtime_chat.Security.Role.{Role, role_to_string, parse_role, default_role}
use realtime_chat.Security.Role.Laws.{parse_role_iff}
use realtime_chat.Cache.Store.{Store, get, del}
use realtime_chat.Cache.Store.View.{value_at}
use realtime_chat.Cache.Store.Laws.{get-view, value_at-set, del-view, lasts}
use realtime_chat.Authorization.{
  Users, State, role_key, ban_key, value_or, role_of, is_banned, require_active, invalidate,
}

-- What the user table says, with the defaults of the service.
abbrev pub table_role : Users → ℕ → Role
table_role users u = value_or (users.find_role u) default_role

abbrev pub table_banned : Users → ℕ → Bool
table_banned users u = value_or (users.is_banned u) false

-- The role answered from a cached text: the role that it names, or the table's where it names none.
abbrev pub cached_role : Users → ℕ → Option Bytes → Role
cached_role users u none = table_role users u
cached_role users u (some value) = value_or (parse_role value) (table_role users u)

role_of-view :
    (now : ℕ) (users : Users) (u : ℕ) (st : State)
    → (role_of now users u st).0 ≡ cached_role users u (value_at now (role_key u) st.cache)
unfolding role_of
role_of-view now users u st =
    ground (arith, get-view now now (role_key u) (role_key u) st.cache (omega arith))

abbrev cached_banned : Users → ℕ → Option Bytes → Bool
cached_banned users u none = table_banned users u
cached_banned users u (some value) = value == codes "1"

is_banned-view :
    (now : ℕ) (users : Users) (u : ℕ) (st : State)
    → (is_banned now users u st).0 ≡ cached_banned users u (value_at now (ban_key u) st.cache)
unfolding is_banned
is_banned-view now users u st =
    ground (arith, get-view now now (ban_key u) (ban_key u) st.cache (omega arith))

role_key-ne-ban_key : (u v : ℕ) → role_key u ≢ ban_key v
unfolding role_key ban_key
role_key-ne-ban_key u v = ground arith

-- After an invalidation of a user, the next role and the next suspension answered for that user are
-- those of the table, whatever the cache held.
pub invalidate-reads_table :
    (now : ℕ) (users : Users) (u : ℕ) (st : State)
    → ((role_of now users u (invalidate u st)).0 ≡ table_role users u)
      × ((is_banned now users u (invalidate u st)).0 ≡ table_banned users u)
unfolding invalidate
invalidate-reads_table now users u st = (
  ground (
    arith,
    role_of-view now users u (invalidate u st),
    del-view now (ban_key u) (role_key u) (del (role_key u) st.cache).1,
    del-view now (role_key u) (role_key u) st.cache,
    bytes_beq_iff (role_key u) (role_key u),
    bytes_beq_iff (role_key u) (ban_key u),
  ),
  ground (
    arith,
    is_banned-view now users u (invalidate u st),
    del-view now (ban_key u) (ban_key u) (del (role_key u) st.cache).1,
    bytes_beq_iff (ban_key u) (ban_key u),
  ),
)

-- A suspension recorded in the table locks the user out at the next check after an invalidation.
pub require_active-banned :
    (now : ℕ) (users : Users) (u : ℕ) (st : State)
    → users.is_banned u ≡ some true
    → (require_active now users u (invalidate u st)).0
      ≡ err
          (exception authentication "Account is suspended" (codes "user_id=" ++ to_string (pos u)))
unfolding require_active
require_active-banned now users u st h = ground (arith, invalidate-reads_table now users u st)

abbrev ban_text : Bool → Bytes
ban_text b = if b then codes "1" else codes "0"

is_banned-stores :
    (now later : ℕ) (users : Users) (u : ℕ) (st : State)
    → value_at now (ban_key u) st.cache ≡ none
    → value_at later (ban_key u) (is_banned now users u st).1.cache
      ≡ (if lasts now st.cache_ttl later then some (ban_text (table_banned users u)) else none)
unfolding is_banned
is_banned-stores now later users u st miss = ground (
  arith,
  get-view now now (ban_key u) (ban_key u) st.cache (omega arith),
  value_at-set now later (ban_key u) (ban_key u) (ban_text (table_banned users u)) st.cache_ttl
      (get now (ban_key u) st.cache).1,
  bytes_beq_iff (ban_key u) (ban_key u),
)

role_of-stores :
    (now later : ℕ) (users : Users) (u : ℕ) (st : State)
    → value_at now (role_key u) st.cache ≡ none
    → value_at later (role_key u) (role_of now users u st).1.cache
      ≡ (if lasts now st.cache_ttl later then some (role_to_string (table_role users u)) else none)
unfolding role_of
role_of-stores now later users u st miss = ground (
  arith,
  get-view now now (role_key u) (role_key u) st.cache (omega arith),
  value_at-set now later (role_key u) (role_key u) (role_to_string (table_role users u))
      st.cache_ttl (get now (role_key u) st.cache).1,
  bytes_beq_iff (role_key u) (role_key u),
)

-- Checks of one user, each at its time and with the table as it is then.
unfoldable pub check_each : ℕ → List (ℕ × Users) → State → State
check_each u [] st = st
check_each u ((t, users) ∷ checks) st = check_each u checks (is_banned t users u st).1

-- Each of the checks is made while a value stored at `now` lasts.
unfoldable pub AllLast : ℕ → ℤ → List (ℕ × Users) → Type 0
AllLast now ttl [] = Unit
AllLast now ttl ((t, users) ∷ checks) = (lasts now ttl t ≡ true) × AllLast now ttl checks

get-hit :
    (t : ℕ) (key value : Bytes) (st : Store)
    → value_at t key st ≡ some value
    → get t key st ≡ (some value, st)
unfolding get
get-hit t key value st h = ground arith

-- A hit leaves the cache as it was.
is_banned-hit :
    (t : ℕ) (users : Users) (u : ℕ) (st : State) (value : Bytes)
    → value_at t (ban_key u) st.cache ≡ some value
    → (is_banned t users u st).1.cache ≡ st.cache
unfolding is_banned
is_banned-hit t users u st value h = ground (arith, get-hit t (ban_key u) value st.cache h)

check_each-cache :
    (now : ℕ) (ttl : ℤ) (u : ℕ) (checks : List (ℕ × Users)) (value : Bytes) (st : State)
    → AllLast now ttl checks
    → ((t : ℕ) → value_at t (ban_key u) st.cache ≡ (if lasts now ttl t then some value else none))
    → (check_each u checks st).cache ≡ st.cache
unfolding check_each AllLast
check_each-cache now ttl u [] value st a h = refl
check_each-cache now ttl u ((t, users) ∷ checks) value st a h =
    let same = is_banned-hit t users u st value (rw (h t, a.0) refl) in
    check_each-cache now ttl u checks value (is_banned t users u st).1 a.1 (λ x. rw same (h x))
    ∙ same

-- If the cache stands for nothing about a user, the suspension that is then read from the table is
-- repeated for as long as the cache keeps it and no longer, however often the user is checked in
-- between: after that the table, as it is then, is read again.
pub is_banned-staleness :
    (now later : ℕ) (users users' : Users) (u : ℕ) (checks : List (ℕ × Users)) (st : State)
    → value_at now (ban_key u) st.cache ≡ none
    → AllLast now st.cache_ttl checks
    → (is_banned later users' u (check_each u checks (is_banned now users u st).1)).0
      ≡ (if lasts now st.cache_ttl later then table_banned users u else table_banned users' u)
is_banned-staleness now later users users' u checks st miss a =
    let first = (is_banned now users u st).1 in
    let stored : (t : ℕ)
        → value_at t (ban_key u) first.cache
          ≡ (if lasts now st.cache_ttl t then some (ban_text (table_banned users u)) else none) =
      λ t. is_banned-stores now t users u st miss in
    ground (
      arith,
      is_banned-view later users' u (check_each u checks first),
      check_each-cache now st.cache_ttl u checks (ban_text (table_banned users u)) first a stored,
      stored later,
    )

-- The same of roles.
pub role_of-staleness :
    (now later : ℕ) (users users' : Users) (u : ℕ) (st : State)
    → value_at now (role_key u) st.cache ≡ none
    → (role_of later users' u (role_of now users u st).1).0
      ≡ (if lasts now st.cache_ttl later then table_role users u else table_role users' u)
role_of-staleness now later users users' u st miss = ground (
  arith,
  role_of-view later users' u (role_of now users u st).1,
  role_of-stores now later users u st miss,
  (parse_role_iff (role_to_string (table_role users u)) (table_role users u)).1 refl,
)

-- Each suspension check counts as one hit or as one miss.
pub is_banned-counts :
    (now : ℕ) (users : Users) (u : ℕ) (st : State)
    → (is_banned now users u st).1.hits + (is_banned now users u st).1.misses
      ≡ st.hits + st.misses + 1
unfolding is_banned
is_banned-counts now users u st = ground arith

keys_differ :
    (u v : ℕ)
    → u ≤ int64_max
    → v ≤ int64_max
    → u ≢ v
    → (role_key v ≢ role_key u) × (ban_key v ≢ ban_key u)
unfolding role_key ban_key
keys_differ u v bu bv ne = (
  λ e. ne (to_string-injective u v bu bv (ground arith)),
  λ e. ne (to_string-injective u v bu bv (ground arith)),
)

-- Invalidating one user leaves the answers about every other user as they were, for user ids of
-- 64 bits.
pub invalidate_others :
    (now : ℕ) (users : Users) (u v : ℕ) (st : State)
    → u ≤ int64_max
    → v ≤ int64_max
    → u ≢ v
    → ((role_of now users v (invalidate u st)).0 ≡ (role_of now users v st).0)
      × ((is_banned now users v (invalidate u st)).0 ≡ (is_banned now users v st).0)
unfolding invalidate
invalidate_others now users u v st bu bv ne = (
  ground (
    arith,
    role_of-view now users v (invalidate u st),
    role_of-view now users v st,
    del-view now (ban_key u) (role_key v) (del (role_key u) st.cache).1,
    del-view now (role_key u) (role_key v) st.cache,
    bytes_beq_iff (role_key v) (role_key u),
    bytes_beq_iff (role_key v) (ban_key u),
    role_key-ne-ban_key v u,
    (keys_differ u v bu bv ne).0,
  ),
  ground (
    arith,
    is_banned-view now users v (invalidate u st),
    is_banned-view now users v st,
    del-view now (ban_key u) (ban_key v) (del (role_key u) st.cache).1,
    del-view now (role_key u) (ban_key v) st.cache,
    bytes_beq_iff (ban_key v) (ban_key u),
    bytes_beq_iff (ban_key v) (role_key u),
    role_key-ne-ban_key u v,
    (keys_differ u v bu bv ne).1,
  ),
)
