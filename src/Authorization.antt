-- ===== src/Authorization.antt =====
-- The cached authority on roles and suspensions: include/rtc/services/authorization_service.hpp
-- and src/services/authorization_service.cpp, over the in-memory cache. The user table is a
-- parameter, read as it stands at the moment of a call; user ids are not negative.
pub mod Freshness
use realtime_chat.Common.{
  to_string, ℕ, ◌+◌, Bool, false, not, Option, none, some, List, [], ◌∷◌, ◌++◌, if◌then◌else◌, ◌==◌,
  nat_eq, Bytes, codes, bytes_eq, ℤ, pos,
}
use realtime_chat.Errors.{Result, ok, throw, authentication, authorization}
use realtime_chat.Security.Role.{
  Role, Permission, role_to_string, permission_to_string, parse_role, default_role,
}
use realtime_chat.Security.Role
use realtime_chat.Cache.Store.{Store, get, set, del}

-- What IUserAdminRepository answers: `none` for a user who does not exist.
pub record Users : Type 0 where
  pub find_role : ℕ → Option Role
  pub is_banned : ℕ → Option Bool

pub record InvalidationEvent : Type 0 where
  pub scope : Bytes
  pub key : Bytes
  pub sub_key : Bytes

pub record State : Type 0 where
  pub cache : Store
  pub cache_ttl : ℤ
  pub hits : ℕ
  pub misses : ℕ
  pub announced : List InvalidationEvent

unfoldable pub role_key : ℕ → Bytes
role_key user_id = codes "authz:role:" ++ to_string (pos user_id)

unfoldable pub ban_key : ℕ → Bytes
ban_key user_id = codes "authz:banned:" ++ to_string (pos user_id)

abbrev value_or {ℓ} : {A : Type ℓ} → Option A → A → A
value_or none d = d
value_or (some a) d = a

-- The part of `role_of` after a miss.
load_role : ℕ → Users → ℕ → State → Role × State
load_role now users user_id st =
    let role = value_or (users.find_role user_id) default_role in
    (
      role,
      record st {
        cache = set now (role_key user_id) (role_to_string role) st.cache_ttl st.cache;
        misses = st.misses + 1;
      },
    )

unfoldable pub role_of : ℕ → Users → ℕ → State → Role × State
unfolding load_role
role_of now users user_id st =
    let (cached, cache') = get now (role_key user_id) st.cache in
    elim cached [
      | none ↦ load_role now users user_id (record st { cache = cache' })
      | some value ↦ elim (parse_role value) [
        | none ↦ load_role now users user_id (record st { cache = cache'; hits = st.hits + 1 })
        | some role ↦ (role, record st { cache = cache'; hits = st.hits + 1 })
      ]
    ]

unfoldable pub has_permission : ℕ → Users → ℕ → Permission → State → Bool × State
has_permission now users user_id permission st =
    let (role, st') = role_of now users user_id st in (Role.has_permission role permission, st')

unfoldable pub require_permission : ℕ → Users → ℕ → Permission → State → Result (Unit {0}) × State
require_permission now users user_id permission st =
    let (role, st') = role_of now users user_id st in
    if not (Role.has_permission role permission)
    then (
      throw authorization "Insufficient permissions" (
          codes "required="
          ++ (permission_to_string permission ++ (codes " role=" ++ role_to_string role))),
      st',
    )
    else (ok tt, st')

unfoldable pub is_banned : ℕ → Users → ℕ → State → Bool × State
is_banned now users user_id st =
    let (cached, cache') = get now (ban_key user_id) st.cache in
    elim cached [
      | none ↦
          let banned = value_or (users.is_banned user_id) false in
          (
            banned,
            record st {
              cache =
                  set now (ban_key user_id) (if banned then codes "1" else codes "0") st.cache_ttl
                    cache';
              misses = st.misses + 1;
            },
          )
      | some value ↦ (value == codes "1", record st { cache = cache'; hits = st.hits + 1 })
    ]

unfoldable pub require_active : ℕ → Users → ℕ → State → Result (Unit {0}) × State
require_active now users user_id st =
    let (banned, st') = is_banned now users user_id st in
    if banned
    then (
      throw authentication "Account is suspended" (codes "user_id=" ++ to_string (pos user_id)),
      st',
    )
    else (ok tt, st')

unfoldable pub invalidate_local : ℕ → State → State
invalidate_local user_id st = record st {
  cache = (del (ban_key user_id) (del (role_key user_id) st.cache).1).1;
}

unfoldable pub invalidate : ℕ → State → State
unfolding invalidate_local
invalidate user_id st = record (invalidate_local user_id st) {
  announced =
      record { scope = codes "authorization"; key = to_string (pos user_id); sub_key = [] }
      ∷ st.announced;
}
