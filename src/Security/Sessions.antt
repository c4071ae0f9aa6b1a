-- ===== src/Security/Sessions.antt =====
-- Login sessions: include/rtc/models/session.hpp, the statements of
-- src/repositories/pg_session_repository.cpp, and src/services/session_service.cpp. A time is a
-- number of seconds, and `now` the clock of the call. The user agent, the address and the time of
-- creation of a row are left out. The hash of a token, the check of a token and the random
-- identifiers are not of this module: they are parameters or come with the call.
pub mod Rotation
pub mod Logout
use realtime_chat.Common.{
  ℕ, ◌+◌, Bool, true, false, not, ◌&&◌, ◌||◌, Option, none, some, List, [], ◌∷◌, ◌++◌, ltb,
  if◌then◌else◌, Bytes, codes, ◌==◌, bytes_eq, nat_eq,
}
use realtime_chat.Errors.{Result, ok, err, throw, authentication, database}
use realtime_chat.Validation.{◌>>=◌}

pub record LoginSession : Type 0 where
  pub id : Bytes
  pub user_id : ℕ
  pub refresh_token_hash : Bytes
  pub last_used_at : ℕ
  pub expires_at : ℕ
  pub revoked_at : Option ℕ

abbrev pub is_revoked : Option ℕ → Bool
is_revoked none = false
is_revoked (some t) = true

unfoldable pub is_active : ℕ → LoginSession → Bool
is_active now s = not (is_revoked s.revoked_at) && ltb now s.expires_at

unfoldable pub find_session : Bytes → List LoginSession → Option LoginSession
find_session id [] = none
find_session id (s ∷ ss) = if s.id == id then some s else find_session id ss

-- INSERT; the primary key refuses an id that is there.
unfoldable pub create_session : LoginSession → List LoginSession → Result (List LoginSession)
create_session s ss = elim (find_session s.id ss) [
  | none ↦ ok (ss ++ (s ∷ []))
  | some t ↦
      throw database "Database operation failed"
        (codes "duplicate key value violates unique constraint")
]

-- UPDATE of the rows that satisfy a test.
unfoldable pub update_where :
    (LoginSession → Bool) → (LoginSession → LoginSession) → List LoginSession → List LoginSession
update_where test change [] = []
update_where test change (s ∷ ss) = (if test s then change s else s) ∷ update_where test change ss

unfoldable pub count_where : (LoginSession → Bool) → List LoginSession → ℕ
count_where test [] = 0
count_where test (s ∷ ss) = (if test s then 1 else 0) + count_where test ss

-- In the order of the rows; the statement orders by the time of last use.
unfoldable pub list_active_for_user : ℕ → ℕ → List LoginSession → List LoginSession
list_active_for_user now user [] = []
list_active_for_user now user (s ∷ ss) =
    let rest = list_active_for_user now user ss in
    if s.user_id == user && is_active now s then s ∷ rest else rest

unfoldable pub store_hash : ℕ → Bytes → Bytes → List LoginSession → List LoginSession
store_hash now id hash =
    update_where (λ s. s.id == id) (λ s. record s { refresh_token_hash = hash; last_used_at = now })

abbrev pub revoke_row : ℕ → LoginSession → LoginSession
revoke_row now s = record s { revoked_at = some now }

abbrev pub is_revocable_of : Bytes → ℕ → LoginSession → Bool
is_revocable_of id user s = s.id == id && (s.user_id == user && not (is_revoked s.revoked_at))

-- Whether a row was changed, and the rows.
unfoldable pub revoke : ℕ → Bytes → ℕ → List LoginSession → Bool × List LoginSession
revoke now id user ss = (
  ltb 0 (count_where (is_revocable_of id user) ss),
  update_where (is_revocable_of id user) (revoke_row now) ss,
)

abbrev pub is_live_of : ℕ → LoginSession → Bool
is_live_of user s = s.user_id == user && not (is_revoked s.revoked_at)

unfoldable pub revoke_all : ℕ → ℕ → List LoginSession → ℕ × List LoginSession
revoke_all now user ss =
    (count_where (is_live_of user) ss, update_where (is_live_of user) (revoke_row now) ss)

abbrev pub is_other_of : ℕ → Bytes → LoginSession → Bool
is_other_of user keep s = s.user_id == user && (not (s.id == keep) && not (is_revoked s.revoked_at))

unfoldable pub revoke_all_except : ℕ → ℕ → Bytes → List LoginSession → ℕ × List LoginSession
revoke_all_except now user keep ss = (
  count_where (is_other_of user keep) ss,
  update_where (is_other_of user keep) (revoke_row now) ss,
)

abbrev pub is_over : ℕ → LoginSession → Bool
is_over now s = ltb s.expires_at now || is_revoked s.revoked_at

unfoldable pub drop_where : (LoginSession → Bool) → List LoginSession → List LoginSession
drop_where test [] = []
drop_where test (s ∷ ss) = let rest = drop_where test ss in if test s then rest else s ∷ rest

unfoldable pub delete_expired : ℕ → List LoginSession → ℕ × List LoginSession
delete_expired now ss = (count_where (is_over now) ss, drop_where (is_over now) ss)

pub record TokenClaims : Type 0 where
  pub user_id : ℕ
  pub username : Bytes

abbrev or_invalid : ℕ → Option LoginSession → Result LoginSession
or_invalid now none = throw authentication "Session is invalid or expired" []
or_invalid now (some s) =
    if is_active now s then ok s else throw authentication "Session is invalid or expired" []

-- The calls of the service that change rows.
pub data SessionCall : Type 0 where
  records : ℕ → ℕ → Bytes → ℕ → Bytes → SessionCall
  rotates : ℕ → Bytes → Bytes → Bytes → SessionCall
  revokes : ℕ → Bytes → ℕ → SessionCall
  revokes_all : ℕ → ℕ → SessionCall
  revokes_others : ℕ → ℕ → Bytes → SessionCall
  cleans : ℕ → SessionCall

-- The service over the hash of tokens and the check of refresh tokens.
module _ (sha256_hex : Bytes → Bytes) (verify : Bytes → Result TokenClaims) where
  -- SessionService::record, with the identifier that was generated.
  unfoldable pub record_session :
      ℕ → ℕ → Bytes → ℕ → Bytes → List LoginSession → Result (List LoginSession)
  record_session now ttl id user token ss =
      create_session
        (record {
          id = id;
          user_id = user;
          refresh_token_hash = sha256_hex token;
          last_used_at = now;
          expires_at = now + ttl;
          revoked_at = none;
        })
        ss

  matching : TokenClaims → Bytes → LoginSession → Result TokenClaims
  matching claims token s =
      if not (s.user_id == claims.user_id)
      then throw authentication "Session does not match token" []
      else if not (s.refresh_token_hash == sha256_hex token)
      then throw authentication "Refresh token has been rotated" []
      else ok claims

  -- What `rotate` checks before it issues a new pair.
  unfoldable pub accept : ℕ → Bytes → Bytes → List LoginSession → Result TokenClaims
  unfolding matching
  accept now token id ss = verify token >>= λ claims.
      or_invalid now (find_session id ss) >>= λ s. matching claims token s

  abbrev store_new :
      ℕ
      → Bytes
      → Bytes
      → Result TokenClaims
      → List LoginSession
      → Result TokenClaims × List LoginSession
  store_new now id new (ok claims) ss = (ok claims, store_hash now id (sha256_hex new) ss)
  store_new now id new (err e) ss = (err e, ss)

  -- `new` is the refresh token of the pair that is issued. The reading of the session and the storing
  -- of the new hash are two transactions; here the call runs alone.
  unfoldable pub rotate :
      ℕ → Bytes → Bytes → Bytes → List LoginSession → Result TokenClaims × List LoginSession
  rotate now token id new ss = store_new now id new (accept now token id ss) ss

  abbrev or_same : Result (List LoginSession) → List LoginSession → List LoginSession
  or_same (ok ss') ss = ss'
  or_same (err e) ss = ss

  unfoldable pub call : SessionCall → List LoginSession → List LoginSession
  unfolding record_session rotate
  call (records now ttl id user token) ss = or_same (record_session now ttl id user token ss) ss
  call (rotates now token id new) ss = (rotate now token id new ss).1
  call (revokes now id user) ss = (revoke now id user ss).1
  call (revokes_all now user) ss = (revoke_all now user ss).1
  call (revokes_others now user keep) ss = (revoke_all_except now user keep ss).1
  call (cleans now) ss = (delete_expired now ss).1

  unfoldable pub calls : List SessionCall → List LoginSession → List LoginSession
  calls [] ss = ss
  calls (c ∷ cs) ss = calls cs (call c ss)
