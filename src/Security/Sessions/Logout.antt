-- ===== src/Security/Sessions/Logout.antt =====
-- After a logout everywhere no refresh token of the user is accepted.
use realtime_chat.Common.{
  ℕ, ◌≡◌, refl, ap, Bool, true, false, not, ◌&&◌, Option, none, some, List, [], ◌∷◌, arith, Bytes,
  ◌==◌, bytes_eq, nat_eq,
}
use realtime_chat.Errors.{Result, ok, err}
use realtime_chat.Validation.{◌>>=◌}
use realtime_chat.Security.Sessions.{
  or_invalid, LoginSession, is_active, find_session, update_where, revoke_row, is_live_of,
  revoke_all, TokenClaims, matching, accept, SessionCall, records, rotates, revokes, revokes_all,
  revokes_others, cleans, call, calls,
}
use realtime_chat.Security.Sessions.Rotation.{any_row, Spares, any_row-call}

update_where-is_live_of :
    (now user : ℕ) (ss : List LoginSession)
    → any_row (is_live_of user) (update_where (is_live_of user) (revoke_row now) ss) ≡ false
unfolding any_row update_where
update_where-is_live_of now user [] = refl
update_where-is_live_of now user (s ∷ ss) = ground (arith, update_where-is_live_of now user ss)

find_session-is_live_of :
    (user : ℕ) (id : Bytes) (s : LoginSession) (ss : List LoginSession)
    → find_session id ss ≡ some s
    → any_row (is_live_of user) ss ≡ false
    → is_live_of user s ≡ false
unfolding find_session any_row
find_session-is_live_of user id s [] e h = ground arith
find_session-is_live_of user id s (t ∷ ss) e h =
    ground (arith, find_session-is_live_of user id s ss, ap (is_live_of user))

-- The calls that open no session of a user.
abbrev pub opens_none : ℕ → SessionCall → Bool
opens_none user (records now ttl id owner token) = not (owner == user)
opens_none user _ = true

abbrev pub all_open_none : ℕ → List SessionCall → Bool
all_open_none user [] = true
all_open_none user (c ∷ cs) = opens_none user c && all_open_none user cs

-- Whether claims of a user came out.
abbrev pub is_ok_for : ℕ → Result TokenClaims → Bool
is_ok_for user (ok c) = c.user_id == user
is_ok_for user (err e) = false

module _ (sha256_hex : Bytes → Bytes) (verify : Bytes → Result TokenClaims) where
  opens_none-Spares :
      (user : ℕ) (c : SessionCall)
      → opens_none user c ≡ true
      → Spares sha256_hex verify (is_live_of user) c
  opens_none-Spares user (records now ttl id owner token) h = ground arith
  opens_none-Spares user (rotates now old id new) h = λ s t. t
  opens_none-Spares user (revokes now id owner) h = tt
  opens_none-Spares user (revokes_all now owner) h = tt
  opens_none-Spares user (revokes_others now owner keep) h = tt
  opens_none-Spares user (cleans now) h = tt

  calls-is_live_of :
      (user : ℕ) (cs : List SessionCall) (ss : List LoginSession)
      → all_open_none user cs ≡ true
      → any_row (is_live_of user) ss ≡ false
      → any_row (is_live_of user) (calls sha256_hex verify cs ss) ≡ false
  unfolding calls
  calls-is_live_of user [] ss o h = h
  calls-is_live_of user (c ∷ cs) ss o h =
      calls-is_live_of user cs (call sha256_hex verify c ss) (ground arith) (
        any_row-call sha256_hex verify (is_live_of user) c ss (λ now s t. ground arith)
          (opens_none-Spares user c (ground arith)) h)

  accept_dead :
      (now user : ℕ) (token : Bytes) (v : Result TokenClaims) (o : Option LoginSession)
      → ((s : LoginSession) → o ≡ some s → is_live_of user s ≡ false)
      → is_ok_for user
          (v >>= λ claims. or_invalid now o >>= λ s. matching sha256_hex verify claims token s)
        ≡ false
  unfolding matching is_active
  accept_dead now user token (err e) o u = refl
  accept_dead now user token (ok c) none u = refl
  accept_dead now user token (ok c) (some s) u = ground (arith, u s refl)

-- After all sessions of a user were revoked, and any calls that open no new session of the user,
-- no refresh token is accepted for the user, whichever session it is presented with.
pub revoke_all-refuses :
    (sha256_hex : Bytes → Bytes) (verify : Bytes → Result TokenClaims) (now later user : ℕ)
    (token id : Bytes) (cs : List SessionCall) (ss : List LoginSession)
    → all_open_none user cs ≡ true
    → is_ok_for user (
        accept sha256_hex verify later token id
          (calls sha256_hex verify cs (revoke_all now user ss).1))
      ≡ false
unfolding revoke_all accept
revoke_all-refuses sha256_hex verify now later user token id cs ss o =
    let left = calls sha256_hex verify cs (revoke_all now user ss).1 in
    let dead =
      calls-is_live_of sha256_hex verify user cs (revoke_all now user ss).1 o
        (update_where-is_live_of now user ss) in
    accept_dead sha256_hex verify later user token (verify token) (find_session id left)
      (λ s e. find_session-is_live_of user id s left e dead)
