-- ===== src/Security/Sessions/Rotation.antt =====
-- A refresh token that was exchanged is never accepted again, and none is after a logout everywhere.
use realtime_chat.Common.{
  ℕ, ◌+◌, ◌≡◌, refl, ap, inl, inr, Bool, true, false, not, ◌&&◌, ◌||◌, Option, none, some, List, [],
  ◌∷◌, ◌++◌, arith, Option-cases, Bytes, ◌==◌, bytes_eq, nat_eq,
}
use realtime_chat.Validation.{◌>>=◌}
use realtime_chat.Errors.{Result, ok, err}
use realtime_chat.Security.Sessions.{
  or_invalid, store_new, LoginSession, find_session, create_session, update_where, store_hash,
  revoke_row, is_revocable_of, revoke, is_live_of, revoke_all, is_other_of, revoke_all_except,
  is_over, drop_where, delete_expired, TokenClaims, record_session, matching, accept, rotate,
  SessionCall, records, rotates, revokes, revokes_all, revokes_others, cleans, call, calls,
}

-- Whether some row satisfies a test.
unfoldable pub any_row : (LoginSession → Bool) → List LoginSession → Bool
any_row test [] = false
any_row test (s ∷ ss) = test s || any_row test ss

module _ (test : LoginSession → Bool) where
  any_row-update_where :
      (is_hit : LoginSession → Bool) (change : LoginSession → LoginSession) (ss : List LoginSession)
      → ((s : LoginSession) → is_hit s ≡ true → test (change s) ≡ true → test s ≡ true)
      → any_row test ss ≡ false
      → any_row test (update_where is_hit change ss) ≡ false
  unfolding any_row update_where
  any_row-update_where is_hit change [] keeps h = refl
  any_row-update_where is_hit change (s ∷ ss) keeps h =
      ground (arith, keeps s, any_row-update_where is_hit change ss keeps)

  any_row-drop_where :
      (is_hit : LoginSession → Bool) (ss : List LoginSession)
      → any_row test ss ≡ false
      → any_row test (drop_where is_hit ss) ≡ false
  unfolding any_row drop_where
  any_row-drop_where is_hit [] h = refl
  any_row-drop_where is_hit (s ∷ ss) h = ground (arith, any_row-drop_where is_hit ss)

  any_row-append :
      (s : LoginSession) (ss : List LoginSession)
      → any_row test (ss ++ (s ∷ [])) ≡ (any_row test ss || test s)
  unfolding any_row
  any_row-append s [] = ground arith
  any_row-append s (t ∷ ss) = ground (arith, any_row-append s ss)

  any_row-find_session :
      (id : Bytes) (s : LoginSession) (ss : List LoginSession)
      → find_session id ss ≡ some s
      → test s ≡ true
      → any_row test ss ≡ true
  unfolding any_row find_session
  any_row-find_session id s [] e t = ground arith
  any_row-find_session id s (u ∷ ss) e t = ground (arith, any_row-find_session id s ss, ap test)

abbrev pub rehashed : ℕ → Bytes → LoginSession → LoginSession
rehashed now hash s = record s { refresh_token_hash = hash; last_used_at = now }

module _ (sha256_hex : Bytes → Bytes) (verify : Bytes → Result TokenClaims) where
  abbrev pub new_row : ℕ → ℕ → Bytes → ℕ → Bytes → LoginSession
  new_row now ttl id user token = record {
    id = id;
    user_id = user;
    refresh_token_hash = sha256_hex token;
    last_used_at = now;
    expires_at = now + ttl;
    revoked_at = none;
  }

  module _ (test : LoginSession → Bool) where
    -- What a call writes does not make the test true.
    abbrev pub Spares : SessionCall → Type 0
    Spares (records now ttl id user token) = test (new_row now ttl id user token) ≡ false
    Spares (rotates now token id new) =
        (s : LoginSession) → test (rehashed now (sha256_hex new) s) ≡ true → test s ≡ true
    Spares _ = Unit

    any_row-records :
        (now ttl : ℕ) (id : Bytes) (user : ℕ) (token : Bytes) (ss : List LoginSession)
        → test (new_row now ttl id user token) ≡ false
        → any_row test ss ≡ false
        → any_row test (call sha256_hex verify (records now ttl id user token) ss) ≡ false
    unfolding call record_session create_session
    any_row-records now ttl id user token ss n h = elim (Option-cases (find_session id ss)) [
      | inl e ↦
          rw (e, call, record_session, create_session)
            (ground (arith, any_row-append test (new_row now ttl id user token) ss))
      | inr (t, e) ↦ rw (e, call, record_session, create_session) h
    ]

    any_row-rotates :
        (now : ℕ) (token id new : Bytes) (ss : List LoginSession)
        → ((s : LoginSession) → test (rehashed now (sha256_hex new) s) ≡ true → test s ≡ true)
        → any_row test ss ≡ false
        → any_row test (rotate sha256_hex verify now token id new ss).1 ≡ false
    unfolding rotate store_hash
    any_row-rotates now token id new ss n h = ground (
      arith,
      any_row-update_where test (λ s. s.id == id) (rehashed now (sha256_hex new)) ss (λ s hit. n s)
          h,
    )

    pub any_row-call :
        (c : SessionCall) (ss : List LoginSession)
        → ((now : ℕ) (s : LoginSession) → test (revoke_row now s) ≡ true → test s ≡ true)
        → Spares c
        → any_row test ss ≡ false
        → any_row test (call sha256_hex verify c ss) ≡ false
    unfolding call revoke revoke_all revoke_all_except delete_expired
    any_row-call (records now ttl id user token) ss r n h =
        any_row-records now ttl id user token ss n h
    any_row-call (rotates now token id new) ss r n h = any_row-rotates now token id new ss n h
    any_row-call (revokes now id user) ss r n h =
        any_row-update_where test (is_revocable_of id user) (revoke_row now) ss (λ s hit. r now s) h
    any_row-call (revokes_all now user) ss r n h =
        any_row-update_where test (is_live_of user) (revoke_row now) ss (λ s hit. r now s) h
    any_row-call (revokes_others now user keep) ss r n h =
        any_row-update_where test (is_other_of user keep) (revoke_row now) ss (λ s hit. r now s) h
    any_row-call (cleans now) ss r n h = any_row-drop_where test (is_over now) ss h

  -- The calls that do not store the hash of a token again.
  abbrev pub mints_other : Bytes → SessionCall → Bool
  mints_other token (records now ttl id user fresh) = not (sha256_hex fresh == sha256_hex token)
  mints_other token (rotates now old id new) = not (sha256_hex new == sha256_hex token)
  mints_other token _ = true

  abbrev pub all_other : Bytes → List SessionCall → Bool
  all_other token [] = true
  all_other token (c ∷ cs) = mints_other token c && all_other token cs

  abbrev has_token : Bytes → Bytes → LoginSession → Bool
  has_token id token s = s.id == id && s.refresh_token_hash == sha256_hex token

  mints_other-Spares :
      (id token : Bytes) (c : SessionCall)
      → mints_other token c ≡ true
      → Spares (has_token id token) c
  mints_other-Spares id token (records now ttl id' user fresh) h = ground arith
  mints_other-Spares id token (rotates now old id' new) h = λ s t. ground arith
  mints_other-Spares id token (revokes now id' user) h = tt
  mints_other-Spares id token (revokes_all now user) h = tt
  mints_other-Spares id token (revokes_others now user keep) h = tt
  mints_other-Spares id token (cleans now) h = tt

  calls-has_token :
      (id token : Bytes) (cs : List SessionCall) (ss : List LoginSession)
      → all_other token cs ≡ true
      → any_row (has_token id token) ss ≡ false
      → any_row (has_token id token) (calls sha256_hex verify cs ss) ≡ false
  unfolding calls
  calls-has_token id token [] ss o h = h
  calls-has_token id token (c ∷ cs) ss o h =
      calls-has_token id token cs (call sha256_hex verify c ss) (ground arith) (
        any_row-call (has_token id token) c ss (λ now s t. t)
          (mints_other-Spares id token c (ground arith)) h)

  store_hash-has_token :
      (now : ℕ) (id token new : Bytes) (ss : List LoginSession)
      → (sha256_hex new == sha256_hex token) ≡ false
      → any_row (has_token id token) (store_hash now id (sha256_hex new) ss) ≡ false
  unfolding any_row store_hash update_where
  store_hash-has_token now id token new [] f = refl
  store_hash-has_token now id token new (s ∷ ss) f =
      ground (arith, store_hash-has_token now id token new ss)

  abbrev pub is_ok : Result TokenClaims → Bool
  is_ok (ok c) = true
  is_ok (err e) = false

  find_session-has_token :
      (id token : Bytes) (s : LoginSession) (ss : List LoginSession)
      → find_session id ss ≡ some s
      → any_row (has_token id token) ss ≡ false
      → (s.refresh_token_hash == sha256_hex token) ≡ false
  unfolding find_session any_row
  find_session-has_token id token s [] e h = ground arith
  find_session-has_token id token s (t ∷ ss) e h =
      ground (
        arith,
        find_session-has_token id token s ss,
        ap (λ (x : LoginSession). x.refresh_token_hash),
      )

  accept_unmatched :
      (now : ℕ) (token : Bytes) (v : Result TokenClaims) (o : Option LoginSession)
      → ((s : LoginSession) → o ≡ some s → (s.refresh_token_hash == sha256_hex token) ≡ false)
      → is_ok (v >>= λ claims. or_invalid now o >>= λ s. matching sha256_hex verify claims token s)
        ≡ false
  unfolding matching
  accept_unmatched now token (err e) o u = refl
  accept_unmatched now token (ok c) none u = refl
  accept_unmatched now token (ok c) (some s) u = ground (arith, u s refl)

  accept-has_token :
      (now : ℕ) (id token : Bytes) (ss : List LoginSession)
      → any_row (has_token id token) ss ≡ false
      → is_ok (accept sha256_hex verify now token id ss) ≡ false
  unfolding accept
  accept-has_token now id token ss h =
      accept_unmatched now token (verify token) (find_session id ss)
        (λ s e. find_session-has_token id token s ss e h)

  store_new-has_token :
      (now : ℕ) (id token new : Bytes) (a : Result TokenClaims) (ss : List LoginSession)
      → (sha256_hex new == sha256_hex token) ≡ false
      → is_ok (store_new sha256_hex verify now id new a ss).0 ≡ true
      → any_row (has_token id token) (store_new sha256_hex verify now id new a ss).1 ≡ false
  store_new-has_token now id token new (ok c) ss f r = store_hash-has_token now id token new ss f
  store_new-has_token now id token new (err e) ss f r = ground arith

-- A refresh token that was exchanged for another is never accepted for its session again, after
-- any calls, provided that the new token and the tokens that the calls store have other hashes.
pub rotate-once :
    (sha256_hex : Bytes → Bytes) (verify : Bytes → Result TokenClaims) (now later : ℕ)
    (token id new : Bytes) (cs : List SessionCall) (ss : List LoginSession)
    → (sha256_hex new == sha256_hex token) ≡ false
    → all_other sha256_hex verify token cs ≡ true
    → is_ok sha256_hex verify (rotate sha256_hex verify now token id new ss).0 ≡ true
    → is_ok sha256_hex verify (
        accept sha256_hex verify later token id
          (calls sha256_hex verify cs (rotate sha256_hex verify now token id new ss).1))
      ≡ false
unfolding rotate
rotate-once sha256_hex verify now later token id new cs ss f o r =
    accept-has_token sha256_hex verify later id token
      (calls sha256_hex verify cs (rotate sha256_hex verify now token id new ss).1)
      (calls-has_token sha256_hex verify id token cs
        (rotate sha256_hex verify now token id new ss).1 o
        (store_new-has_token sha256_hex verify now id token new
          (accept sha256_hex verify now token id ss) ss f r))
