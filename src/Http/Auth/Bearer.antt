-- ===== src/Http/Auth/Bearer.antt =====
-- Which headers carry a token, and whom a request is admitted as.
use realtime_chat.Common.{
  length, length-append, ℕ, ◌≤◌, ◌≡◌, refl, ap, ◌∙◌, Bool, true, false, not, ◌&&◌, Option, none,
  some, [], ◌∷◌, ◌++◌, arith, Bytes, codes, ◌==◌, bytes_eq, nat_eq,
}
use realtime_chat.Errors.{Result, ok, err}
use realtime_chat.Validation.{tolower}
use realtime_chat.Security.Sessions.{TokenClaims}
use realtime_chat.Authorization.{State, Users, require_active, is_banned}
use realtime_chat.Http.Auth.{
  is_blank, ltrim, after_scheme, non_empty, extract_bearer_token, authenticate_token_only,
  with_active, authenticate,
}

abbrev pub all_blank : Bytes → Bool
all_blank [] = true
all_blank (c ∷ s) = is_blank c && all_blank s

-- A token that is not empty and starts with no blank.
abbrev pub is_token : Bytes → Bool
is_token [] = false
is_token (c ∷ s) = not (is_blank c)

abbrev pub same_letters : Bytes → Bytes → Bool
same_letters [] [] = true
same_letters (a ∷ s) (b ∷ t) = tolower a == tolower b && same_letters s t
same_letters _ _ = false

ltrim-append : (blanks s : Bytes) → all_blank blanks ≡ true → ltrim (blanks ++ s) ≡ ltrim s
unfolding ltrim
ltrim-append [] s h = refl
ltrim-append (c ∷ blanks) s h = ground (arith, ltrim-append blanks s)

ltrim-is_token : (s : Bytes) → is_token s ≡ true → ltrim s ≡ s
unfolding ltrim
ltrim-is_token [] h = ground arith
ltrim-is_token (c ∷ s) h = ground arith

after_scheme-append :
    (p scheme s : Bytes)
    → same_letters p scheme ≡ true
    → after_scheme p (scheme ++ (32 ∷ s)) ≡ some s
unfolding after_scheme
after_scheme-append [] [] s h = refl
after_scheme-append [] (c ∷ scheme) s h = ground arith
after_scheme-append (a ∷ p) [] s h = ground arith
after_scheme-append (a ∷ p) (b ∷ scheme) s h = ground (arith, after_scheme-append p scheme s)

length-same_letters : (s t : Bytes) → same_letters s t ≡ true → length s ≡ length t
length-same_letters [] [] h = refl
length-same_letters [] (b ∷ t) h = ground arith
length-same_letters (a ∷ s) [] h = ground arith
length-same_letters (a ∷ s) (b ∷ t) h = ground (arith, length-same_letters s t)

is_token-append : (s t : Bytes) → is_token s ≡ true → is_token (s ++ t) ≡ true
is_token-append [] t h = ground arith
is_token-append (c ∷ s) t h = h

length-is_token : (s : Bytes) → is_token s ≡ true → 1 ≤ length s
length-is_token [] h = ground arith
length-is_token (c ∷ s) h = omega arith

same_letters-is_token :
    (scheme : Bytes) → same_letters (codes "Bearer") scheme ≡ true → is_token scheme ≡ true
unfolding tolower
same_letters-is_token [] h = ground arith
same_letters-is_token (c ∷ s) h = ground arith

non_empty-is_token : (s : Bytes) → is_token s ≡ true → non_empty s ≡ some s
non_empty-is_token [] h = ground arith
non_empty-is_token (c ∷ s) h = refl

-- A header of blanks, the scheme in any case, a space, blanks, and a token carries that token.
pub extract_bearer_token-reads :
    (before scheme between token : Bytes)
    → all_blank before ≡ true
    → same_letters (codes "Bearer") scheme ≡ true
    → all_blank between ≡ true
    → is_token token ≡ true
    → extract_bearer_token (before ++ (scheme ++ (32 ∷ (between ++ token)))) ≡ some token
unfolding extract_bearer_token
extract_bearer_token-reads before scheme between token b s c t =
    let rest = scheme ++ (32 ∷ (between ++ token)) in
    let view : ltrim (before ++ rest) ≡ rest =
      ltrim-append before rest b
      ∙ ltrim-is_token rest
          (is_token-append scheme (32 ∷ (between ++ token)) (same_letters-is_token scheme s)) in
    ground (
      arith,
      view,
      after_scheme-append (codes "Bearer") scheme (between ++ token) s,
      length-append scheme (32 ∷ (between ++ token)),
      length-same_letters (codes "Bearer") scheme s,
      length-append between token,
      length-is_token token t,
      ltrim-append between token c,
      ltrim-is_token token t,
      non_empty-is_token token t,
    )

with_active-admits :
    (now : ℕ) (users : Users) (r : Result TokenClaims) (st : State) (claims : TokenClaims)
    → (with_active now users r st).0 ≡ ok claims
    → (r ≡ ok claims) × ((is_banned now users claims.user_id st).0 ≡ false)
unfolding require_active
with_active-admits now users (err x) st claims e = ground arith
with_active-admits now users (ok c) st claims e =
    ground (arith, ap (λ (k : TokenClaims). (is_banned now users k.user_id st).0))

verified :
    (verify : Bytes → Result TokenClaims) (o : Option Bytes) (claims : TokenClaims)
    → authenticate_token_only verify o ≡ ok claims
    → (token : Bytes) × ((o ≡ some token) × (verify token ≡ ok claims))
unfolding authenticate_token_only
verified verify none claims e = ground arith
verified verify (some token) claims e = (token, (refl, e))

-- A request is admitted only with a token that the token service accepts, as the user it names, and
-- only if the authorization service does not report that user suspended.
pub authenticate-admits :
    (verify : Bytes → Result TokenClaims) (now : ℕ) (users : Users) (header : Bytes) (st : State)
    (claims : TokenClaims)
    → (authenticate verify now users header st).0 ≡ ok claims
    → (token : Bytes) × ((extract_bearer_token header ≡ some token)
        × ((verify token ≡ ok claims) × ((is_banned now users claims.user_id st).0 ≡ false)))
unfolding authenticate
authenticate-admits verify now users header st claims e =
    let (accepted, active) =
      with_active-admits now users (authenticate_token_only verify (extract_bearer_token header)) st
        claims e in
    let (token, (found, valid)) = verified verify (extract_bearer_token header) claims accepted in
    (token, (found, (valid, active)))
