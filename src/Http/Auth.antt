-- ===== src/Http/Auth.antt =====
-- The authentication of requests: src/middlewares/auth_middleware.cpp. The check of the token is the
-- token service's and a parameter; the account's state is read by the authorization service.
pub mod Bearer
use realtime_chat.Common.{
  length, ℕ, Bool, ◌||◌, Option, none, some, [], ◌∷◌, leb, if◌then◌else◌, Bytes, codes, ◌==◌,
  bytes_eq, nat_eq,
}
use realtime_chat.Errors.{Result, ok, err, throw, authentication}
use realtime_chat.Validation.{tolower}
use realtime_chat.Security.Sessions.{TokenClaims}
use realtime_chat.Authorization.{State, Users, require_active}

abbrev pub is_blank : ℕ → Bool
is_blank c = c == 32 || c == 9

unfoldable pub ltrim : Bytes → Bytes
ltrim [] = []
ltrim (c ∷ s) = let rest = ltrim s in if is_blank c then rest else c ∷ s

-- What follows a scheme that is spelled in any case, and the space after it.
unfoldable pub after_scheme : Bytes → Bytes → Option Bytes
after_scheme [] [] = none
after_scheme [] (c ∷ s) = if c == 32 then some s else none
after_scheme (p ∷ ps) [] = none
after_scheme (p ∷ ps) (c ∷ s) =
    let rest = after_scheme ps s in if tolower p == tolower c then rest else none

abbrev pub non_empty : Bytes → Option Bytes
non_empty [] = none
non_empty (c ∷ s) = some (c ∷ s)

abbrev pub token_of : Option Bytes → Option Bytes
token_of none = none
token_of (some rest) = non_empty (ltrim rest)

-- The test of the length, which the source makes first, rejects what has no token after the scheme.
unfoldable pub extract_bearer_token : Bytes → Option Bytes
unfolding ltrim after_scheme
extract_bearer_token header =
    let view = ltrim header in
    if leb (length view) 7 then none else token_of (after_scheme (codes "Bearer") view)

unfoldable pub authenticate_token_only :
    (Bytes → Result TokenClaims) → Option Bytes → Result TokenClaims
authenticate_token_only verify none =
    throw authentication "Missing or malformed Authorization header" []
authenticate_token_only verify (some token) = verify token

abbrev pub checked : Result (Unit {0}) × State → TokenClaims → Result TokenClaims × State
checked (ok u, st) claims = (ok claims, st)
checked (err e, st) claims = (err e, st)

abbrev pub with_active : ℕ → Users → Result TokenClaims → State → Result TokenClaims × State
with_active now users (ok claims) st = checked (require_active now users claims.user_id st) claims
with_active now users (err e) st = (err e, st)

-- With an authorization service attached.
unfoldable pub authenticate :
    (Bytes → Result TokenClaims) → ℕ → Users → Bytes → State → Result TokenClaims × State
unfolding authenticate_token_only extract_bearer_token
authenticate verify now users header st =
    with_active now users (authenticate_token_only verify (extract_bearer_token header)) st
