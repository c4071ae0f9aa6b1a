-- ===== src/Tests/Admission.antt =====
-- Witnesses for login sessions and for requests.
use realtime_chat.Common.{
  nat_to_string, ℕ, ◌≡◌, refl, true, false, none, some, List, [], ◌∷◌, ◌++◌, arith, lookup, insert,
  if◌then◌else◌, Bytes, codes, ◌==◌, bytes_eq, nat_eq, pos,
}
use realtime_chat.Errors.{Result, ok}
use realtime_chat.Validation.{tolower}
use realtime_chat.Cache.Store.{set, get}
use realtime_chat.Authorization.{Users, State, is_banned, require_active}
use realtime_chat.Security.Sessions.{
  LoginSession, is_active, find_session, revoke_all, TokenClaims, SessionCall, rotates, cleans,
  accept, rotate, calls,
}
use realtime_chat.Security.Sessions.Rotation.{is_ok, rotate-once}
use realtime_chat.Security.Sessions.Logout.{is_ok_for, revoke_all-refuses}
use realtime_chat.Http.Versioning.{parse_versioned_path, before_handle}
use realtime_chat.Http.Versioning.Paths.{before_handle-label}
use realtime_chat.Http.Auth.{
  ltrim, after_scheme, extract_bearer_token, authenticate_token_only, authenticate,
}
use realtime_chat.Http.Auth.Bearer.{authenticate-admits}

abbrev version_nine : ℕ
version_nine = 9

-- A hash without collisions, and a check that accepts every token.
abbrev plain : Bytes → Bytes
plain token = token

abbrev ann : TokenClaims
ann = record { user_id = 1; username = codes "ann" }

abbrev accept_all : Bytes → Result TokenClaims
accept_all token = ok ann

abbrev logins : List LoginSession
logins =
    record {
      id = codes "s1";
      user_id = 1;
      refresh_token_hash = codes "old";
      last_used_at = 5;
      expires_at = 90;
      revoked_at = none;
    }
    ∷ []

abbrev later_calls : List SessionCall
later_calls = cleans 15 ∷ rotates 16 (codes "new") (codes "s1") (codes "newer") ∷ []

abbrev nobody_banned : Users
nobody_banned = record { find_role = λ u. none; is_banned = λ u. some false }

abbrev empty_state : State
empty_state = record {
  cache = record { strings = []; sets = [] };
  cache_ttl = pos 30;
  hits = 0;
  misses = 0;
  announced = [];
}

rotate-once_example :
    is_ok plain accept_all (
      accept plain accept_all 20 (codes "old") (codes "s1") (
        calls plain accept_all later_calls
          (rotate plain accept_all 10 (codes "old") (codes "s1") (codes "new") logins).1))
    ≡ false
unfolding rotate accept find_session is_active
rotate-once_example =
    rotate-once plain accept_all 10 20 (codes "old") (codes "s1") (codes "new") later_calls logins
      refl refl refl

revoke_all-refuses_example :
    is_ok_for 1 (
      accept plain accept_all 20
        (codes "old")
        (codes "s1")
        (calls plain accept_all later_calls (revoke_all 10 1 logins).1))
    ≡ false
revoke_all-refuses_example =
    revoke_all-refuses plain accept_all 10 20 1 (codes "old") (codes "s1") later_calls logins refl

before_handle-label_example :
    (parse_versioned_path (codes "/api/v" ++ (nat_to_string version_nine ++ (codes "/users")))
      ≡ record {
        has_prefix = true;
        version = version_nine;
        normalised = codes "/api" ++ (codes "/users");
      })
    × (before_handle (codes "/api/v" ++ (nat_to_string version_nine ++ (codes "/users"))) ≡ (
        if version_nine == 1 then (record { version = 1; explicit_prefix = true }, none) else (
          record { version = 1; explicit_prefix = true },
          some (record {
            code = 404;
            api_version = codes "v1";
            error_code = codes "unsupported_api_version";
            message =
                codes "Unsupported API version: " ++ (codes "v" ++ nat_to_string version_nine);
            details = codes "supported=v1";
          }),
        )))
before_handle-label_example = before_handle-label version_nine (codes "/users") (omega arith) refl

authenticate-admits_example :
    (token : Bytes) × ((extract_bearer_token (codes "bearer abc") ≡ some token)
      × ((accept_all token ≡ ok ann)
          × ((is_banned 10 nobody_banned ann.user_id empty_state).0 ≡ false)))
unfolding authenticate authenticate_token_only extract_bearer_token ltrim after_scheme tolower
    require_active is_banned get set lookup insert
authenticate-admits_example =
    authenticate-admits accept_all 10 nobody_banned (codes "bearer abc") empty_state ann refl
