-- ===== src/Tests/Presence.antt =====
-- Witnesses for presence, validation and roles.
use realtime_chat.Common.{
  ℕ, ◌≡◌, refl, ◌↔◌, true, false, none, some, List, [], ◌∷◌, arith, lookup, insert, codes, bytes_eq,
  nat_eq,
}
use realtime_chat.Security.Role.{admin, super_admin, can_assign_role}
use realtime_chat.Security.Role.Laws.{can_assign_role_iff}
use realtime_chat.Presence.{
  Presence, nobody, is_online_locally, pick, publish, connect_locked, one_session_less,
  disconnect_locked,
}
use realtime_chat.Presence.Transitions.{HasLiveCounts}
use realtime_chat.Presence.Replication.{
  is_reported, apply_all, Step, connects, disconnects, publishes, step, run, KeepsOrder,
  announcements_replicate,
}
use realtime_chat.Validation.{matches_email, RegisterRequest, UpdateProfileRequest}
use realtime_chat.Validation.Email.{IsEmail, matches_email_iff}

abbrev ann : ℕ
ann = 7

abbrev bob : ℕ
bob = 8

abbrev nobody_here : Presence
nobody_here = record nobody { remote = (codes "n2", 7 ∷ []) ∷ [] }

-- User 8 connects before the announcement about user 7 is published, and is announced first.
abbrev two_threads : List Step
two_threads = connects 7 ∷ connects 8 ∷ connects 7 ∷ publishes 1 ∷ disconnects 7 ∷ publishes 0 ∷ []

two_threads-KeepsOrder : KeepsOrder 90 two_threads nobody
unfolding KeepsOrder run step connect_locked disconnect_locked one_session_less publish pick insert
    lookup
two_threads-KeepsOrder = ((λ e es h. ground arith, tt), (tt, tt))

no_sessions-HasLiveCounts : HasLiveCounts nobody_here
unfolding lookup
no_sessions-HasLiveCounts x = λ e. ground arith

abbrev registration : RegisterRequest
registration = record {
  username = codes " ann";
  email = codes "Ann@example.org ";
  password = codes "password";
}

abbrev normal : RegisterRequest
normal = record {
  username = codes "ann";
  email = codes "ann@example.org";
  password = codes "password";
}

abbrev profile : UpdateProfileRequest
profile = record {
  display_name_set = true;
  display_name = some (codes "Ann");
  bio_set = false;
  bio = none;
  avatar_url_set = true;
  avatar_url = some (codes "https://e.org");
}

announcements_replicate_example :
    is_reported
      (codes "n3")
      7
      (apply_all 90 (codes "n3") (run 90 two_threads nobody).announced nobody_here)
    ≡ is_online_locally 7 (run 90 two_threads nobody)
unfolding lookup run step connect_locked disconnect_locked one_session_less publish pick insert
announcements_replicate_example =
    announcements_replicate 90 (codes "n3") two_threads nobody_here 7 refl two_threads-KeepsOrder
      refl

matches_email_iff_example :
    (matches_email (codes "ann@example.org") ≡ true) ↔ IsEmail (codes "ann@example.org")
matches_email_iff_example = matches_email_iff (codes "ann@example.org")

can_assign_role_iff_example : (can_assign_role admin super_admin ≡ true) ↔ (admin ≡ super_admin)
can_assign_role_iff_example = can_assign_role_iff admin super_admin
