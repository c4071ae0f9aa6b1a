-- ===== src/Presence.antt =====
-- Who is online where: include/rtc/services/presence_service.hpp and
-- src/services/presence_service.cpp. What a method does under the lock is one step; `now` is
-- utils::now() and `at_ms` the announcement's clock. `on_connect` and `on_disconnect` publish after they
-- have left the lock: that is a step of its own, which may come after steps of other threads. What the
-- publisher is handed is logged in order.
pub mod Transitions
pub mod Counts
pub mod Replication
use realtime_chat.Common.{
  length, ℕ, zero, suc, ◌+◌, Bool, true, false, not, ◌||◌, Option, none, some, List, [], ◌∷◌, ◌++◌,
  Assoc, lookup, insert, erase, contains, add, remove, ltb, if◌then◌else◌, Bytes, ◌==◌, bytes_eq,
  nat_eq,
}

pub record PresenceDelta : Type 0 where
  pub user_id : ℕ
  pub online : Bool
  pub at_ms : ℕ

pub record Presence : Type 0 where
  -- The number of live sessions here, by user.
  pub sessions : Assoc ℕ ℕ
  pub last_seen_times : Assoc ℕ ℕ
  -- The users that each other node reports online.
  pub remote : Assoc Bytes (List ℕ)
  -- What threads that have left the lock are about to publish, in the order in which they left it.
  pub pending : List PresenceDelta
  pub announced : List PresenceDelta

abbrev pub nobody : Presence
nobody = record { sessions = []; last_seen_times = []; remote = []; pending = []; announced = [] }

unfoldable pub any_node : ℕ → Assoc Bytes (List ℕ) → Bool
any_node user [] = false
any_node user ((node, users) ∷ m) = contains user users || any_node user m

unfoldable pub online_remotely : ℕ → Presence → Bool
online_remotely user p = any_node user p.remote

abbrev is_live : Option ℕ → Bool
is_live none = false
is_live (some n) = ltb 0 n

unfoldable pub is_online_locally : ℕ → Presence → Bool
is_online_locally user p = is_live (lookup user p.sessions)

unfoldable pub online_anywhere : ℕ → Presence → Bool
unfolding is_online_locally
online_anywhere user p = if is_online_locally user p then true else online_remotely user p

abbrev pub count_of : Option ℕ → ℕ
count_of none = 0
count_of (some n) = n

abbrev announce : Bool → PresenceDelta → Presence → Presence
announce announcing delta p =
    if announcing then record p { pending = p.pending ++ (delta ∷ []) } else p

-- The delta at a place of a list, and the others.
unfoldable pub pick : ℕ → List PresenceDelta → Option (PresenceDelta × List PresenceDelta)
pick i [] = none
pick zero (d ∷ ds) = some (d, ds)
pick (suc i) (d ∷ ds) = elim (pick i ds) [ none ↦ none | some (e, es) ↦ some (e, d ∷ es) ]

-- The thread with the delta at a place publishes it.
unfoldable pub publish : ℕ → Presence → Presence
unfolding pick
publish i p = elim (pick i p.pending) [
  | none ↦ p
  | some (d, rest) ↦ record p { pending = rest; announced = p.announced ++ (d ∷ []) }
]

-- All that is pending is published, in order.
unfoldable pub publish_pending : Presence → Presence
publish_pending p = record p { pending = []; announced = p.announced ++ p.pending }

-- `on_connect` until it leaves the lock.
unfoldable pub connect_locked : ℕ → ℕ → Presence → Bool × Presence
connect_locked at_ms user p =
    let previous = count_of (lookup user p.sessions) in
    (
      not (online_anywhere user p),
      announce (previous == 0) (record { user_id = user; online = true; at_ms = at_ms })
          (record p { sessions = insert user (previous + 1) p.sessions }),
    )

-- The call with no other thread in between.
unfoldable pub on_connect : ℕ → ℕ → Presence → Bool × Presence
unfolding connect_locked publish_pending
on_connect at_ms user p =
    let (became_online, p') = connect_locked at_ms user p in (became_online, publish_pending p')

-- The user's last session here ends.
unfoldable pub last_session_ends : ℕ → ℕ → ℕ → Presence → Bool × Presence
last_session_ends now at_ms user p =
    let became_offline = not (online_remotely user p) in
    let p' = record p { sessions = erase user p.sessions } in
    let p'' =
      if became_offline
      then record p' { last_seen_times = insert user now p'.last_seen_times }
      else p' in
    (became_offline, announce true (record { user_id = user; online = false; at_ms = at_ms }) p'')

unfoldable pub one_session_less : ℕ → ℕ → ℕ → ℕ → Presence → Bool × Presence
unfolding last_session_ends
one_session_less now at_ms user zero p = (false, p)
one_session_less now at_ms user (suc zero) p = last_session_ends now at_ms user p
one_session_less now at_ms user (suc (suc n)) p =
    (false, record p { sessions = insert user (suc n) p.sessions })

-- `on_disconnect` until it leaves the lock.
unfoldable pub disconnect_locked : ℕ → ℕ → ℕ → Presence → Bool × Presence
unfolding one_session_less
disconnect_locked now at_ms user p =
    one_session_less now at_ms user (count_of (lookup user p.sessions)) p

-- The call with no other thread in between.
unfoldable pub on_disconnect : ℕ → ℕ → ℕ → Presence → Bool × Presence
unfolding disconnect_locked publish_pending
on_disconnect now at_ms user p =
    let (became_offline, p') = disconnect_locked now at_ms user p in
    (became_offline, publish_pending p')

abbrev is_none : List ℕ → Bool
is_none [] = true
is_none (x ∷ xs) = false

-- A node no longer reports a user.
drop_remote : Bytes → ℕ → List ℕ → Presence → Presence
drop_remote node user users p =
    if is_none (remove user users)
    then record p { remote = erase node p.remote }
    else record p { remote = insert node (remove user users) p.remote }

stamp_if_gone : ℕ → ℕ → Presence → Presence
stamp_if_gone now user p =
    if not (online_anywhere user p)
    then record p { last_seen_times = insert user now p.last_seen_times }
    else p

abbrev users_or_none : Option (List ℕ) → List ℕ
users_or_none none = []
users_or_none (some users) = users

unfoldable pub apply_remote : ℕ → Bytes → PresenceDelta → Presence → Presence
unfolding drop_remote stamp_if_gone
apply_remote now node delta p =
    if delta.online
    then record p {
      remote = insert node (add delta.user_id (users_or_none (lookup node p.remote))) p.remote;
    }
    else elim (lookup node p.remote) [
      | none ↦ p
      | some users ↦ stamp_if_gone now delta.user_id (drop_remote node delta.user_id users p)
    ]

unfoldable pub forget_node : Bytes → Presence → Presence
forget_node node p = record p { remote = erase node p.remote }

unfoldable pub is_online : ℕ → Presence → Bool
is_online user p = online_anywhere user p

unfoldable pub last_seen : ℕ → Presence → Option ℕ
last_seen user p = lookup user p.last_seen_times

-- The distinct users of all nodes, as `online_count` collects them.
add_all : List ℕ → List ℕ → List ℕ
add_all [] out = out
add_all (u ∷ us) out = add_all us (add u out)

live_users : Assoc ℕ ℕ → List ℕ → List ℕ
live_users [] out = out
live_users ((user, count) ∷ m) out = live_users m (if ltb 0 count then add user out else out)

remote_users : Assoc Bytes (List ℕ) → List ℕ → List ℕ
unfolding add_all
remote_users [] out = out
remote_users ((node, users) ∷ m) out = remote_users m (add_all users out)

unfoldable pub distinct_users : Presence → List ℕ
unfolding live_users remote_users
distinct_users p = remote_users p.remote (live_users p.sessions [])

abbrev is_no_node : Assoc Bytes (List ℕ) → Bool
is_no_node [] = true
is_no_node (e ∷ m) = false

unfoldable pub online_count : Presence → ℕ
unfolding distinct_users
online_count p = if is_no_node p.remote then length p.sessions else length (distinct_users p)

unfoldable pub local_online_count : Presence → ℕ
local_online_count p = length p.sessions

unfoldable pub known_peer_count : Presence → ℕ
known_peer_count p = length p.remote
