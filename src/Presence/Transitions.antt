-- ===== src/Presence/Transitions.antt =====
-- `on_connect` and `on_disconnect` report the global transitions, and only those.
use realtime_chat.Common.{
  ℕ, zero, suc, ◌+◌, ◌≡◌, refl, ◌≢◌, Bool, true, not, ◌&&◌, some, arith, lookup-insert,
  lookup-erase, lookup, if◌then◌else◌, bytes_eq, nat_eq,
}
use realtime_chat.Presence.{
  Presence, online_remotely, is_online_locally, online_anywhere, on_connect, one_session_less,
  on_disconnect, is_online, last_seen, count_of,
}

-- No user is kept with a count of zero.
abbrev pub HasLiveCounts : Presence → Type 0
HasLiveCounts p = (user : ℕ) → lookup user p.sessions ≢ some 0

-- `on_connect` makes the user online, changes nobody else's state, and returns true exactly when
-- the user was offline on every node.
pub on_connect-transition :
    (at_ms user other : ℕ) (p : Presence)
    → ((on_connect at_ms user p).0 ≡ not (is_online user p))
      × (is_online user (on_connect at_ms user p).1 ≡ true)
      × (other ≢ user → is_online other (on_connect at_ms user p).1 ≡ is_online other p)
unfolding on_connect is_online online_anywhere online_remotely is_online_locally
on_connect-transition at_ms user other p =
    let count = count_of (lookup user p.sessions) + 1 in
    (
      refl,
      ground (arith, lookup-insert user user count p.sessions),
      λ ne. ground (arith, lookup-insert other user count p.sessions),
    )

-- What `on_disconnect` has to establish: it returns true exactly when the user had a session here
-- and is offline on every node after; then the time of last sight is stamped, else it is left; and
-- nobody else's state changes.
abbrev pub IsDisconnection : ℕ → ℕ → ℕ → Presence → Bool × Presence → Type 0
IsDisconnection now user other p r =
    (r.0 ≡ (is_online_locally user p && not (is_online user r.1)))
    × (last_seen user r.1 ≡ (if r.0 then some now else last_seen user p))
    × (other ≢ user → is_online other r.1 ≡ is_online other p)

one_session_less-IsDisconnection :
    (now at_ms user other n : ℕ) (p : Presence)
    → count_of (lookup user p.sessions) ≡ n
    → IsDisconnection now user other p (one_session_less now at_ms user n p)
unfolding one_session_less is_online online_anywhere online_remotely is_online_locally last_seen
one_session_less-IsDisconnection now at_ms user other zero p e = (ground arith, refl, λ ne. refl)
one_session_less-IsDisconnection now at_ms user other (suc zero) p e = (
  ground (arith, lookup-erase user user p.sessions),
  ground (arith, lookup-insert user user now p.last_seen_times),
  λ ne. ground (arith, lookup-erase other user p.sessions),
)
one_session_less-IsDisconnection now at_ms user other (suc (suc n)) p e = (
  ground (arith, lookup-insert user user (suc n) p.sessions),
  refl,
  λ ne. ground (arith, lookup-insert other user (suc n) p.sessions),
)

-- `on_disconnect` returns true exactly when the user had a session here and is offline on every
-- node after; then the time of last sight is stamped, else it is left; nobody else's state changes.
pub on_disconnect-transition :
    (now at_ms user other : ℕ) (p : Presence)
    → IsDisconnection now user other p (on_disconnect now at_ms user p)
unfolding on_disconnect lookup is_online last_seen online_anywhere online_remotely
on_disconnect-transition now at_ms user other p =
    one_session_less-IsDisconnection now at_ms user other (count_of (lookup user p.sessions)) p refl

on_connect-HasLiveCounts :
    (at_ms user : ℕ) (p : Presence) → HasLiveCounts p → HasLiveCounts (on_connect at_ms user p).1
unfolding on_connect
on_connect-HasLiveCounts at_ms user p h u =
    ground (arith, h u, lookup-insert u user (count_of (lookup user p.sessions) + 1) p.sessions)

one_session_less-HasLiveCounts :
    (now at_ms user n : ℕ) (p : Presence)
    → HasLiveCounts p
    → HasLiveCounts (one_session_less now at_ms user n p).1
unfolding one_session_less
one_session_less-HasLiveCounts now at_ms user zero p h u = h u
one_session_less-HasLiveCounts now at_ms user (suc zero) p h u =
    ground (arith, h u, lookup-erase u user p.sessions)
one_session_less-HasLiveCounts now at_ms user (suc (suc n)) p h u =
    ground (arith, h u, lookup-insert u user (suc n) p.sessions)

-- Connecting and disconnecting never leave a user with a count of zero, so that the entries are
-- exactly the users with a session here.
pub local_counts_live :
    (now at_ms user : ℕ) (p : Presence)
    → HasLiveCounts p
    → HasLiveCounts (on_connect at_ms user p).1 × HasLiveCounts (on_disconnect now at_ms user p).1
unfolding on_disconnect
local_counts_live now at_ms user p h = (
  on_connect-HasLiveCounts at_ms user p h,
  one_session_less-HasLiveCounts now at_ms user (count_of (lookup user p.sessions)) p h,
)
