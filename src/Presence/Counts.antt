-- ===== src/Presence/Counts.antt =====
-- How the sessions that presence counts for a user change.
use realtime_chat.Common.{
  ℕ, zero, suc, ◌+◌, ◌-◌, ◌≡◌, refl, arith, lookup-insert, lookup-erase, lookup, if◌then◌else◌,
  ◌==◌, bytes_eq, nat_eq,
}
use realtime_chat.Presence.{Presence, on_connect, one_session_less, on_disconnect, count_of}

unfoldable pub count_at : ℕ → Presence → ℕ
count_at user p = count_of (lookup user p.sessions)

pub count_at-on_connect :
    (at_ms user other : ℕ) (p : Presence)
    → count_at other (on_connect at_ms user p).1
      ≡ count_at other p + (if user == other then 1 else 0)
unfolding count_at on_connect
count_at-on_connect at_ms user other p =
    ground (arith, lookup-insert other user (count_of (lookup user p.sessions) + 1) p.sessions)

count_at-one_session_less :
    (now at_ms user other n : ℕ) (p : Presence)
    → count_at user p ≡ n
    → count_at other (one_session_less now at_ms user n p).1
      ≡ count_at other p - (if user == other then 1 else 0)
unfolding count_at one_session_less
count_at-one_session_less now at_ms user other zero p e = ground arith
count_at-one_session_less now at_ms user other (suc zero) p e =
    ground (arith, lookup-erase other user p.sessions)
count_at-one_session_less now at_ms user other (suc (suc n)) p e =
    ground (arith, lookup-insert other user (suc n) p.sessions)

pub count_at-on_disconnect :
    (now at_ms user other : ℕ) (p : Presence)
    → count_at other (on_disconnect now at_ms user p).1
      ≡ count_at other p - (if user == other then 1 else 0)
unfolding count_at on_disconnect
count_at-on_disconnect now at_ms user other p =
    count_at-one_session_less now at_ms user other (count_of (lookup user p.sessions)) p refl
