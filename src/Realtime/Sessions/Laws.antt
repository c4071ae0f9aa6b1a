-- ===== src/Realtime/Sessions/Laws.antt =====
-- The two indexes of the session registry agree as long as a connection that is registered again
-- belongs to the same user.
use realtime_chat.Common.{
  ℕ, ◌≡◌, refl, inl, inr, Bool, true, false, ◌&&◌, ◌||◌, Option, none, some, List, [], ◌∷◌, arith,
  lookup-insert, lookup-erase, lookup, contains, nat_beq, if◌then◌else◌, Option-cases, nat_eq,
  Bytes, bytes_eq,
}
use realtime_chat.Realtime.Multimap.{values, values-put, values-drop}
use realtime_chat.Realtime.Protocol.{Version}
use realtime_chat.Realtime.Sessions.{
  Session, SessionManager, add_session, remove_session, get_session, sessions_for,
  sessions_for_user, touch,
}

-- Whether a registered session is one of the user's.
abbrev pub is_of : ℕ → Option Session → Bool
is_of user none = false
is_of user (some s) = nat_beq s.user_id user

-- A session is registered under its own connection.
abbrev pub HasConnection : ℕ → Option Session → Type 0
HasConnection conn none = Unit {0}
HasConnection conn (some s) = s.connection ≡ conn

pub record IsIndexed (sm : SessionManager) : Type 0 where
  pub agree :
      (user conn : ℕ)
      → contains conn (values user sm.by_user) ≡ is_of user (lookup conn sm.by_connection)
  pub own : (conn : ℕ) → HasConnection conn (lookup conn sm.by_connection)

-- What the registry may be told of a new connection: it is unknown, or it is the same user's.
abbrev pub IsFreshFor : ℕ → Option Session → Type 0
IsFreshFor user none = Unit {0}
IsFreshFor user (some s) = s.user_id ≡ user

-- Adding a session for such a connection keeps the two indexes in agreement.
pub add_session-IsIndexed :
    (conn user : ℕ) (name : Bytes) (version : Version) (sm : SessionManager)
    → IsFreshFor user (lookup conn sm.by_connection)
    → IsIndexed sm
    → IsIndexed (add_session conn user name version sm).1
unfolding add_session
add_session-IsIndexed conn user name version sm fresh h = record {
  agree = λ u c. ground (
    arith,
    h.agree u c,
    values-put u user c conn sm.by_user,
    lookup-insert c conn (add_session conn user name version sm).0 sm.by_connection,
  );
  own = λ c. ground (
    arith,
    h.own c,
    lookup-insert c conn (add_session conn user name version sm).0 sm.by_connection,
  );
}

-- Removing a connection, registered or not, keeps the two indexes in agreement if they agreed.
pub remove_session-IsIndexed :
    (conn : ℕ) (sm : SessionManager) → IsIndexed sm → IsIndexed (remove_session conn sm).1
unfolding remove_session
remove_session-IsIndexed conn sm h = elim (Option-cases (lookup conn sm.by_connection)) [
  | inl e ↦ rw (e, remove_session) h
  | inr (s, e) ↦
      rw (e, remove_session)
        (record {
          agree = λ u c. ground (
            arith,
            h.agree u c,
            values-drop u s.user_id c conn sm.by_user,
            lookup-erase c conn sm.by_connection,
          );
          own = λ c. ground (arith, h.own c, lookup-erase c conn sm.by_connection);
        })
]

pub touch-IsIndexed :
    (conn now_ms : ℕ) (sm : SessionManager) → IsIndexed sm → IsIndexed (touch conn now_ms sm)
unfolding touch
touch-IsIndexed conn now_ms sm h = elim (Option-cases (lookup conn sm.by_connection)) [
  | inl e ↦ rw (e, touch) h
  | inr (s, e) ↦
      rw (e, touch)
        (record {
          agree = λ u c. ground (
            arith,
            h.agree u c,
            lookup-insert c conn (record s { last_activity_ms = now_ms }) sm.by_connection,
          );
          own = λ c. ground (
            arith,
            h.own c,
            h.own conn,
            lookup-insert c conn (record s { last_activity_ms = now_ms }) sm.by_connection,
          );
        })
]

-- Some session in a list has the given connection.
abbrev pub reaches : ℕ → List Session → Bool
reaches conn [] = false
reaches conn (s ∷ ss) = nat_beq s.connection conn || reaches conn ss

abbrev is_known : Option Session → Bool
is_known none = false
is_known (some s) = true

reaches-sessions_for :
    (conn : ℕ) (conns : List ℕ) (sm : SessionManager)
    → IsIndexed sm
    → reaches conn (sessions_for conns sm)
      ≡ (contains conn conns && is_known (lookup conn sm.by_connection))
unfolding sessions_for contains
reaches-sessions_for conn [] sm h = refl
reaches-sessions_for conn (c ∷ conns) sm h =
    ground (arith, h.own c, reaches-sessions_for conn conns sm h)

-- Where the two indexes agree, the sessions found for a user are exactly the registered sessions
-- with that user id.
pub reaches-sessions_for_user :
    (user conn : ℕ) (sm : SessionManager)
    → IsIndexed sm
    → reaches conn (sessions_for_user user sm) ≡ is_of user (lookup conn sm.by_connection)
unfolding sessions_for_user
reaches-sessions_for_user user conn sm h =
    ground (arith, h.agree user conn, reaches-sessions_for conn (values user sm.by_user) sm h)

-- After a connection is removed its session is gone, and every other one is what it was.
pub get_session-remove_session :
    (conn c : ℕ) (sm : SessionManager)
    → ((remove_session conn sm).0 ≡ get_session conn sm)
      × (get_session c (remove_session conn sm).1
          ≡ (if nat_beq c conn then none else get_session c sm))
unfolding get_session remove_session
get_session-remove_session conn c sm = ground (arith, lookup-erase c conn sm.by_connection)
