-- ===== src/Realtime/Sessions.antt =====
-- The session registry: src/realtime/session_manager.cpp, over the struct of
-- include/rtc/realtime/session.hpp. A connection is the number of its address, 0 for null. The maps
-- hold the sessions by value: `touch`, the one writer behind the shared pointers, writes the entry.
pub mod Laws
pub mod Live
use realtime_chat.Common.{
  length, ℕ, Option, none, some, List, [], ◌∷◌, map, Assoc, lookup, insert, erase, nat_eq, Bytes,
  bytes_eq,
}
use realtime_chat.Realtime.Multimap.{Multimap, values, put, drop}
use realtime_chat.Realtime.Protocol.{Version}

pub record Session : Type 0 where
  pub connection : ℕ
  pub user_id : ℕ
  pub username : Bytes
  pub protocol_version : Version
  pub last_activity_ms : ℕ

pub record SessionManager : Type 0 where
  pub by_connection : Assoc ℕ Session
  pub by_user : Multimap

abbrev pub no_sessions : SessionManager
no_sessions = record { by_connection = []; by_user = [] }

unfoldable pub add_session : ℕ → ℕ → Bytes → Version → SessionManager → Session × SessionManager
add_session conn user_id username version sm =
    let session : Session = record {
      connection = conn;
      user_id = user_id;
      username = username;
      protocol_version = version;
      last_activity_ms = 0;
    } in
    (
      session,
      record {
        by_connection = insert conn session sm.by_connection;
        by_user = put user_id conn sm.by_user;
      },
    )

unfoldable pub remove_session : ℕ → SessionManager → Option Session × SessionManager
remove_session conn sm = elim (lookup conn sm.by_connection) [
  | none ↦ (none, sm)
  | some session ↦ (
    some session,
    record {
      by_connection = erase conn sm.by_connection;
      by_user = drop session.user_id conn sm.by_user;
    },
  )
]

unfoldable pub get_session : ℕ → SessionManager → Option Session
get_session conn sm = lookup conn sm.by_connection

unfoldable pub connections_for_user : ℕ → SessionManager → List ℕ
connections_for_user user_id sm = values user_id sm.by_user

abbrev cons_some : Option Session → List Session → List Session
cons_some none out = out
cons_some (some s) out = s ∷ out

unfoldable pub sessions_for : List ℕ → SessionManager → List Session
sessions_for [] sm = []
sessions_for (conn ∷ conns) sm = cons_some (lookup conn sm.by_connection) (sessions_for conns sm)

unfoldable pub sessions_for_user : ℕ → SessionManager → List Session
sessions_for_user user_id sm = sessions_for (values user_id sm.by_user) sm

unfoldable pub snapshot : SessionManager → List Session
snapshot sm = map (λ e. e.1) sm.by_connection

unfoldable pub touch : ℕ → ℕ → SessionManager → SessionManager
touch conn now_ms sm = elim (lookup conn sm.by_connection) [
  | none ↦ sm
  | some session ↦ record sm {
    by_connection = insert conn (record session { last_activity_ms = now_ms }) sm.by_connection;
  }
]

unfoldable pub session_count : SessionManager → ℕ
session_count sm = length sm.by_connection
