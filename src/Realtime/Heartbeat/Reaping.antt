-- ===== src/Realtime/Heartbeat/Reaping.antt =====
-- A tick leaves no silent session.
use realtime_chat.Common.{
  ℕ, ◌+◌, ◌*◌, ◌≤◌, ◌≡◌, refl, sym, ap, ◌∙◌, inl, inr, Bool, true, false, ◌&&◌, ◌||◌, Option, none,
  some, List, [], ◌∷◌, map, arith, Assoc, lookup, contains, if◌then◌else◌, Bool-cases, Bytes, codes,
  ◌==◌, bytes_eq, nat_eq,
}
use realtime_chat.Json.{obj, end}
use realtime_chat.Realtime.Protocol.{no_envelope}
use realtime_chat.Realtime.Sessions.{Session, snapshot, get_session, remove_session}
use realtime_chat.Realtime.Sessions.Laws.{get_session-remove_session}
use realtime_chat.Realtime.Connections.{ConnectionManager, send_event, unregister_session}
use realtime_chat.Realtime.Dispatcher.{
  Moment, Hub, announce_offline, announce_closed, on_close, presence_payload, handle, handle_all,
}
use realtime_chat.Conversations.Repository.{list_peer_ids}
use realtime_chat.Realtime.Dispatcher.Quiet.{sessions-send_event, sessions-publish}
use realtime_chat.Realtime.Heartbeat.{is_idle, sweep, tick, close_each}

-- The idle sessions of a list, by their connections.
unfoldable pub idle_at : ℕ → ℕ → ℕ → List Session → Bool
idle_at now timeout_ms conn [] = false
idle_at now timeout_ms conn (s ∷ ss) =
    (s.connection == conn && is_idle now timeout_ms s) || idle_at now timeout_ms conn ss

contains-sweep :
    (timestamp : Bytes) (now timeout_ms conn : ℕ) (ss : List Session) (cm : ConnectionManager)
    → (conn == 0) ≡ false
    → contains conn (sweep timestamp now timeout_ms ss cm).0 ≡ idle_at now timeout_ms conn ss
unfolding sweep contains idle_at
contains-sweep timestamp now timeout_ms conn [] cm h = refl
contains-sweep timestamp now timeout_ms conn (s ∷ ss) cm h = ground (
  arith,
  contains-sweep timestamp now timeout_ms conn ss cm h,
  contains-sweep timestamp now timeout_ms conn ss
      (send_event timestamp s.connection (codes "ping") (obj end) no_envelope cm) h,
)

sessions-sweep :
    (timestamp : Bytes) (now timeout_ms : ℕ) (ss : List Session) (cm : ConnectionManager)
    → (sweep timestamp now timeout_ms ss cm).1.sessions ≡ cm.sessions
unfolding sweep
sessions-sweep timestamp now timeout_ms [] cm = refl
sessions-sweep timestamp now timeout_ms (s ∷ ss) cm = ground (
  arith,
  sessions-sweep timestamp now timeout_ms ss cm,
  sessions-sweep timestamp now timeout_ms ss
      (send_event timestamp s.connection (codes "ping") (obj end) no_envelope cm),
  sessions-send_event timestamp s.connection (codes "ping") (obj end) no_envelope cm,
)

sessions-announce_closed :
    (clock : Moment) (s : Option Session) (h : Hub)
    → (announce_closed clock s h).connections.sessions ≡ h.connections.sessions
unfolding announce_closed announce_offline
sessions-announce_closed clock none h = refl
sessions-announce_closed clock (some s) h = ground (
  arith,
  sessions-publish clock.timestamp (list_peer_ids s.user_id h.backend.db) (codes "presence.update")
      (presence_payload s.user_id (codes "offline")) h.connections,
)

sessions-on_close :
    (clock : Moment) (conn : ℕ) (h : Hub)
    → (on_close clock conn h).connections.sessions ≡ (remove_session conn h.connections.sessions).1
unfolding on_close unregister_session
sessions-on_close clock conn h =
    sessions-announce_closed clock (remove_session conn h.connections.sessions).0
      (record h { connections = (unregister_session conn h.connections).1 })

get_session-close_each :
    (clock : Moment) (conns : List ℕ) (c : ℕ) (h : Hub)
    → get_session c (close_each clock conns h).connections.sessions
      ≡ (if contains c conns then none else get_session c h.connections.sessions)
unfolding close_each contains handle_all handle
get_session-close_each clock [] c h = refl
get_session-close_each clock (conn ∷ conns) c h = ground (
  arith,
  get_session-close_each clock conns c (on_close clock conn h),
  ap (get_session c) (sessions-on_close clock conn h),
  get_session-remove_session conn c h.connections.sessions,
)

idle_at-lookup :
    (now timeout_ms conn : ℕ) (s : Session) (m : Assoc ℕ Session)
    → lookup conn m ≡ some s
    → s.connection ≡ conn
    → is_idle now timeout_ms s ≡ true
    → idle_at now timeout_ms conn (map (λ e. e.1) m) ≡ true
unfolding lookup idle_at
idle_at-lookup now timeout_ms conn s [] e o i = ground arith
idle_at-lookup now timeout_ms conn s ((c, t) ∷ m) e o i = ground (
  arith,
  idle_at-lookup now timeout_ms conn s m,
  ap (is_idle now timeout_ms),
  ap (λ (x : Session). x.connection),
)

survivor :
    (later : Moment) (closing : List ℕ) (conn : ℕ) (h : Hub) (s : Session)
    → get_session conn (close_each later closing h).connections.sessions ≡ some s
    → (contains conn closing ≡ false) × (get_session conn h.connections.sessions ≡ some s)
survivor later closing conn h s e = ground (arith, get_session-close_each later closing conn h)

lively :
    (now timeout_ms : ℕ) (s : Session)
    → is_idle now timeout_ms s ≡ false
    → now ≤ s.last_activity_ms + timeout_ms
unfolding is_idle
lively now timeout_ms s h = ground arith

-- After a tick and the closing of the connections it asked for, every session that is still open
-- sent a frame within the timeout, provided that sessions stand under their own connections, none of
-- which is null.
pub tick-reaps :
    (clock later : Moment) (timeout conn : ℕ) (h : Hub) (s : Session)
    → (conn == 0) ≡ false
    → s.connection ≡ conn
    → get_session conn
        (close_each later (tick clock timeout h).0 (tick clock timeout h).1).connections.sessions
      ≡ some s
    → clock.now_ms ≤ s.last_activity_ms + timeout * 1000
unfolding tick snapshot get_session
tick-reaps clock later timeout conn h s z o e =
    let sm = h.connections.sessions in
    let (kept, found) = survivor later (tick clock timeout h).0 conn (tick clock timeout h).1 s e in
    let same =
      sessions-sweep clock.timestamp clock.now_ms (timeout * 1000) (snapshot sm) h.connections in
    let known : lookup conn sm.by_connection ≡ some s = ap (get_session conn) (sym same) ∙ found in
    let listed =
      contains-sweep clock.timestamp clock.now_ms (timeout * 1000) conn (snapshot sm) h.connections
        z in
    elim (Bool-cases (is_idle clock.now_ms (timeout * 1000) s)) [
      | inl i ↦ ground (
        arith,
        kept,
        listed,
        idle_at-lookup clock.now_ms (timeout * 1000) conn s sm.by_connection known o i,
      )
      | inr i ↦ lively clock.now_ms (timeout * 1000) s i
    ]
