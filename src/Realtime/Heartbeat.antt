-- ===== src/Realtime/Heartbeat.antt =====
-- The heartbeat monitor: src/realtime/heartbeat_monitor.cpp. A tick is one turn of the loop of `run`
-- at the time `now`; its waits and its thread are left out. Closing a connection only asks the
-- server, which calls the dispatcher's `on_close` later: a tick gives the connections to close.
pub mod Reaping
use realtime_chat.Common.{
  ℕ, ◌+◌, ◌*◌, Bool, List, [], ◌∷◌, ltb, if◌then◌else◌, Bytes, codes, ◌==◌, bytes_eq, nat_eq,
}
use realtime_chat.Json.{obj, end}
use realtime_chat.Realtime.Protocol.{no_envelope}
use realtime_chat.Realtime.Sessions.{Session, snapshot}
use realtime_chat.Realtime.Connections.{ConnectionManager, send_event}
use realtime_chat.Realtime.Dispatcher.{Moment, Hub, Callback, closes, handle_all}

-- More than `timeout_ms` without a frame.
unfoldable pub is_idle : ℕ → ℕ → Session → Bool
is_idle now timeout_ms s = ltb (s.last_activity_ms + timeout_ms) now

-- A closing is asked for of every idle session that has a connection; the others are pinged.
unfoldable pub sweep : Bytes → ℕ → ℕ → List Session → ConnectionManager → List ℕ × ConnectionManager
unfolding is_idle
sweep timestamp now timeout_ms [] cm = ([], cm)
sweep timestamp now timeout_ms (s ∷ ss) cm =
    let closing = sweep timestamp now timeout_ms ss cm in
    let pinging =
      sweep timestamp now timeout_ms ss
        (send_event timestamp s.connection (codes "ping") (obj end) no_envelope cm) in
    if is_idle now timeout_ms s
    then ((if s.connection == 0 then closing.0 else s.connection ∷ closing.0), closing.1)
    else pinging

-- `timeout` is in seconds.
unfoldable pub tick : Moment → ℕ → Hub → List ℕ × Hub
unfolding sweep
tick clock timeout h =
    let (closing, cm) =
      sweep clock.timestamp clock.now_ms (timeout * 1000) (snapshot h.connections.sessions)
        h.connections in
    (closing, record h { connections = cm })

-- The server's calls for the connections that were closed.
unfoldable pub close_each : Moment → List ℕ → Hub → Hub
close_each clock [] h = h
close_each clock (conn ∷ conns) h = close_each clock conns (handle_all (closes clock conn ∷ []) h)
