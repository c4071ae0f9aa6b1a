-- ===== src/Realtime/Dispatcher/Quiet.antt =====
-- Frames of clients change neither the sessions, nor presence, nor the flags.
use realtime_chat.Common.{
  ℕ, ◌≡◌, refl, ap, ◌∙◌, Bool, true, false, Option, none, some, List, arith, Bytes, codes,
}
use realtime_chat.Errors.{code_for, Result, ok, err}
use realtime_chat.Json.{Json, Fields, fields}
use realtime_chat.Conversations.World.{after}
use realtime_chat.Messages.Request.{request_from_json}
use realtime_chat.Realtime.Protocol.{no_envelope, Envelope, InboundFrame}
use realtime_chat.Realtime.Sessions.{Session, sessions_for}
use realtime_chat.Realtime.Connections.{
  ConnectionManager, send_event, send_raw, publish, cluster_publish, deliver_local_to_room,
  broadcast_to_room,
}
use realtime_chat.Realtime.Connections.Delivery.{deliver_local-frames, send_to_sessions-frames}
use realtime_chat.Realtime.Rooms.{connections_in_room}
use realtime_chat.Features.{Feature}
use realtime_chat.Realtime.Failures.{Failure}
use realtime_chat.Realtime.Dispatcher.{
  envelope_of, client_event, ClientEvent, client_ping, client_send_message, client_typing_start,
  client_typing_stop, client_mark_delivered, client_mark_read, unknown_event, typing_room,
  signal_typing, send_request, receive_delivered, receive_read, read_marker, require_int, gated,
  Moment, Hub, enabled, send_error, handle_typing, handle_send_message, handle_mark_delivered,
  handle_mark_read, dispatch, report, on_frame,
}

pub sessions-send_event :
    (timestamp : Bytes) (conn : ℕ) (event : Bytes) (payload : Json) (envelope : Envelope)
    (cm : ConnectionManager)
    → (send_event timestamp conn event payload envelope cm).sessions ≡ cm.sessions
unfolding send_event send_raw
sessions-send_event timestamp conn event payload envelope cm = ground arith

pub sessions-publish :
    (timestamp : Bytes) (users : List ℕ) (event : Bytes) (payload : Json) (cm : ConnectionManager)
    → (publish timestamp users event payload cm).sessions ≡ cm.sessions
unfolding publish cluster_publish
sessions-publish timestamp users event payload cm = ground (
  arith,
  ap (λ (c : ConnectionManager). c.sessions)
      (deliver_local-frames timestamp event payload users cm),
)

sessions-broadcast_to_room :
    (timestamp : Bytes) (room : ℕ) (event : Bytes) (payload : Json) (exclude : ℕ)
    (cm : ConnectionManager)
    → (broadcast_to_room timestamp room event payload exclude cm).sessions ≡ cm.sessions
unfolding broadcast_to_room cluster_publish deliver_local_to_room
sessions-broadcast_to_room timestamp room event payload exclude cm = ground (
  arith,
  ap (λ (c : ConnectionManager). c.sessions)
      (send_to_sessions-frames timestamp event payload no_envelope exclude
        (sessions_for (connections_in_room room cm.rooms) cm.sessions) cm),
)

after-keeps :
    {A B : Type 0} {W : Type 0} (P : W → Type 0) (r : Result A) (k : A → W → Result B × W) (w : W)
    → P w
    → ((a : A) → P (k a w).1)
    → P (after r k w).1
after-keeps P (ok a) k w h f = f a
after-keeps P (err e) k w h f = h

-- A step that changes neither the sessions, nor presence, nor the flags.
pub record IsQuiet (h h' : Hub) : Type 0 where
  pub same_sessions : h'.connections.sessions ≡ h.connections.sessions
  pub same_presence : h'.presence ≡ h.presence
  pub same_flags : h'.flags ≡ h.flags

pub quiet :
    (h h' : Hub)
    → h'.connections.sessions ≡ h.connections.sessions
    → h'.presence ≡ h.presence
    → h'.flags ≡ h.flags
    → IsQuiet h h'
quiet h h' s p f = record { same_sessions = s; same_presence = p; same_flags = f }

pub IsQuiet-refl : (h : Hub) → IsQuiet h h
IsQuiet-refl h = quiet h h refl refl refl

IsQuiet-trans : (a b c : Hub) → IsQuiet a b → IsQuiet b c → IsQuiet a c
IsQuiet-trans a b c p q =
    quiet a c (q.same_sessions ∙ p.same_sessions) (q.same_presence ∙ p.same_presence)
      (q.same_flags ∙ p.same_flags)

send_error-IsQuiet :
    (clock : Moment) (conn : ℕ) (code message : Bytes) (envelope : Envelope) (h : Hub)
    → IsQuiet h (send_error clock conn code message envelope h)
unfolding send_error
send_error-IsQuiet clock conn code message envelope h =
    quiet h _ (sessions-send_event clock.timestamp conn (codes "error") _ envelope h.connections)
      refl refl

handle_typing-IsQuiet :
    (clock : Moment) (conn user : ℕ) (name : Bytes) (fs : Fields) (starting : Bool) (h : Hub)
    → IsQuiet h (handle_typing clock conn user name fs starting h).1
unfolding handle_typing signal_typing
handle_typing-IsQuiet clock conn user name fs starting h =
    after-keeps (IsQuiet h) (typing_room clock.failure user fs h)
      (signal_typing clock conn user name starting) h (IsQuiet-refl h)
      (λ room.
        quiet h (signal_typing clock conn user name starting room h).1
          (sessions-broadcast_to_room clock.timestamp room _ _ conn h.connections) refl refl)

handle_send_message-IsQuiet :
    (failure : Failure) (user : ℕ) (payload : Json) (h : Hub)
    → IsQuiet h (handle_send_message failure user payload h).1
unfolding handle_send_message send_request
handle_send_message-IsQuiet failure user payload h =
    after-keeps (IsQuiet h) (request_from_json payload) (send_request failure user) h
      (IsQuiet-refl h) (λ r. quiet h (send_request failure user r h).1 refl refl refl)

handle_mark_delivered-IsQuiet :
    (failure : Failure) (user : ℕ) (fs : Fields) (h : Hub)
    → IsQuiet h (handle_mark_delivered failure user fs h).1
unfolding handle_mark_delivered receive_delivered
handle_mark_delivered-IsQuiet failure user fs h =
    after-keeps (IsQuiet h) (require_int fs "message_id") (receive_delivered failure user) h
      (IsQuiet-refl h) (λ m. quiet h (receive_delivered failure user m h).1 refl refl refl)

handle_mark_read-IsQuiet :
    (failure : Failure) (user : ℕ) (fs : Fields) (h : Hub)
    → IsQuiet h (handle_mark_read failure user fs h).1
unfolding handle_mark_read receive_read
handle_mark_read-IsQuiet failure user fs h =
    after-keeps (IsQuiet h) (read_marker fs) (receive_read failure user) h (IsQuiet-refl h)
      (λ (room, up_to). quiet h (receive_read failure user (room, up_to) h).1 refl refl refl)

gated-IsQuiet :
    (on : Bool) (handler : Hub → Result (Unit {0}) × Hub) (h : Hub)
    → IsQuiet h (handler h).1
    → IsQuiet h (gated on handler h).1
gated-IsQuiet true handler h q = q
gated-IsQuiet false handler h q = IsQuiet-refl h

report-IsQuiet :
    (clock : Moment) (conn : ℕ) (envelope : Envelope) (h : Hub) (r : Result (Unit {0}) × Hub)
    → IsQuiet h r.1
    → IsQuiet h (report clock conn envelope r)
unfolding report
report-IsQuiet clock conn envelope h (ok u, h') q = q
report-IsQuiet clock conn envelope h (err e, h') q =
    IsQuiet-trans h h' _ q
      (send_error-IsQuiet clock conn (code_for e.type) (codes e.message) envelope h')

dispatch-IsQuiet :
    (clock : Moment) (conn : ℕ) (s : Session) (frame : InboundFrame) (e : ClientEvent) (h : Hub)
    → IsQuiet h (dispatch clock conn s frame e h).1
unfolding dispatch
dispatch-IsQuiet clock conn s frame client_ping h =
    quiet h _
      (sessions-send_event clock.timestamp conn (codes "pong") _ (envelope_of frame) h.connections)
      refl refl
dispatch-IsQuiet clock conn s frame client_send_message h =
    handle_send_message-IsQuiet clock.failure s.user_id frame.payload h
dispatch-IsQuiet clock conn s frame client_typing_start h =
    gated-IsQuiet (enabled Feature.typing h) _ h
      (handle_typing-IsQuiet clock conn s.user_id s.username (fields frame.payload) true h)
dispatch-IsQuiet clock conn s frame client_typing_stop h =
    gated-IsQuiet (enabled Feature.typing h) _ h
      (handle_typing-IsQuiet clock conn s.user_id s.username (fields frame.payload) false h)
dispatch-IsQuiet clock conn s frame client_mark_delivered h =
    gated-IsQuiet (enabled Feature.read_receipts h) _ h
      (handle_mark_delivered-IsQuiet clock.failure s.user_id (fields frame.payload) h)
dispatch-IsQuiet clock conn s frame client_mark_read h =
    gated-IsQuiet (enabled Feature.read_receipts h) _ h
      (handle_mark_read-IsQuiet clock.failure s.user_id (fields frame.payload) h)
dispatch-IsQuiet clock conn s frame unknown_event h =
    send_error-IsQuiet clock conn (codes "validation_error") (codes "Unknown event type")
      (envelope_of frame) h

pub on_frame-IsQuiet :
    (clock : Moment) (conn : ℕ) (s : Option Session) (frame : Option InboundFrame) (h : Hub)
    → IsQuiet h (on_frame clock conn s frame h)
unfolding on_frame
on_frame-IsQuiet clock conn none frame h = IsQuiet-refl h
on_frame-IsQuiet clock conn (some s) none h =
    send_error-IsQuiet clock conn (codes "validation_error") (codes "Malformed event envelope")
      no_envelope h
on_frame-IsQuiet clock conn (some s) (some frame) h =
    report-IsQuiet clock conn (envelope_of frame) h
      (dispatch clock conn s frame (client_event frame.event) h)
      (dispatch-IsQuiet clock conn s frame (client_event frame.event) h)
