-- ===== src/Realtime/Dispatcher/Isolation.antt =====
-- A frame that a service refuses, and presence that is switched off between an open and a close.
use realtime_chat.Common.{
  ℕ, ◌≡◌, refl, ap, ◌∙◌, ◌≢◌, inl, inr, Bool, true, false, Option, none, some, arith, lookup-erase,
  lookup, Option-cases, Bytes, codes, bytes_eq, nat_eq,
}
use realtime_chat.Errors.{Result, ok, err, code_for, AppException, database}
use realtime_chat.Json.{Json, Fields, fields}
use realtime_chat.Features.{Feature, FeatureFlags, is_enabled}
use realtime_chat.Conversations.World.{after}
use realtime_chat.Messages.Request.{request_from_json}
use realtime_chat.Messages.Service.{MessageWorld, SendMessageRequest, send, deliver_stored}
use realtime_chat.Realtime.Failures.{
  Failure, no_failure, first_fails, later_fails, last_fails, send_failing, mark_delivered_failing,
  mark_read_failing, at_first,
}
use realtime_chat.Receipts.{ReceiptWorld, mark_delivered, mark_read}
use realtime_chat.Presence.{is_online_locally, on_connect}
use realtime_chat.Presence.Counts.{count_at, count_at-on_connect}
use realtime_chat.Realtime.Protocol.{Envelope, Version, InboundFrame, decode}
use realtime_chat.Realtime.Sessions.{Session, SessionManager, get_session, remove_session}
use realtime_chat.Realtime.Connections.{unregister_session}
use realtime_chat.Realtime.Dispatcher.Counts.{announce_online-IsAnnounced, on_open-joined}
use realtime_chat.Realtime.Dispatcher.{
  enabled, open_session, on_open, send_error, require_int, typing_room, signal_typing,
  handle_typing, send_request, handle_send_message, receipt_world, with_receipts, receive_delivered,
  handle_mark_delivered, read_marker, receive_read, handle_mark_read, gated, envelope_of,
  client_event, dispatch, report, on_frame, touched, on_message, announce_offline, announce_closed,
  on_close, Moment, Hub, ClientEvent, client_ping, client_send_message, client_typing_start,
  client_typing_stop, client_mark_delivered, client_mark_read, unknown_event,
}

-- A handler that throws anything but a database exception has changed nothing.
IsAtomic : Hub → Result (Unit {0}) × Hub → Type 0
IsAtomic h r = (e : AppException) → e.type ≢ database → r.0 ≡ err e → r.1 ≡ h

after-IsAtomic :
    {A : Type 0} (r : Result A) (k : A → Hub → Result (Unit {0}) × Hub) (h : Hub)
    → ((a : A) → IsAtomic h (k a h))
    → IsAtomic h (after r k h)
unfolding IsAtomic
after-IsAtomic (ok a) k h f = f a
after-IsAtomic (err x) k h f = λ e d q. refl

send-unchanged :
    (failure : Failure) (actor : ℕ) (r : SendMessageRequest) (w : MessageWorld) (e : AppException)
    → e.type ≢ database
    → (send_failing failure actor r w).0 ≡ err e
    → (send_failing failure actor r w).1 ≡ w
unfolding send_failing send deliver_stored
send-unchanged no_failure actor r w e d q = ground arith
send-unchanged (first_fails what) actor r w e d q = refl
send-unchanged (later_fails what) actor r w e d q = ground arith
send-unchanged (last_fails what) actor r w e d q = ground arith

mark_delivered-unchanged :
    (failure : Failure) (actor message : ℕ) (w : ReceiptWorld) (e : AppException)
    → e.type ≢ database
    → (mark_delivered_failing failure actor message w).0 ≡ err e
    → (mark_delivered_failing failure actor message w).1 ≡ w
unfolding mark_delivered_failing mark_delivered
mark_delivered-unchanged no_failure actor message w e d q = ground arith
mark_delivered-unchanged (first_fails what) actor message w e d q = refl
mark_delivered-unchanged (later_fails what) actor message w e d q = ground arith
mark_delivered-unchanged (last_fails what) actor message w e d q = ground arith

mark_read-unchanged :
    (failure : Failure) (actor room up_to : ℕ) (w : ReceiptWorld) (e : AppException)
    → e.type ≢ database
    → (mark_read_failing failure actor room up_to w).0 ≡ err e
    → (mark_read_failing failure actor room up_to w).1 ≡ w
unfolding mark_read_failing mark_read
mark_read-unchanged no_failure actor room up_to w e d q = ground arith
mark_read-unchanged (first_fails what) actor room up_to w e d q = refl
mark_read-unchanged (later_fails what) actor room up_to w e d q = ground arith
mark_read-unchanged (last_fails what) actor room up_to w e d q = ground arith

send_request-IsAtomic :
    (failure : Failure) (user : ℕ) (r : SendMessageRequest) (h : Hub)
    → IsAtomic h (send_request failure user r h)
unfolding IsAtomic send_request
send_request-IsAtomic failure user r h e d q =
    ground (arith, send-unchanged failure user r h.backend e d)

receive_delivered-IsAtomic :
    (failure : Failure) (user message : ℕ) (h : Hub)
    → IsAtomic h (receive_delivered failure user message h)
unfolding IsAtomic receive_delivered
receive_delivered-IsAtomic failure user message h e d q =
    ap (λ w. with_receipts w h)
      (mark_delivered-unchanged failure user message (receipt_world h) e d q)

receive_read-IsAtomic :
    (failure : Failure) (user : ℕ) (a : ℕ × ℕ) (h : Hub)
    → IsAtomic h (receive_read failure user a h)
unfolding IsAtomic receive_read
receive_read-IsAtomic failure user (room, up_to) h e d q =
    ap (λ w. with_receipts w h)
      (mark_read-unchanged failure user room up_to (receipt_world h) e d q)

ok-IsAtomic : (h h' : Hub) → IsAtomic h (ok tt, h')
unfolding IsAtomic
ok-IsAtomic h h' e d q = ground arith

gated-IsAtomic :
    (on : Bool) (handler : Hub → Result (Unit {0}) × Hub) (h : Hub)
    → IsAtomic h (handler h)
    → IsAtomic h (gated on handler h)
gated-IsAtomic true handler h a = a
gated-IsAtomic false handler h a = ok-IsAtomic h h

handle_typing-IsAtomic :
    (clock : Moment) (conn user : ℕ) (name : Bytes) (fs : Fields) (starting : Bool) (h : Hub)
    → IsAtomic h (handle_typing clock conn user name fs starting h)
unfolding handle_typing signal_typing
handle_typing-IsAtomic clock conn user name fs starting h =
    after-IsAtomic (typing_room clock.failure user fs h)
      (signal_typing clock conn user name starting) h (λ room. ok-IsAtomic h _)

handle_mark_delivered-IsAtomic :
    (failure : Failure) (user : ℕ) (fs : Fields) (h : Hub)
    → IsAtomic h (handle_mark_delivered failure user fs h)
unfolding handle_mark_delivered
handle_mark_delivered-IsAtomic failure user fs h =
    after-IsAtomic (require_int fs "message_id") (receive_delivered failure user) h
      (λ m. receive_delivered-IsAtomic failure user m h)

handle_mark_read-IsAtomic :
    (failure : Failure) (user : ℕ) (fs : Fields) (h : Hub)
    → IsAtomic h (handle_mark_read failure user fs h)
unfolding handle_mark_read
handle_mark_read-IsAtomic failure user fs h =
    after-IsAtomic (read_marker fs) (receive_read failure user) h
      (λ a. receive_read-IsAtomic failure user a h)

dispatch-IsAtomic :
    (clock : Moment) (conn : ℕ) (s : Session) (frame : InboundFrame) (e : ClientEvent) (h : Hub)
    → IsAtomic h (dispatch clock conn s frame e h)
unfolding dispatch handle_send_message
dispatch-IsAtomic clock conn s frame client_ping h = ok-IsAtomic h _
dispatch-IsAtomic clock conn s frame client_send_message h =
    after-IsAtomic (request_from_json frame.payload) (send_request clock.failure s.user_id) h
      (λ r. send_request-IsAtomic clock.failure s.user_id r h)
dispatch-IsAtomic clock conn s frame client_typing_start h =
    gated-IsAtomic (enabled Feature.typing h) _ h
      (handle_typing-IsAtomic clock conn s.user_id s.username (fields frame.payload) true h)
dispatch-IsAtomic clock conn s frame client_typing_stop h =
    gated-IsAtomic (enabled Feature.typing h) _ h
      (handle_typing-IsAtomic clock conn s.user_id s.username (fields frame.payload) false h)
dispatch-IsAtomic clock conn s frame client_mark_delivered h =
    gated-IsAtomic (enabled Feature.read_receipts h) _ h
      (handle_mark_delivered-IsAtomic clock.failure s.user_id (fields frame.payload) h)
dispatch-IsAtomic clock conn s frame client_mark_read h =
    gated-IsAtomic (enabled Feature.read_receipts h) _ h
      (handle_mark_read-IsAtomic clock.failure s.user_id (fields frame.payload) h)
dispatch-IsAtomic clock conn s frame unknown_event h = ok-IsAtomic h _

report-err :
    (clock : Moment) (conn : ℕ) (envelope : Envelope) (r : Result (Unit {0}) × Hub)
    (e : AppException)
    → r.0 ≡ err e
    → report clock conn envelope r
      ≡ send_error clock conn (code_for e.type) (codes e.message) envelope r.1
unfolding report
report-err clock conn envelope (ok u, h) e q = ground arith
report-err clock conn envelope (err x, h) e q = ground arith

-- A frame of an open session whose handling throws one of the program's exceptions other than a
-- database exception has one effect besides the time of activity: an error frame to that connection,
-- with the exception's code and message and the ids of the frame.
pub on_message-refused :
    (clock : Moment) (conn : ℕ) (text : Option Json) (h : Hub) (s : Session) (frame : InboundFrame)
    (e : AppException)
    → e.type ≢ database
    → decode text ≡ some frame
    → get_session conn (touched clock.now_ms conn h).connections.sessions ≡ some s
    → (dispatch clock conn s frame (client_event frame.event) (touched clock.now_ms conn h)).0
      ≡ err e
    → on_message clock conn text h
      ≡ send_error clock conn
          (code_for e.type)
          (codes e.message)
          (envelope_of frame)
          (touched clock.now_ms conn h)
unfolding on_message on_frame IsAtomic
on_message-refused clock conn text h s frame e other decoded known refused =
    let h' = touched clock.now_ms conn h in
    let r = dispatch clock conn s frame (client_event frame.event) h' in
    simp (known, decoded)
      (report-err clock conn (envelope_of frame) r e refused
        ∙ ap (send_error clock conn (code_for e.type) (codes e.message) (envelope_of frame))
            (dispatch-IsAtomic clock conn s frame (client_event frame.event) h' e other refused))

presence-announce_closed :
    (clock : Moment) (s : Option Session) (h : Hub)
    → enabled Feature.presence h ≡ false
    → (announce_closed clock s h).presence ≡ h.presence
unfolding announce_closed announce_offline
presence-announce_closed clock none h off = refl
presence-announce_closed clock (some s) h off = ground arith

remove_session-gone :
    (conn : ℕ) (sm : SessionManager) → get_session conn (remove_session conn sm).1 ≡ none
unfolding get_session remove_session
remove_session-gone conn sm = elim (Option-cases (lookup conn sm.by_connection)) [
  | inl e ↦ ground arith
  | inr (s, e) ↦ ground (arith, lookup-erase conn conn sm.by_connection)
]

sessions-announce_closed :
    (clock : Moment) (s : Option Session) (h : Hub)
    → enabled Feature.presence h ≡ false
    → (announce_closed clock s h).connections.sessions ≡ h.connections.sessions
unfolding announce_closed announce_offline
sessions-announce_closed clock none h off = refl
sessions-announce_closed clock (some s) h off = ground arith

on_open-online :
    (clock : Moment) (conn user : ℕ) (name : Bytes) (version : Version) (h : Hub)
    → at_first clock.failure ≡ false
    → enabled Feature.presence h ≡ true
    → is_online_locally user (on_open clock conn user name version h).presence ≡ true
unfolding open_session is_online_locally count_at enabled
on_open-online clock conn user name version h joined on =
    let opened = open_session clock conn user name version h in
    let counted : (on_open clock conn user name version h).presence
        ≡ (on_connect clock.at_ms user h.presence).1 =
      ap (λ (x : Hub). x.presence) (on_open-joined clock conn user name version h joined)
      ∙ (announce_online-IsAnnounced clock user name opened on).new_presence in
    rw counted (ground (arith, count_at-on_connect clock.at_ms user user h.presence))

-- When presence is on as a connection opens, its rooms can be read, and presence is off as it closes,
-- the connection has no session any more, and yet its user stays online here.
pub on_close-stays_online :
    (clock later : Moment) (conn user : ℕ) (name : Bytes) (version : Version) (h : Hub)
    (off : FeatureFlags)
    → at_first clock.failure ≡ false
    → enabled Feature.presence h ≡ true
    → is_enabled Feature.presence off ≡ false
    → (get_session conn
          (on_close later conn (record (on_open clock conn user name version h) {
            flags = some off;
          })).connections.sessions
        ≡ none)
      × (is_online_locally user
            (on_close later conn
              (record (on_open clock conn user name version h) { flags = some off })).presence
          ≡ true)
unfolding on_close enabled unregister_session
on_close-stays_online clock later conn user name version h off joined on disabled =
    let closing = record (on_open clock conn user name version h) { flags = some off } in
    let (session, cm) = unregister_session conn closing.connections in
    let kept =
      presence-announce_closed later session (record closing { connections = cm }) disabled in
    let still =
      sessions-announce_closed later session (record closing { connections = cm }) disabled in
    (
      rw still (remove_session-gone conn closing.connections.sessions),
      rw kept (on_open-online clock conn user name version h joined on),
    )
