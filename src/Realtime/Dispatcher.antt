-- ===== src/Realtime/Dispatcher.antt =====
-- The realtime event dispatcher: src/realtime/event_dispatcher.cpp with
-- include/rtc/realtime/event_dispatcher.hpp and events.hpp. A frame's text is given as the
-- JSON value it parses to, if it parses. What the services broadcast is logged in their
-- worlds. Spans and logging are left out. The database may fail in a call, as its Moment tells; the
-- other exceptions that are caught come from the libraries, which do not fail here.
pub mod Quiet
pub mod Counts
pub mod Isolation
use realtime_chat.Common.{
  length, ℕ, String, Bool, true, false, not, ◌&&◌, Option, none, some, List, [], ◌∷◌, if◌then◌else◌,
  Bytes, codes, append, ◌==◌, bytes_eq, nat_eq,
}
use realtime_chat.Errors.{Result, ok, err, throw, AppException, validation, code_for}
use realtime_chat.Validation.{◌>>=◌}
use realtime_chat.Json.{
  Json, null, number, str, arr, obj, Items, nil, item, Fields, end, field, fields, find, id,
  is_object,
}
use realtime_chat.Features.{Feature, FeatureFlags, is_enabled}
use realtime_chat.Conversations.Tables.{Db, Conversation}
use realtime_chat.Conversations.Repository.{list_conversation_ids, list_peer_ids}
use realtime_chat.Conversations.World.{after}
use realtime_chat.Messages.Request.{row_id, int_or, exception_of, request_from_json}
use realtime_chat.Messages.Service.{MessageWorld, SendMessageRequest}
use realtime_chat.Receipts.{ReadReceipt, ReceiptFrame, ReceiptWorld}
use realtime_chat.Presence.{Presence, on_connect, on_disconnect}
use realtime_chat.Realtime.Protocol.{
  Version, Envelope, no_envelope, InboundFrame, to_number, decode,
}
use realtime_chat.Realtime.Sessions.{Session, touch, get_session, sessions_for_user}
use realtime_chat.Realtime.Rooms.{join_many}
use realtime_chat.Realtime.Failures.{
  Failure, at_first, is_failing, get_failing, send_failing, mark_delivered_failing,
  mark_read_failing,
}
use realtime_chat.Realtime.Connections.{
  ConnectionManager, register_session, unregister_session, publish, send_event, broadcast_to_room,
}

-- The moment of a call: its clocks, steady, of the database, of the announcements and of the frames;
-- and whether the database fails in it.
pub record Moment : Type 0 where
  pub now_ms : ℕ
  pub now : ℕ
  pub at_ms : ℕ
  pub timestamp : Bytes
  pub failure : Failure

pub data UserEvent : Type 0 where
  user_online : ℕ → Bytes → ℕ → UserEvent
  user_offline : ℕ → Bytes → UserEvent

pub record Hub : Type 0 where
  pub connections : ConnectionManager
  pub presence : Presence
  -- The tables and the messages, and the rows and frames of the receipts.
  pub backend : MessageWorld
  pub receipts : List ReadReceipt
  pub receipt_frames : List ReceiptFrame
  -- None where no store of flags, or no publisher, is attached.
  pub flags : Option FeatureFlags
  pub events : Option (List UserEvent)

abbrev enabled_in : Feature → Option FeatureFlags → Bool
enabled_in f none = true
enabled_in f (some fs) = is_enabled f fs

unfoldable pub enabled : Feature → Hub → Bool
enabled f h = enabled_in f h.flags

abbrev pub publish_event : UserEvent → Option (List UserEvent) → Option (List UserEvent)
publish_event e none = none
publish_event e (some es) = some (e ∷ es)

unfoldable pub presence_payload : ℕ → Bytes → Json
presence_payload user status =
    obj (field (codes "user_id") (id user) (field (codes "status") (str status) end))

-- The first steps of `on_open`: the session, its activity, and its rooms.
unfoldable pub open_session : Moment → ℕ → ℕ → Bytes → Version → Hub → Hub
open_session clock conn user username version h =
    let cm = (register_session conn user username version h.connections).1 in
    record h {
      connections = record cm {
        sessions = touch conn clock.now_ms cm.sessions;
        rooms =
            if at_first clock.failure
            then cm.rooms
            else join_many (list_conversation_ids user h.backend.db) conn cm.rooms;
      };
    }

-- The first session is announced to the peers, if they can be read.
unfoldable pub announce_online : Moment → ℕ → Bytes → Hub → Hub
announce_online clock user username h =
    let (first, presence) = on_connect clock.at_ms user h.presence in
    let counted = record h { presence = presence } in
    let announced = record counted {
      connections =
          publish clock.timestamp (list_peer_ids user h.backend.db) (codes "presence.update")
            (presence_payload user (codes "online")) h.connections;
      events =
          publish_event
            (user_online user username (length (sessions_for_user user h.connections.sessions)))
            h.events;
    } in
    if not (enabled Feature.presence h)
    then h
    else if first && not (is_failing clock.failure)
    then announced
    else counted

unfoldable pub ready_payload : ℕ → Bytes → Version → Json
ready_payload user username version = obj (
    field (codes "user_id") (id user) (
      field (codes "username") (str username)
        (field (codes "protocol_version") (id (to_number version)) end)))

abbrev pub send_to : Moment → ℕ → Bytes → Json → Envelope → Hub → Hub
send_to clock conn event payload envelope h = record h {
  connections = send_event clock.timestamp conn event payload envelope h.connections;
}

-- Where the rooms cannot be read, the rest of the try block is skipped.
unfoldable pub on_open : Moment → ℕ → ℕ → Bytes → Version → Hub → Hub
unfolding open_session announce_online
on_open clock conn user username version h =
    let opened = open_session clock conn user username version h in
    send_to clock conn (codes "ready") (ready_payload user username version) no_envelope
      (if at_first clock.failure then opened else announce_online clock user username opened)

unfoldable pub send_error : Moment → ℕ → Bytes → Bytes → Envelope → Hub → Hub
send_error clock conn code message envelope h =
    send_to clock conn (codes "error")
      (obj (field (codes "code") (str code) (field (codes "message") (str message) end))) envelope h

unfoldable pub require_int : Fields → String → Result ℕ
require_int payload name =
    int_or (exception_of (append "Missing integer field: " name) []) (find (codes name) payload)

-- The conversation named by a typing frame, for one of its members only.
unfoldable pub typing_room : Failure → ℕ → Fields → Hub → Result ℕ
unfolding require_int
typing_room failure user payload h = require_int payload "conversation_id" >>= λ conversation.
    get_failing failure user conversation h.backend.db >>= λ c. ok conversation

unfoldable pub signal_typing : Moment → ℕ → ℕ → Bytes → Bool → ℕ → Hub → Result (Unit {0}) × Hub
signal_typing clock conn user username starting conversation h = (
  ok tt,
  record h {
    connections =
        broadcast_to_room clock.timestamp conversation
          (if starting then codes "typing.start" else codes "typing.stop")
          (obj (
            field (codes "conversation_id") (id conversation)
              (field (codes "user_id") (id user) (field (codes "username") (str username) end))))
          conn h.connections;
  },
)

unfoldable pub handle_typing :
    Moment → ℕ → ℕ → Bytes → Fields → Bool → Hub → Result (Unit {0}) × Hub
unfolding typing_room signal_typing
handle_typing clock conn user username payload starting h =
    after (typing_room clock.failure user payload h)
      (signal_typing clock conn user username starting) h

unfoldable pub send_request : Failure → ℕ → SendMessageRequest → Hub → Result (Unit {0}) × Hub
send_request failure user request h =
    let (sent, backend) = send_failing failure user request h.backend in
    (sent >>= λ m. ok tt, record h { backend = backend })

unfoldable pub handle_send_message : Failure → ℕ → Json → Hub → Result (Unit {0}) × Hub
unfolding send_request
handle_send_message failure user payload h =
    after (request_from_json payload) (send_request failure user) h

-- The rows as the receipts' service sees them, and back.
abbrev pub receipt_world : Hub → ReceiptWorld
receipt_world h = record {
  db = h.backend.db;
  messages = h.backend.table.messages;
  receipts = h.receipts;
  frames = h.receipt_frames;
}

abbrev pub with_receipts : ReceiptWorld → Hub → Hub
with_receipts w h = record h {
  backend = record h.backend { db = w.db };
  receipts = w.receipts;
  receipt_frames = w.frames;
}

unfoldable pub receive_delivered : Failure → ℕ → ℕ → Hub → Result (Unit {0}) × Hub
receive_delivered failure user message h =
    let (done, w) = mark_delivered_failing failure user message (receipt_world h) in
    (done, with_receipts w h)

unfoldable pub handle_mark_delivered : Failure → ℕ → Fields → Hub → Result (Unit {0}) × Hub
unfolding require_int receive_delivered
handle_mark_delivered failure user payload h =
    after (require_int payload "message_id") (receive_delivered failure user) h

-- Of two missing arguments the first is reported; the source leaves the order to the compiler.
unfoldable pub read_marker : Fields → Result (ℕ × ℕ)
unfolding require_int
read_marker payload = require_int payload "conversation_id" >>= λ conversation.
    require_int payload "up_to_message_id" >>= λ up_to. ok (conversation, up_to)

unfoldable pub receive_read : Failure → ℕ → ℕ × ℕ → Hub → Result (Unit {0}) × Hub
receive_read failure user (conversation, up_to) h =
    let (done, w) = mark_read_failing failure user conversation up_to (receipt_world h) in
    (done, with_receipts w h)

unfoldable pub handle_mark_read : Failure → ℕ → Fields → Hub → Result (Unit {0}) × Hub
unfolding read_marker receive_read
handle_mark_read failure user payload h = after (read_marker payload) (receive_read failure user) h

abbrev pub gated : Bool → (Hub → Result (Unit {0}) × Hub) → Hub → Result (Unit {0}) × Hub
gated true handler h = handler h
gated false handler h = (ok tt, h)

abbrev pub envelope_of : InboundFrame → Envelope
envelope_of frame = record { request_id = frame.request_id; correlation_id = frame.correlation_id }

-- The tests of the chain on the event's name, in order.
pub data ClientEvent : Type 0 where
  client_ping client_send_message client_typing_start client_typing_stop : ClientEvent
  client_mark_delivered client_mark_read unknown_event : ClientEvent

unfoldable pub client_event : Bytes → ClientEvent
client_event name =
    if name == codes "ping"
    then client_ping
    else if name == codes "message.send"
    then client_send_message
    else if name == codes "typing.start"
    then client_typing_start
    else if name == codes "typing.stop"
    then client_typing_stop
    else if name == codes "mark_delivered"
    then client_mark_delivered
    else if name == codes "mark_read"
    then client_mark_read
    else unknown_event

-- The body of the try block.
unfoldable pub dispatch :
    Moment → ℕ → Session → InboundFrame → ClientEvent → Hub → Result (Unit {0}) × Hub
unfolding handle_typing handle_send_message handle_mark_delivered handle_mark_read enabled
    send_error
dispatch clock conn s frame client_ping h =
    (ok tt, send_to clock conn (codes "pong") (obj end) (envelope_of frame) h)
dispatch clock conn s frame client_send_message h =
    handle_send_message clock.failure s.user_id frame.payload h
dispatch clock conn s frame client_typing_start h =
    gated (enabled Feature.typing h)
      (handle_typing clock conn s.user_id s.username (fields frame.payload) true) h
dispatch clock conn s frame client_typing_stop h =
    gated (enabled Feature.typing h)
      (handle_typing clock conn s.user_id s.username (fields frame.payload) false) h
dispatch clock conn s frame client_mark_delivered h =
    gated (enabled Feature.read_receipts h)
      (handle_mark_delivered clock.failure s.user_id (fields frame.payload)) h
dispatch clock conn s frame client_mark_read h =
    gated (enabled Feature.read_receipts h)
      (handle_mark_read clock.failure s.user_id (fields frame.payload)) h
dispatch clock conn s frame unknown_event h = (
  ok tt,
  send_error clock conn (codes "validation_error") (codes "Unknown event type") (envelope_of frame)
      h,
)

-- The catch clause for the program's own exceptions.
unfoldable pub report : Moment → ℕ → Envelope → Result (Unit {0}) × Hub → Hub
unfolding send_error
report clock conn envelope (ok u, h) = h
report clock conn envelope (err e, h) =
    send_error clock conn (code_for e.type) (codes e.message) envelope h

unfoldable pub on_frame : Moment → ℕ → Option Session → Option InboundFrame → Hub → Hub
unfolding send_error report dispatch client_event
on_frame clock conn none frame h = h
on_frame clock conn (some session) none h =
    send_error clock conn (codes "validation_error") (codes "Malformed event envelope") no_envelope
      h
on_frame clock conn (some session) (some frame) h =
    report clock conn (envelope_of frame)
      (dispatch clock conn session frame (client_event frame.event) h)

abbrev pub touched : ℕ → ℕ → Hub → Hub
touched now_ms conn h = record h {
  connections = record h.connections { sessions = touch conn now_ms h.connections.sessions };
}

unfoldable pub on_message : Moment → ℕ → Option Json → Hub → Hub
unfolding on_frame
on_message clock conn payload h =
    let h' = touched clock.now_ms conn h in
    on_frame clock conn (get_session conn h'.connections.sessions) (decode payload) h'

-- The end of the last session is announced to the peers, if they can be read.
unfoldable pub announce_offline : Moment → Session → Hub → Hub
unfolding enabled presence_payload
announce_offline clock s h =
    let (gone, presence) = on_disconnect clock.now clock.at_ms s.user_id h.presence in
    let counted = record h { presence = presence } in
    let announced = record counted {
      connections =
          publish clock.timestamp (list_peer_ids s.user_id h.backend.db) (codes "presence.update")
            (presence_payload s.user_id (codes "offline")) h.connections;
      events = publish_event (user_offline s.user_id s.username) h.events;
    } in
    if not (enabled Feature.presence h)
    then h
    else if gone && not (is_failing clock.failure)
    then announced
    else counted

unfoldable pub announce_closed : Moment → Option Session → Hub → Hub
unfolding announce_offline
announce_closed clock none h = h
announce_closed clock (some s) h = announce_offline clock s h

unfoldable pub on_close : Moment → ℕ → Hub → Hub
unfolding announce_closed
on_close clock conn h =
    let (session, cm) = unregister_session conn h.connections in
    announce_closed clock session (record h { connections = cm })

-- What the server calls the dispatcher for. A connection opens when it is not open.
pub data Callback : Type 0 where
  opens : Moment → ℕ → ℕ → Bytes → Version → Callback
  receives : Moment → ℕ → Option Json → Callback
  closes : Moment → ℕ → Callback

abbrev unless_open : Option Session → Hub → Hub → Hub
unless_open none h h' = h'
unless_open (some s) h h' = h

unfoldable pub handle : Callback → Hub → Hub
unfolding on_open on_message on_close
handle (opens clock conn user username version) h =
    unless_open (get_session conn h.connections.sessions) h
      (on_open clock conn user username version h)
handle (receives clock conn text) h = on_message clock conn text h
handle (closes clock conn) h = on_close clock conn h

unfoldable pub handle_all : List Callback → Hub → Hub
unfolding handle
handle_all [] h = h
handle_all (c ∷ cs) h = handle_all cs (handle c h)
