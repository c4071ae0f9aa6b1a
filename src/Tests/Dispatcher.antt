-- ===== src/Tests/Dispatcher.antt =====
-- Witnesses for the realtime dispatcher and the flags.
use realtime_chat.Common.{
  ◌+◌, ◌*◌, ◌≤◌, ◌≡◌, refl, ◌≢◌, ◌↔◌, ◌⊎◌, true, false, Option, none, some, List, [], ◌∷◌, arith,
  lookup, insert, ltb, Bytes, codes, bytes_eq, nat_eq,
}
use realtime_chat.Errors.{database, code_for, AppException}
use realtime_chat.Json.{Json, str, obj, end, field}
use realtime_chat.Validation.{to_lower}
use realtime_chat.Features.{typing, descriptor, FeatureFlags, is_enabled, load_from_env}
use realtime_chat.Features.Registry.{is_enabled-load_from_env}
use realtime_chat.Presence.{nobody, is_online_locally}
use realtime_chat.Messages.Request.{exception_of, require_int_field, request_from_json}
use realtime_chat.Realtime.Protocol.{v1, v2, InboundFrame, read_string, decode}
use realtime_chat.Realtime.Sessions.{Session, no_sessions, get_session, snapshot, touch}
use realtime_chat.Realtime.Sessions.Live.{live}
use realtime_chat.Realtime.Connections.{send_raw, send_event}
use realtime_chat.Realtime.Failures.{no_failure, later_fails}
use realtime_chat.Realtime.Dispatcher.{
  Moment, Hub, enabled, on_open, send_error, handle_send_message, envelope_of, client_event,
  dispatch, touched, on_message, on_close, Callback, opens, receives, closes, handle_all,
}
use realtime_chat.Realtime.Dispatcher.Counts.{AllJoin, handle_all-online_iff_live}
use realtime_chat.Realtime.Dispatcher.Isolation.{on_message-refused, on_close-stays_online}
use realtime_chat.Realtime.Heartbeat.{is_idle, sweep, tick, close_each}
use realtime_chat.Realtime.Heartbeat.Reaping.{tick-reaps}

abbrev noon : Moment
noon = record {
  now_ms = 100;
  now = 12;
  at_ms = 12000;
  timestamp = codes "12:00";
  failure = no_failure;
}

-- A moment at which the database fails once a call has got going.
abbrev busy : Moment
busy = record noon { failure = later_fails (codes "timeout") }

abbrev quiet_hub : Hub
quiet_hub = record {
  connections = record {
    sessions = no_sessions;
    rooms = record { rooms = []; membership = [] };
    clustered = false;
    sent = [];
    published = [];
  };
  presence = nobody;
  backend = record {
    db = record {
      conversations = [];
      participants = [];
      users = 2 ∷ [];
      next_conversation = 1;
      next_participant = 1;
    };
    table = record { messages = []; next_message = 1 };
    attachments = [];
    broadcasts = [];
    notices = [];
    events = none;
  };
  receipts = [];
  receipt_frames = [];
  flags = none;
  events = some [];
}

abbrev a_day : List Callback
a_day =
    opens noon 7 2 (codes "bob") v2
    ∷ opens busy 8 2 (codes "bob") v1
    ∷ receives noon 7 none
    ∷ closes busy 7
    ∷ []

a_day-AllJoin : AllJoin a_day
unfolding AllJoin
a_day-AllJoin = (refl, (refl, (tt, (tt, tt))))

abbrev bob : Session
bob = record {
  connection = 7;
  user_id = 2;
  username = codes "bob";
  protocol_version = v1;
  last_activity_ms = 100;
}

abbrev with_bob : Hub
with_bob = record quiet_hub {
  connections = record {
    sessions = record { by_connection = (7, bob) ∷ []; by_user = (2, 7 ∷ []) ∷ [] };
    rooms = record { rooms = []; membership = [] };
    clustered = false;
    sent = [];
    published = [];
  };
}

-- A message without a conversation.
abbrev bad_text : Option Json
bad_text = some (obj (field (codes "type") (str (codes "message.send")) end))

abbrev bad_frame : InboundFrame
bad_frame = record {
  event = codes "message.send";
  payload = obj end;
  request_id = [];
  correlation_id = [];
  version = v1;
}

abbrev no_conversation_id : AppException
no_conversation_id =
    exception_of "Field must be an integer: conversation_id" (codes "field=conversation_id")

no_conversation_id-ne-database : no_conversation_id.type ≢ database
no_conversation_id-ne-database = λ e. ground arith

abbrev all_off : FeatureFlags
all_off = record { flags = λ f. false }

abbrev says_off : Bytes → Bytes
says_off variable = codes "OFF"

-- A second later; bob was last heard of at 100.
abbrev later_on : Moment
later_on = record {
  now_ms = 1050;
  now = 13;
  at_ms = 13000;
  timestamp = codes "12:01";
  failure = no_failure;
}

handle_all-online_iff_live_example :
    is_online_locally 2 (handle_all a_day quiet_hub).presence
    ≡ ltb 0 (live 2 (handle_all a_day quiet_hub).connections.sessions.by_connection)
unfolding enabled
handle_all-online_iff_live_example =
    handle_all-online_iff_live a_day quiet_hub 2 a_day-AllJoin refl refl refl

on_message-refused_example :
    on_message noon 7 bad_text with_bob
    ≡ send_error noon 7
        (code_for no_conversation_id.type)
        (codes no_conversation_id.message)
        (envelope_of bad_frame)
        (touched noon.now_ms 7 with_bob)
unfolding decode read_string get_session touch lookup insert dispatch client_event
    handle_send_message request_from_json require_int_field
on_message-refused_example =
    on_message-refused noon 7 bad_text with_bob bob bad_frame no_conversation_id
      no_conversation_id-ne-database refl refl refl

on_close-stays_online_example :
    (get_session 7
        (on_close noon 7 (record (on_open noon 7 2 (codes "bob") v2 quiet_hub) {
          flags = some all_off;
        })).connections.sessions
      ≡ none)
    × (is_online_locally 2
          (on_close noon 7 (record (on_open noon 7 2 (codes "bob") v2 quiet_hub) {
            flags = some all_off;
          })).presence
        ≡ true)
unfolding enabled is_enabled
on_close-stays_online_example =
    on_close-stays_online noon noon 7 2 (codes "bob") v2 quiet_hub all_off refl refl refl

is_enabled-load_from_env_example :
    (says_off (descriptor typing).env_var ≡ []
      → is_enabled typing (load_from_env says_off all_off) ≡ (descriptor typing).default_enabled)
    × (says_off (descriptor typing).env_var ≢ []
        → (is_enabled typing (load_from_env says_off all_off) ≡ true) ↔ (
            (to_lower (says_off (descriptor typing).env_var) ≡ codes "1")
            ⊎ ((to_lower (says_off (descriptor typing).env_var) ≡ codes "true")
                ⊎ ((to_lower (says_off (descriptor typing).env_var) ≡ codes "yes")
                    ⊎ (to_lower (says_off (descriptor typing).env_var) ≡ codes "on")))))
is_enabled-load_from_env_example = is_enabled-load_from_env says_off typing all_off

tick-reaps_example : later_on.now_ms ≤ bob.last_activity_ms + 1 * 1000
unfolding tick sweep is_idle snapshot send_event send_raw get_session lookup close_each
tick-reaps_example = tick-reaps later_on later_on 1 7 with_bob bob refl refl refl
