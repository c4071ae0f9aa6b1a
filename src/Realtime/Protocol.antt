-- ===== src/Realtime/Protocol.antt =====
-- Wire frames and version negotiation: include/rtc/realtime/protocol.hpp and
-- src/realtime/protocol.cpp. A frame is the JSON value that `encode` dumps and that `decode` gets
-- from the parser; `timestamp` is the ISO 8601 text of the moment of encoding.
pub mod RoundTrip
use realtime_chat.Common.{
  ℕ, Bool, true, false, not, Option, none, some, [], ◌∷◌, if◌then◌else◌, ◌==◌, nat_eq, Bytes, codes,
  bytes_eq, pos,
}
use realtime_chat.Json.{
  Json, null, number, str, obj, Fields, end, field, fields, find, is_object, as_string,
}

pub data Version : Type 0 where
  v1 v2 : Version

abbrev pub default_version : Version
default_version = v1

abbrev pub to_number : Version → ℕ
to_number v1 = 1
to_number v2 = 2

unfoldable pub negotiate : Option ℕ → Version
negotiate none = default_version
negotiate (some n) = if n == 1 then v1 else if n == 2 then v2 else default_version

pub record Envelope : Type 0 where
  pub request_id : Bytes
  pub correlation_id : Bytes

abbrev pub no_envelope : Envelope
no_envelope = record { request_id = []; correlation_id = [] }

-- A correlation id, or null where it is unknown.
abbrev pub id_or_null : Bytes → Json
id_or_null [] = null
id_or_null (c ∷ s) = str (c ∷ s)

unfoldable pub encode : Bytes → Version → Bytes → Json → Envelope → Json
encode timestamp v1 event payload envelope =
    obj (field (codes "type") (str event) (field (codes "data") payload end))
encode timestamp v2 event payload envelope = obj (
    field (codes "event") (str event) (
      field (codes "version") (number (pos (to_number v2))) (
        field (codes "timestamp") (str timestamp) (
          field (codes "payload") payload (
            field (codes "request_id") (id_or_null envelope.request_id)
              (field (codes "correlation_id") (id_or_null envelope.correlation_id) end))))))

pub record InboundFrame : Type 0 where
  pub event : Bytes
  pub payload : Json
  pub request_id : Bytes
  pub correlation_id : Bytes
  pub version : Version

abbrev text_or_empty : Option Bytes → Bytes
text_or_empty none = []
text_or_empty (some s) = s

unfoldable pub read_string : Fields → Bytes → Bytes
read_string fs key = text_or_empty (as_string (find key fs))

-- The payload field where it is an object, else the default, the empty object.
abbrev object_or_empty : Option Json → Json
object_or_empty none = obj end
object_or_empty (some j) = if is_object j then j else obj end

abbrev is_empty_text : Bytes → Bool
is_empty_text [] = true
is_empty_text (c ∷ s) = false

read_frame : Fields → Version → Bytes → Bytes → InboundFrame
unfolding read_string
read_frame fs version event payload_key = record {
  event = event;
  payload = object_or_empty (find payload_key fs);
  request_id = read_string fs (codes "request_id");
  correlation_id = read_string fs (codes "correlation_id");
  version = version;
}

decode_object : Fields → Option InboundFrame
unfolding read_frame
decode_object fs =
    if not (is_empty_text (read_string fs (codes "event")))
    then some (read_frame fs v2 (read_string fs (codes "event")) (codes "payload"))
    else if not (is_empty_text (read_string fs (codes "type")))
    then some (read_frame fs v1 (read_string fs (codes "type")) (codes "data"))
    else none

-- `none` for the argument stands for text that does not parse.
unfoldable pub decode : Option Json → Option InboundFrame
unfolding decode_object
decode (some (obj fs)) = decode_object fs
decode _ = none
