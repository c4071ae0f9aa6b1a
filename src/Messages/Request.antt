-- ===== src/Messages/Request.antt =====
-- The body of a request to send a message: SendMessageRequest::from_json of src/dto/message_dto.cpp
-- with include/rtc/models/message.hpp.
use realtime_chat.Common.{
  ℕ, String, Option, none, some, List, [], ◌∷◌, ◌++◌, if◌then◌else◌, Bytes, codes, append, ◌==◌,
  bytes_eq, nat_eq, ℤ, pos, negsuc,
}
use realtime_chat.Errors.{Result, ok, err, throw, AppException, validation}
use realtime_chat.Validation.{◌>>=◌}
use realtime_chat.Json.{Json, null, number, str, arr, obj, Items, nil, item, Fields, find}
use realtime_chat.Messages.{MessageType, text, system}
use realtime_chat.Messages.Service.{SendMessageRequest}

-- The ids of the rows are positive. A negative number is the id of no row, and is read as 0, which
-- is the id of no row either.
abbrev pub row_id : ℤ → ℕ
row_id (pos n) = n
row_id (negsuc n) = 0

abbrev pub int_or : AppException → Option Json → Result ℕ
int_or e (some (number z)) = ok (row_id z)
int_or e _ = err e

abbrev pub exception_of : String → Bytes → AppException
exception_of message details = record { type = validation; message = message; details = details }

unfoldable pub require_int_field : Fields → String → Result ℕ
require_int_field body name =
    int_or (exception_of (append "Field must be an integer: " name) (codes "field=" ++ codes name))
      (find (codes name) body)

abbrev string_or : String → Option Json → Result Bytes
string_or name (some (str s)) = ok s
string_or name (some null) =
    err (exception_of (append "Missing required field: " name) (codes "field=" ++ codes name))
string_or name none =
    err (exception_of (append "Missing required field: " name) (codes "field=" ++ codes name))
string_or name _ =
    err (exception_of (append "Field must be a string: " name) (codes "field=" ++ codes name))

unfoldable pub require_string : Fields → String → Result Bytes
require_string body name = string_or name (find (codes name) body)

unfoldable pub message_type_from_string : Bytes → Option MessageType
message_type_from_string value =
    if value == codes "text"
    then some text
    else if value == codes "system"
    then some system
    else none

abbrev known_type : Option MessageType → Result MessageType
known_type none = throw validation "type must be 'text' or 'system'" (codes "field=type")
known_type (some t) = ok t

unfoldable pub read_type : Option Json → Result MessageType
unfolding message_type_from_string
read_type none = ok text
read_type (some null) = ok text
read_type (some (str s)) = known_type (message_type_from_string s)
read_type (some _) = throw validation "type must be a string" (codes "field=type")

unfoldable pub read_ids : Items → Result (List ℕ)
read_ids nil = ok []
read_ids (item (number z) js) = read_ids js >>= λ ns. ok (row_id z ∷ ns)
read_ids (item _ js) =
    throw validation "attachment_ids must contain integers" (codes "field=attachment_ids")

unfoldable pub read_attachments : Option Json → Result (List ℕ)
unfolding read_ids
read_attachments none = ok []
read_attachments (some null) = ok []
read_attachments (some (arr js)) = read_ids js
read_attachments (some _) =
    throw validation "attachment_ids must be an array of ids" (codes "field=attachment_ids")

-- SendMessageRequest::from_json.
unfoldable pub request_from_json : Json → Result SendMessageRequest
unfolding require_int_field require_string read_type read_attachments
request_from_json (obj body) = require_int_field body "conversation_id" >>= λ conversation.
    require_string body "content" >>= λ content. read_type (find (codes "type") body) >>= λ type.
    read_attachments (find (codes "attachment_ids") body) >>= λ ids. ok (record {
      conversation_id = conversation;
      content = content;
      type = type;
      attachment_ids = ids;
    })
request_from_json _ = throw validation "Request body must be a JSON object" []
