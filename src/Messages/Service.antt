-- ===== src/Messages/Service.antt =====
-- The message service: src/services/message_service.cpp. As in the conversation service, a method
-- is its guards and then its effects, and what is handed on is logged, the latest first.
use realtime_chat.Common.{
  length, to_string, ℕ, String, Bool, true, false, not, ◌&&◌, Option, none, some, List, [], ◌∷◌,
  ◌++◌, if◌then◌else◌, Bytes, codes, ◌==◌, bytes_eq, nat_eq, pos,
}
use realtime_chat.Errors.{Result, ok, err, throw, not_found, authorization}
use realtime_chat.Validation.{validate_message_content, ◌>>=◌}
use realtime_chat.Conversations.Tables.{Conversation, Db, is_group}
use realtime_chat.Conversations.Repository.{find_by_id, list_participant_ids}
use realtime_chat.Conversations.World.{require_participant, is_owned_by, after}
use realtime_chat.Messages.{
  MessageType, Message, Attachment, MessageTable, create_message, find_message, update_content,
  soft_delete, link_to_message, attachment_ids_for,
}

-- A message with the ids of its attachments, as it is sent to clients.
pub record MessageResponse : Type 0 where
  pub message : Message
  pub attachment_ids : List ℕ

pub record MessageBroadcast : Type 0 where
  pub user_ids : List ℕ
  pub event : String
  pub response : MessageResponse

pub data MessageNotice : Type 0 where
  new_message : ℕ → ℕ → ℕ → List ℕ → MessageNotice

pub data MessageEvent : Type 0 where
  message_sent : ℕ → ℕ → ℕ → List ℕ → ℕ → MessageEvent
  message_edited : ℕ → ℕ → ℕ → MessageEvent
  message_deleted : ℕ → ℕ → ℕ → Bool → MessageEvent

pub record MessageWorld : Type 0 where
  -- The conversations and their members, which these methods only read.
  pub db : Db
  pub table : MessageTable
  pub attachments : List Attachment
  pub broadcasts : List MessageBroadcast
  pub notices : List MessageNotice
  -- None where no publisher is attached.
  pub events : Option (List MessageEvent)

abbrev cons_if : MessageEvent → Option (List MessageEvent) → Option (List MessageEvent)
cons_if e none = none
cons_if e (some es) = some (e ∷ es)

-- Broadcasts a message to the members of its conversation, and publishes an event.
unfoldable pub tell : String → Message → MessageEvent → MessageWorld → MessageWorld
tell event m e w = record w {
  broadcasts =
      record {
        user_ids = list_participant_ids m.conversation_id w.db;
        event = event;
        response = record { message = m; attachment_ids = attachment_ids_for m.id w.attachments };
      }
      ∷ w.broadcasts;
  events = cons_if e w.events;
}

abbrev or_unknown : ℕ → Option Message → Result Message
or_unknown id none = throw not_found "Message not found" (codes "message_id=" ++ to_string (pos id))
or_unknown id (some m) = ok m

unfoldable pub require_message : ℕ → MessageTable → Result Message
require_message id t = or_unknown id (find_message id t.messages)

pub record SendMessageRequest : Type 0 where
  pub conversation_id : ℕ
  pub content : Bytes
  pub type : MessageType
  pub attachment_ids : List ℕ

unfoldable pub sendable : ℕ → SendMessageRequest → Db → Result Bytes
sendable actor r db = validate_message_content r.content >>= λ content.
    require_participant r.conversation_id actor db >>= λ u. ok content

unfoldable pub deliver_stored :
    ℕ
    → SendMessageRequest
    → Bytes
    → Message × MessageTable
    → MessageWorld
    → Result Message × MessageWorld
deliver_stored actor r content (stored, table) w =
    let participants = list_participant_ids r.conversation_id w.db in
    let linked = record w {
      table = table;
      attachments = link_to_message r.attachment_ids stored.id actor w.attachments;
      notices = new_message actor stored.conversation_id stored.id participants ∷ w.notices;
    } in
    (
      ok stored,
      tell "message.created" stored
          (message_sent stored.id stored.conversation_id actor participants (length content))
          linked,
    )

unfoldable pub send : ℕ → SendMessageRequest → MessageWorld → Result Message × MessageWorld
send actor r w =
    after (sendable actor r w.db)
      (λ content w.
        deliver_stored actor r content
          (create_message
            (record {
              conversation_id = r.conversation_id;
              sender_id = actor;
              content = content;
              type = r.type;
            })
            w.table)
          w)
      w

-- The content of an edit that is let through.
unfoldable pub editable : ℕ → ℕ → Bytes → MessageTable → Result Bytes
editable actor id content t = require_message id t >>= λ m.
    if not (m.sender_id == actor)
    then throw authorization "Only the author may edit a message" []
    else validate_message_content content

-- After the update: the exception of the statement, or the announcement of the new row.
unfoldable pub announce_row :
    String
    → (Message → MessageEvent)
    → Result Message
    → MessageWorld
    → Result Message × MessageWorld
announce_row event e (err x) w = (err x, w)
announce_row event e (ok m) w = (ok m, tell event m (e m) w)

unfoldable pub edit : ℕ → ℕ → ℕ → Bytes → MessageWorld → Result Message × MessageWorld
edit now actor id content w =
    after (editable actor id content w.table)
      (λ text w.
        let (row, table) = update_content now id text w.table in
        announce_row "message.updated" (λ m. message_edited m.id m.conversation_id actor) row
          (record w { table = table }))
      w

-- Whether the actor owns the group.
unfoldable pub owns_group : ℕ → Option Conversation → Bool
owns_group actor none = false
owns_group actor (some c) = is_group c && is_owned_by actor c.owner_id

-- Whether the deletion that is let through is a moderator's.
unfoldable pub deletable : ℕ → ℕ → Db → MessageTable → Result Bool
deletable actor id db t = require_message id t >>= λ m.
    if m.sender_id == actor
    then ok false
    else if owns_group actor (find_by_id m.conversation_id db)
    then ok true
    else throw authorization "Not allowed to delete this message" []

unfoldable pub remove_message : ℕ → ℕ → ℕ → MessageWorld → Result Message × MessageWorld
remove_message now actor id w =
    after (deletable actor id w.db w.table)
      (λ moderating w.
        let (row, table) = soft_delete now id w.table in
        announce_row "message.deleted"
          (λ m. message_deleted m.id m.conversation_id actor moderating) row
          (record w { table = table }))
      w

unfoldable pub get_message : ℕ → ℕ → MessageWorld → Result Message
get_message actor id w = require_message id w.table >>= λ m.
    require_participant m.conversation_id actor w.db >>= λ u. ok m
