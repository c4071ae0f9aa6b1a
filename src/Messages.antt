-- ===== src/Messages.antt =====
-- Messages and their attachments: the rows of include/rtc/models/message.hpp, the statements of
-- src/repositories/pg_message_repository.cpp, and the link of attachments to a message
-- (src/repositories/pg_attachment_repository.cpp). `now` is the database's clock. Listing with
-- keyword search is PostgreSQL's and is left out, as are the times of creation and update.
pub mod Service
pub mod Request
pub mod Rights
pub mod History
use realtime_chat.Common.{
  ℕ, ◌+◌, Bool, true, false, not, ◌&&◌, Option, none, some, List, [], ◌∷◌, if◌then◌else◌, Bytes,
  ◌==◌, bytes_eq, nat_eq,
}
use realtime_chat.Errors.{Result, ok, throw, not_found}

pub data MessageType : Type 0 where
  text system : MessageType

pub record Message : Type 0 where
  pub id : ℕ
  pub conversation_id : ℕ
  pub sender_id : ℕ
  pub type : MessageType
  pub content : Bytes
  pub edited_at : Option ℕ
  pub deleted_at : Option ℕ

abbrev pub is_stamped : Option ℕ → Bool
is_stamped none = false
is_stamped (some t) = true

unfoldable pub is_deleted : Message → Bool
is_deleted m = is_stamped m.deleted_at

-- The table of attachments, in the order of their ids, as far as messages are concerned.
pub record Attachment : Type 0 where
  pub id : ℕ
  pub owner_id : ℕ
  pub message_id : Option ℕ

pub record MessageTable : Type 0 where
  pub messages : List Message
  pub next_message : ℕ

pub record NewMessage : Type 0 where
  pub conversation_id : ℕ
  pub sender_id : ℕ
  pub content : Bytes
  pub type : MessageType

unfoldable pub create_message : NewMessage → MessageTable → Message × MessageTable
create_message input t =
    let message : Message = record {
      id = t.next_message;
      conversation_id = input.conversation_id;
      sender_id = input.sender_id;
      type = input.type;
      content = input.content;
      edited_at = none;
      deleted_at = none;
    } in
    (message, record { messages = message ∷ t.messages; next_message = t.next_message + 1 })

unfoldable pub find_message : ℕ → List Message → Option Message
find_message id [] = none
find_message id (m ∷ ms) = if m.id == id then some m else find_message id ms

-- UPDATE ... WHERE id = $1 AND deleted_at IS NULL.
unfoldable pub update_live : ℕ → (Message → Message) → List Message → List Message
update_live id f [] = []
update_live id f (m ∷ ms) =
    (if m.id == id && not (is_deleted m) then f m else m) ∷ update_live id f ms

abbrev or_gone : Option Message → Result Message
or_gone none = throw not_found "Message not found or already deleted" []
or_gone (some m) = ok m

-- The row as the statement returns it, none where it updated none.
unfoldable pub updated_row : (Message → Message) → Option Message → Option Message
updated_row f none = none
updated_row f (some m) = if is_deleted m then none else some (f m)

unfoldable pub update_row : ℕ → (Message → Message) → MessageTable → Result Message × MessageTable
update_row id f t = (
  or_gone (updated_row f (find_message id t.messages)),
  record t { messages = update_live id f t.messages },
)

unfoldable pub update_content : ℕ → ℕ → Bytes → MessageTable → Result Message × MessageTable
update_content now id content t =
    update_row id (λ m. record m { content = content; edited_at = some now }) t

unfoldable pub soft_delete : ℕ → ℕ → MessageTable → Result Message × MessageTable
soft_delete now id t = update_row id (λ m. record m { deleted_at = some now }) t

abbrev is_free : Option ℕ → Bool
is_free none = true
is_free (some m) = false

-- One statement of `link_to_message`: only the owner's attachments that are still free.
unfoldable pub link_one : ℕ → ℕ → ℕ → List Attachment → List Attachment
link_one id message owner [] = []
link_one id message owner (a ∷ rows) =
    (if a.id == id && (a.owner_id == owner && is_free a.message_id)
      then record a { message_id = some message }
      else a)
    ∷ link_one id message owner rows

unfoldable pub link_to_message : List ℕ → ℕ → ℕ → List Attachment → List Attachment
link_to_message [] message owner rows = rows
link_to_message (id ∷ ids) message owner rows =
    link_to_message ids message owner (link_one id message owner rows)

abbrev is_of_message : ℕ → Option ℕ → Bool
is_of_message message none = false
is_of_message message (some m) = m == message

unfoldable pub attachment_ids_for : ℕ → List Attachment → List ℕ
attachment_ids_for message [] = []
attachment_ids_for message (a ∷ rows) =
    if is_of_message message a.message_id
    then a.id ∷ attachment_ids_for message rows
    else attachment_ids_for message rows
