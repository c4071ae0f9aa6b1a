-- ===== src/Messages/Rights.antt =====
-- Who may send, edit and delete a message.
use realtime_chat.Common.{ℕ, ◌≡◌, ◌↔◌, true, some, arith, Bytes}
use realtime_chat.Errors.{ok}
use realtime_chat.Validation.{validate_message_content}
use realtime_chat.Conversations.Tables.{Db, Conversation, group}
use realtime_chat.Conversations.Repository.{find_by_id, is_participant}
use realtime_chat.Conversations.World.{require_participant}
use realtime_chat.Messages.{Message, MessageTable, find_message}
use realtime_chat.Messages.Service.{SendMessageRequest, sendable, require_message, editable}

-- A message is let through exactly if its sender is a member of the conversation and its trimmed
-- content has 1 to 4000 bytes; that is the content stored.
pub sendable_iff :
    (actor : ℕ) (r : SendMessageRequest) (db : Db) (content : Bytes)
    → (sendable actor r db ≡ ok content) ↔ (
        (validate_message_content r.content ≡ ok content)
        × (is_participant r.conversation_id actor db ≡ true))
unfolding sendable require_participant
sendable_iff actor r db content = (λ h. ground arith, λ h. ground arith)

-- An edit of a message that exists is let through exactly if the actor wrote it and the new content
-- is valid.
pub editable_iff :
    (actor id : ℕ) (content text : Bytes) (m : Message) (t : MessageTable)
    → find_message id t.messages ≡ some m
    → (editable actor id content t ≡ ok text)
      ↔ ((m.sender_id ≡ actor) × (validate_message_content content ≡ ok text))
unfolding editable require_message
editable_iff actor id content text m t found = (λ h. ground arith, λ h. ground arith)

-- Owning the group of a message: the conversation exists, is a group, and has the user as its owner.
abbrev pub OwnsGroup : ℕ → ℕ → Db → Type 0
OwnsGroup actor conversation db =
    (c : Conversation) × ((find_by_id conversation db ≡ some c)
      × ((c.type ≡ group) × (c.owner_id ≡ some actor)))
