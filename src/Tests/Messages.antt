-- ===== src/Tests/Messages.antt =====
-- Witnesses for messages.
use realtime_chat.Common.{ℕ, ◌≡◌, refl, none, some, List, [], ◌∷◌, arith, codes}
use realtime_chat.Validation.{is_space, trim_left, trim_right, trim, validate_message_content}
use realtime_chat.Conversations.Tables.{Db}
use realtime_chat.Conversations.Repository.{
  find_conversation, find_by_id, rows_of, list_participant_ids,
}
use realtime_chat.Messages.{
  text, Message, is_deleted, MessageTable, find_message, update_live, updated_row, update_row,
  update_content, soft_delete, attachment_ids_for,
}
use realtime_chat.Messages.Service.{
  MessageWorld, tell, require_message, editable, announce_row, edit, owns_group, deletable,
  remove_message,
}
use realtime_chat.Messages.History.{
  Continues, IsNumbered, MessageRequest, edit_request, delete_request, serve_message,
  serve_messages, serve_messages-Continues,
}

abbrev hello : Message
hello = record {
  id = 3;
  conversation_id = 5;
  sender_id = 1;
  type = text;
  content = codes "hello";
  edited_at = none;
  deleted_at = none;
}

abbrev no_conversations : Db
no_conversations = record {
  conversations = [];
  participants = [];
  users = 1 ∷ 2 ∷ [];
  next_conversation = 6;
  next_participant = 7;
}

abbrev one_message : MessageTable
one_message = record { messages = hello ∷ []; next_message = 4 }

one_message-IsNumbered : IsNumbered one_message
unfolding find_message
one_message-IsNumbered = record { below = λ id m found. ground arith }

abbrev mail : MessageWorld
mail = record {
  db = no_conversations;
  table = one_message;
  attachments = [];
  broadcasts = [];
  notices = [];
  events = none;
}

abbrev deletions : List (ℕ × MessageRequest)
deletions =
    (2, delete_request 10 3)
    ∷ (1, edit_request 20 3 (codes "hi "))
    ∷ (1, delete_request 30 3)
    ∷ (1, edit_request 40 3 (codes "late"))
    ∷ []

-- Another user's deletion is refused, the author's edit and deletion go through, and the edit of
-- the deleted message is refused.
deletions_result : (serve_messages deletions mail).table ≡ record {
  messages = record hello { content = codes "hi"; edited_at = some 20; deleted_at = some 30 } ∷ [];
  next_message = 4;
}
unfolding serve_messages serve_message edit remove_message editable deletable require_message
    find_message owns_group find_by_id find_conversation update_content soft_delete update_row
    update_live updated_row is_deleted announce_row tell list_participant_ids rows_of
    attachment_ids_for validate_message_content trim trim_left trim_right is_space
deletions_result = refl

serve_messages-Continues_example : Continues 3 hello (serve_messages deletions mail).table.messages
unfolding find_message
serve_messages-Continues_example =
    serve_messages-Continues deletions mail 3 hello one_message-IsNumbered refl
