-- ===== src/Realtime/Failures.antt =====
-- The methods of the services that a frame calls when the database fails on the way:
-- src/services/message_service.cpp, src/services/read_receipt_service.cpp and `get` of
-- src/services/conversation_service.cpp. Each statement is a transaction of its own
-- (include/rtc/database/base_repository.hpp), so what was written before the failure stays. A failure
-- while a guard reads counts as one of the first statement; the text is the database library's.
use realtime_chat.Common.{ℕ, Bool, true, false, Bytes}
use realtime_chat.Errors.{Result, throw, database}
use realtime_chat.Validation.{◌>>=◌, validate_message_content}
use realtime_chat.Conversations.Tables.{Db, Conversation}
use realtime_chat.Conversations.Repository.{update_last_read}
use realtime_chat.Conversations.World.{require_conversation, require_participant, after}
use realtime_chat.Conversations.Service.{get}
use realtime_chat.Messages.{Message, create_message, link_to_message}
use realtime_chat.Messages.Service.{MessageWorld, SendMessageRequest, sendable, send}
use realtime_chat.Receipts.{
  ReceiptWorld, delivered, deliverable, upsert_state, mark_conversation_read, mark_delivered,
  mark_read,
}

-- Whether the database fails in a call, and where: at the first statement; later, after the first
-- write or, in a call that only reads, at the second statement; or after the second write.
pub data Failure : Type 0 where
  no_failure : Failure
  first_fails later_fails last_fails : Bytes → Failure

abbrev pub at_first : Failure → Bool
at_first (first_fails what) = true
at_first _ = false

abbrev pub is_failing : Failure → Bool
is_failing no_failure = false
is_failing _ = true

-- What with_transaction throws.
abbrev pub database_error {ℓ} : {A : Type ℓ} → Bytes → Result A
database_error what = throw database "Database operation failed" what

unfoldable pub get_failing : Failure → ℕ → ℕ → Db → Result Conversation
get_failing (first_fails what) actor id db = database_error what
get_failing (later_fails what) actor id db = require_conversation id db >>= λ c. database_error what
get_failing _ actor id db = get actor id db

-- The message as `send` stores it.
abbrev pub stored_by : ℕ → SendMessageRequest → Bytes → MessageWorld → Message × MessageWorld
stored_by actor r content w =
    let (stored, table) =
      create_message
        (record {
          conversation_id = r.conversation_id;
          sender_id = actor;
          content = content;
          type = r.type;
        })
        w.table in
    (stored, record w { table = table })

unfoldable pub send_failing :
    Failure → ℕ → SendMessageRequest → MessageWorld → Result Message × MessageWorld
send_failing no_failure actor r w = send actor r w
send_failing (first_fails what) actor r w =
    (validate_message_content r.content >>= λ content. database_error what, w)
send_failing (later_fails what) actor r w =
    after (sendable actor r w.db)
      (λ content w. (database_error what, (stored_by actor r content w).1)) w
send_failing (last_fails what) actor r w =
    after (sendable actor r w.db)
      (λ content w.
        let (stored, w') = stored_by actor r content w in
        (
          database_error what,
          record w' {
            attachments = link_to_message r.attachment_ids stored.id actor w'.attachments;
          },
        ))
      w

unfoldable pub mark_delivered_failing :
    Failure → ℕ → ℕ → ReceiptWorld → Result (Unit {0}) × ReceiptWorld
mark_delivered_failing no_failure actor message w = mark_delivered actor message w
mark_delivered_failing (first_fails what) actor message w = (database_error what, w)
mark_delivered_failing (later_fails what) actor message w =
    after (deliverable actor message w)
      (λ m w. (
        database_error what,
        record w { receipts = (upsert_state message actor delivered w.receipts).1 },
      ))
      w
mark_delivered_failing (last_fails what) actor message w = mark_delivered actor message w

unfoldable pub mark_read_failing :
    Failure → ℕ → ℕ → ℕ → ReceiptWorld → Result (Unit {0}) × ReceiptWorld
mark_read_failing no_failure actor conversation up_to w = mark_read actor conversation up_to w
mark_read_failing (first_fails what) actor conversation up_to w = (database_error what, w)
mark_read_failing (later_fails what) actor conversation up_to w =
    after (require_participant conversation actor w.db)
      (λ u w. (
        database_error what,
        record w {
          receipts = mark_conversation_read conversation actor up_to w.messages w.receipts;
        },
      ))
      w
mark_read_failing (last_fails what) actor conversation up_to w =
    after (require_participant conversation actor w.db)
      (λ u w. (
        database_error what,
        record w {
          receipts = mark_conversation_read conversation actor up_to w.messages w.receipts;
          db = update_last_read conversation actor up_to w.db;
        },
      ))
      w
