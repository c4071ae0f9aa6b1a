-- ===== src/Receipts.antt =====
-- Read receipts: include/rtc/models/read_receipt.hpp, the statements of
-- src/repositories/pg_read_receipt_repository.cpp and src/services/read_receipt_service.cpp. A row
-- is its key, the message and the user, and its state; ids and times of rows are left out.
pub mod Progress
use realtime_chat.Common.{
  ℕ, Bool, not, ◌&&◌, Option, none, some, List, [], ◌∷◌, ltb, leb, if◌then◌else◌, ◌==◌, bytes_eq,
  nat_eq,
}
use realtime_chat.Errors.{Result, ok, err, throw, not_found}
use realtime_chat.Conversations.Tables.{Db}
use realtime_chat.Conversations.Repository.{is_participant, list_participant_ids, update_last_read}
use realtime_chat.Conversations.World.{require_participant, after}
use realtime_chat.Validation.{◌>>=◌}
use realtime_chat.Messages.{Message, find_message}

pub data ReceiptState : Type 0 where
  sent delivered read : ReceiptState

unfoldable pub rank : ReceiptState → ℕ
rank sent = 0
rank delivered = 1
rank read = 2

pub record ReadReceipt : Type 0 where
  pub message_id : ℕ
  pub user_id : ℕ
  pub state : ReceiptState

-- Advances a state only if the incoming rank is greater.
unfoldable pub advanced : ReceiptState → ReceiptState → ReceiptState
advanced stored incoming = if ltb (rank stored) (rank incoming) then incoming else stored

abbrev pub is_receipt_of : ℕ → ℕ → ReadReceipt → Bool
is_receipt_of message user r = r.message_id == message && r.user_id == user

-- INSERT with the conflict clause on the key.
unfoldable pub upsert_row : ℕ → ℕ → ReceiptState → List ReadReceipt → List ReadReceipt
upsert_row message user state [] =
    record { message_id = message; user_id = user; state = state } ∷ []
upsert_row message user state (r ∷ rs) =
    let rest = upsert_row message user state rs in
    if is_receipt_of message user r
    then record r { state = advanced r.state state } ∷ rs
    else r ∷ rest

-- The receipt of a message and a user.
unfoldable pub find_receipt : ℕ → ℕ → List ReadReceipt → Option ReadReceipt
find_receipt message user [] = none
find_receipt message user (r ∷ rs) =
    if is_receipt_of message user r then some r else find_receipt message user rs

unfoldable pub upsert_state :
    ℕ → ℕ → ReceiptState → List ReadReceipt → Option ReadReceipt × List ReadReceipt
upsert_state message user state rs =
    (find_receipt message user (upsert_row message user state rs), upsert_row message user state rs)

-- The messages that the statement selects.
unfoldable pub is_backlog : ℕ → ℕ → ℕ → Message → Bool
is_backlog conversation user up_to m =
    m.conversation_id == conversation && (leb m.id up_to && not (m.sender_id == user))

unfoldable pub mark_conversation_read :
    ℕ → ℕ → ℕ → List Message → List ReadReceipt → List ReadReceipt
mark_conversation_read conversation user up_to [] rs = rs
mark_conversation_read conversation user up_to (m ∷ ms) rs =
    mark_conversation_read conversation user up_to ms
      (if is_backlog conversation user up_to m then upsert_row m.id user read rs else rs)

pub data ReceiptFrame : Type 0 where
  receipt_update : List ℕ → Option ReadReceipt → ReceiptFrame
  read_update : List ℕ → ℕ → ℕ → ℕ → ReceiptFrame

pub record ReceiptWorld : Type 0 where
  pub db : Db
  -- The rows of messages, which these methods only read.
  pub messages : List Message
  pub receipts : List ReadReceipt
  pub frames : List ReceiptFrame

abbrev or_not_found : Option Message → Result Message
or_not_found none = throw not_found "Message not found" []
or_not_found (some m) = ok m

unfoldable pub deliverable : ℕ → ℕ → ReceiptWorld → Result Message
deliverable actor message_id w = or_not_found (find_message message_id w.messages) >>= λ m.
    require_participant m.conversation_id actor w.db >>= λ u. ok m

unfoldable pub mark_delivered : ℕ → ℕ → ReceiptWorld → Result (Unit {0}) × ReceiptWorld
mark_delivered actor message_id w =
    after (deliverable actor message_id w)
      (λ m w.
        let (receipt, receipts) = upsert_state message_id actor delivered w.receipts in
        (
          ok tt,
          record w {
            receipts = receipts;
            frames =
                receipt_update (list_participant_ids m.conversation_id w.db) receipt ∷ w.frames;
          },
        ))
      w

unfoldable pub mark_read : ℕ → ℕ → ℕ → ReceiptWorld → Result (Unit {0}) × ReceiptWorld
mark_read actor conversation_id up_to w =
    after (require_participant conversation_id actor w.db)
      (λ u w.
        let db = update_last_read conversation_id actor up_to w.db in
        (
          ok tt,
          record w {
            db = db;
            receipts = mark_conversation_read conversation_id actor up_to w.messages w.receipts;
            frames =
                read_update (list_participant_ids conversation_id db) conversation_id actor up_to
                ∷ w.frames;
          },
        ))
      w
