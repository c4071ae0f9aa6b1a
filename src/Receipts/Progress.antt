-- ===== src/Receipts/Progress.antt =====
-- Receipts only advance, and reading a conversation marks its backlog.
use realtime_chat.Common.{
  ℕ, ◌+◌, ◌≤◌, ◌≡◌, refl, true, ◌&&◌, Option, none, some, List, [], ◌∷◌, arith, ltb, nat_beq,
  if◌then◌else◌,
}
use realtime_chat.Errors.{Result, ok, err}
use realtime_chat.Conversations.Repository.{is_participant}
use realtime_chat.Conversations.World.{require_participant, after}
use realtime_chat.Messages.{Message, find_message}
use realtime_chat.Receipts.{
  ReceiptState, delivered, read, rank, ReadReceipt, advanced, upsert_row, find_receipt,
  upsert_state, is_backlog, mark_conversation_read, ReceiptWorld, deliverable, mark_delivered,
  mark_read,
}

-- How far a receipt has come: 0 where there is none.
abbrev pub progress_of : Option ReadReceipt → ℕ
progress_of none = 0
progress_of (some r) = rank r.state + 1

unfoldable pub progress : ℕ → ℕ → List ReadReceipt → ℕ
progress message user rs = progress_of (find_receipt message user rs)

max_rank : (a b : ℕ) → ℕ
max_rank a b = if ltb a b then b else a

progress-upsert_row :
    (m u d v : ℕ) (s : ReceiptState) (rs : List ReadReceipt)
    → progress m u (upsert_row d v s rs) ≡ (
        if nat_beq m d && nat_beq u v
        then max_rank (progress m u rs) (rank s + 1)
        else progress m u rs)
unfolding progress find_receipt upsert_row advanced max_rank
progress-upsert_row m u d v s [] = ground arith
progress-upsert_row m u d v s (r ∷ rs) = ground (arith, progress-upsert_row m u d v s rs)

mark_conversation_read-grows :
    (m u c v upto : ℕ) (ms : List Message) (rs : List ReadReceipt)
    → progress m u rs ≤ progress m u (mark_conversation_read c v upto ms rs)
unfolding mark_conversation_read max_rank
mark_conversation_read-grows m u c v upto [] rs = omega arith
mark_conversation_read-grows m u c v upto (x ∷ ms) rs =
    let next = if is_backlog c v upto x then upsert_row x.id v read rs else rs in
    ground (
      arith,
      mark_conversation_read-grows m u c v upto ms next,
      progress-upsert_row m u x.id v read rs,
    )

progress_bound : (m u : ℕ) (rs : List ReadReceipt) → progress m u rs ≤ 3
unfolding progress find_receipt rank
progress_bound m u [] = omega arith
progress_bound m u (r ∷ rs) = ground (arith, progress_bound m u rs)

rank_read : rank read ≡ 2
unfolding rank
rank_read = refl

mark_conversation_read-reads :
    (id c v upto : ℕ) (m : Message) (ms : List Message) (rs : List ReadReceipt)
    → find_message id ms ≡ some m
    → is_backlog c v upto m ≡ true
    → 3 ≤ progress id v (mark_conversation_read c v upto ms rs)
unfolding mark_conversation_read find_message max_rank
mark_conversation_read-reads id c v upto m [] rs found b = ground arith
mark_conversation_read-reads id c v upto m (x ∷ ms) rs found b =
    let next = if is_backlog c v upto x then upsert_row x.id v read rs else rs in
    ground (
      arith,
      rank_read,
      mark_conversation_read-reads id c v upto m ms next,
      mark_conversation_read-grows id v c v upto ms next,
      progress-upsert_row id v x.id v read rs,
    )

-- After a member has read a conversation up to a message, every message of it up to that one which
-- another user sent has a receipt of the member, and its state is read.
pub mark_read-reads :
    (actor c upto id : ℕ) (m : Message) (w : ReceiptWorld)
    → is_participant c actor w.db ≡ true
    → find_message id w.messages ≡ some m
    → is_backlog c actor upto m ≡ true
    → progress id actor (mark_read actor c upto w).1.receipts ≡ rank read + 1
unfolding mark_read require_participant
mark_read-reads actor c upto id m w member found b =
    let receipts = mark_conversation_read c actor upto w.messages w.receipts in
    ground (
      arith,
      rank_read,
      progress_bound id actor receipts,
      mark_conversation_read-reads id c actor upto m w.messages w.receipts found b,
    )

-- The methods of the service.
pub data ReceiptCall : Type 0 where
  marks_delivered : ℕ → ReceiptCall
  marks_read : ℕ → ℕ → ReceiptCall

unfoldable pub mark : ℕ → ReceiptCall → ReceiptWorld → ReceiptWorld
mark actor (marks_delivered message) w = (mark_delivered actor message w).1
mark actor (marks_read conversation up_to) w = (mark_read actor conversation up_to w).1

unfoldable pub mark_all : List (ℕ × ReceiptCall) → ReceiptWorld → ReceiptWorld
mark_all [] w = w
mark_all ((actor, c) ∷ cs) w = mark_all cs (mark actor c w)

after-grows {ℓ κ} :
    {A : Type ℓ} {B : Type κ} (m u : ℕ) (r : Result A)
    (k : A → ReceiptWorld → Result B × ReceiptWorld) (w : ReceiptWorld)
    → ((a : A) → progress m u w.receipts ≤ progress m u (k a w).1.receipts)
    → progress m u w.receipts ≤ progress m u (after r k w).1.receipts
after-grows m u (ok a) k w next = next a
after-grows m u (err e) k w next = omega arith

mark-grows :
    (m u actor : ℕ) (c : ReceiptCall) (w : ReceiptWorld)
    → progress m u w.receipts ≤ progress m u (mark actor c w).receipts
unfolding mark mark_delivered mark_read upsert_state max_rank
mark-grows m u actor (marks_delivered message) w =
    after-grows m u (deliverable actor message w) _ w
      (λ x. ground (arith, progress-upsert_row m u message actor delivered w.receipts))
mark-grows m u actor (marks_read c upto) w =
    after-grows m u (require_participant c actor w.db) _ w
      (λ x. mark_conversation_read-grows m u c actor upto w.messages w.receipts)

-- Whatever users report, in any order and also late, the receipt of a message and a user never goes
-- back: not from read to delivered, and not from delivered to none.
pub mark_all-grows :
    (m u : ℕ) (cs : List (ℕ × ReceiptCall)) (w : ReceiptWorld)
    → progress m u w.receipts ≤ progress m u (mark_all cs w).receipts
unfolding mark_all
mark_all-grows m u [] w = omega arith
mark_all-grows m u ((actor, c) ∷ cs) w =
    ground (arith, mark-grows m u actor c w, mark_all-grows m u cs (mark actor c w))
