-- ===== src/Conversations/Repository/Laws.antt =====
-- Who is a member, and what a conversation is, after each statement.
use realtime_chat.Common.{
  ℕ, ◌≡◌, refl, Bool, true, not, ◌&&◌, ◌||◌, Option, none, some, List, [], ◌∷◌, ◌++◌, arith,
  nat_beq, if◌then◌else◌,
}
use realtime_chat.Conversations.Tables.{Conversation, ParticipantRole, Participant, Db, is_group}
use realtime_chat.Conversations.Repository.{
  find_conversation, is_row, find_row, is_found, is_participant, insert_participant,
  insert_or_nothing, delete_row, remove_participant, update_conversation, hand_over,
  transfer_ownership, delete_conversation, delete_rows, remove_conversation, advance_marker,
  update_last_read,
}

is_row-append :
    (c u : ℕ) (ps : List Participant) (q : Participant)
    → is_found (find_row c u (ps ++ q ∷ [])) ≡ (is_found (find_row c u ps) || is_row c u q)
unfolding find_row
is_row-append c u [] q = ground arith
is_row-append c u (p ∷ ps) q = ground (arith, is_row-append c u ps q)

pub is_participant-insert :
    (c u d v : ℕ) (r : ParticipantRole) (db : Db)
    → is_participant c u (insert_participant d v r db)
      ≡ (is_participant c u db || nat_beq d c && nat_beq v u)
unfolding is_participant insert_participant
is_participant-insert c u d v r db = is_row-append c u db.participants _

pub is_participant-insert_or_nothing :
    (c u d v : ℕ) (r : ParticipantRole) (db : Db)
    → is_participant c u (insert_or_nothing d v r db)
      ≡ (is_participant c u db || nat_beq d c && nat_beq v u)
unfolding insert_or_nothing
is_participant-insert_or_nothing c u d v r db = ground (arith, is_participant-insert c u d v r db)

find_row-delete_row :
    (c u d v : ℕ) (ps : List Participant)
    → is_found (find_row c u (delete_row d v ps))
      ≡ (not (nat_beq c d && nat_beq u v) && is_found (find_row c u ps))
unfolding find_row delete_row
find_row-delete_row c u d v [] = ground arith
find_row-delete_row c u d v (p ∷ ps) = ground (arith, find_row-delete_row c u d v ps)

-- Removing a member removes that membership and no other.
pub is_participant-remove :
    (c u d v : ℕ) (db : Db)
    → is_participant c u (remove_participant d v db)
      ≡ (not (nat_beq c d && nat_beq u v) && is_participant c u db)
unfolding is_participant remove_participant
is_participant-remove c u d v db = find_row-delete_row c u d v db.participants

find_row-hand_over :
    (c u d v : ℕ) (ps : List Participant)
    → is_found (find_row c u (hand_over d v ps)) ≡ is_found (find_row c u ps)
unfolding find_row hand_over
find_row-hand_over c u d v [] = refl
find_row-hand_over c u d v (p ∷ ps) = ground (arith, find_row-hand_over c u d v ps)

pub is_participant-transfer :
    (c u d v : ℕ) (db : Db) → is_participant c u (transfer_ownership d v db) ≡ is_participant c u db
unfolding is_participant transfer_ownership
is_participant-transfer c u d v db = find_row-hand_over c u d v db.participants

find_row-delete_rows :
    (c u d : ℕ) (ps : List Participant)
    → is_found (find_row c u (delete_rows d ps)) ≡ (not (nat_beq c d) && is_found (find_row c u ps))
unfolding find_row delete_rows
find_row-delete_rows c u d [] = ground arith
find_row-delete_rows c u d (p ∷ ps) = ground (arith, find_row-delete_rows c u d ps)

find_row-advance_marker :
    (c u d v m : ℕ) (ps : List Participant)
    → is_found (find_row c u (advance_marker d v m ps)) ≡ is_found (find_row c u ps)
unfolding find_row advance_marker
find_row-advance_marker c u d v m [] = refl
find_row-advance_marker c u d v m (p ∷ ps) = ground (arith, find_row-advance_marker c u d v m ps)

-- The owner of a conversation that was found.
abbrev pub owner_of : Option Conversation → Option ℕ
owner_of none = none
owner_of (some c) = c.owner_id

abbrev pub is_direct_or_missing : Option Conversation → Bool
is_direct_or_missing none = true
is_direct_or_missing (some c) = not (is_group c)

abbrev pub with_change : (Conversation → Conversation) → Option Conversation → Option Conversation
with_change f none = none
with_change f (some c) = some (f c)

pub find-update :
    (id d : ℕ) (f : Conversation → Conversation) (cs : List Conversation)
    → ((c : Conversation) → (f c).id ≡ c.id)
    → find_conversation id (update_conversation d f cs)
      ≡ (if nat_beq id d then with_change f (find_conversation id cs) else find_conversation id cs)
unfolding find_conversation update_conversation
find-update id d f [] keeps = ground arith
find-update id d f (c ∷ cs) keeps = ground (arith, keeps c, find-update id d f cs keeps)

pub find-delete :
    (id d : ℕ) (cs : List Conversation)
    → find_conversation id (delete_conversation d cs)
      ≡ (if nat_beq id d then none else find_conversation id cs)
unfolding find_conversation delete_conversation
find-delete id d [] = ground arith
find-delete id d (c ∷ cs) = ground (arith, find-delete id d cs)

pub is_participant-remove_conversation :
    (c u d : ℕ) (db : Db)
    → is_participant c u (remove_conversation d db) ≡ (not (nat_beq c d) && is_participant c u db)
unfolding is_participant remove_conversation
is_participant-remove_conversation c u d db = find_row-delete_rows c u d db.participants

pub is_participant-update_last_read :
    (c u d v m : ℕ) (db : Db)
    → is_participant c u (update_last_read d v m db) ≡ is_participant c u db
unfolding is_participant update_last_read
is_participant-update_last_read c u d v m db = find_row-advance_marker c u d v m db.participants
