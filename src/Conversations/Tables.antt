-- ===== src/Conversations/Tables.antt =====
-- The rows of conversations and conversation_participants
-- (include/rtc/models/conversation.hpp, conversation_participant.hpp). Timestamps are left out: rows
-- of participants stand in the order of insertion, which is the order by (joined_at, id).
use realtime_chat.Common.{ℕ, Bool, true, false, Option, List, Bytes}

pub data ConversationType : Type 0 where
  direct group : ConversationType

pub record Conversation : Type 0 where
  pub id : ℕ
  pub type : ConversationType
  pub name : Option Bytes
  pub owner_id : Option ℕ
  pub direct_key : Option Bytes

unfoldable pub is_group_type : ConversationType → Bool
is_group_type direct = false
is_group_type group = true

unfoldable pub is_group : Conversation → Bool
unfolding is_group_type
is_group c = is_group_type c.type

pub data ParticipantRole : Type 0 where
  owner member : ParticipantRole

pub record Participant : Type 0 where
  pub id : ℕ
  pub conversation_id : ℕ
  pub user_id : ℕ
  pub role : ParticipantRole
  pub last_read_message_id : Option ℕ

pub record Db : Type 0 where
  pub conversations : List Conversation
  pub participants : List Participant
  -- The ids of the users table.
  pub users : List ℕ
  pub next_conversation : ℕ
  pub next_participant : ℕ
