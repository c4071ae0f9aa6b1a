-- ===== src/Conversations/World.antt =====
-- What the conversation service works on, and the checks that its methods share
-- (src/services/conversation_service.cpp): the tables and what has been handed to the broadcaster,
-- the notifier and the event publisher.
use realtime_chat.Common.{
  to_string, ℕ, String, Bool, false, not, Option, none, some, List, [], ◌∷◌, ◌++◌, contains,
  if◌then◌else◌, codes, ◌==◌, bytes_eq, nat_eq, pos,
}
use realtime_chat.Errors.{Result, ok, err, throw, validation, authorization, not_found}
use realtime_chat.Conversations.Tables.{Conversation, Participant, Db, is_group}
use realtime_chat.Conversations.Repository.{find_by_id, is_participant}

pub data Payload : Type 0 where
  conversation_payload : Conversation → List Participant → Payload
  conversation_id_payload : ℕ → Payload
  member_payload : ℕ → ℕ → Payload

pub record Broadcast : Type 0 where
  pub user_ids : List ℕ
  pub event : String
  pub payload : Payload

pub data Notice : Type 0 where
  added_to_group removed_from_group : ℕ → ℕ → ℕ → Notice

pub data DomainEvent : Type 0 where
  conversation_created : ℕ → ℕ → Bool → List ℕ → DomainEvent
  conversation_deleted : ℕ → ℕ → DomainEvent
  member_added member_removed : ℕ → ℕ → ℕ → DomainEvent

-- The tables and what has been handed out, the latest first. The events are none where no
-- publisher is attached.
pub record World : Type 0 where
  pub db : Db
  pub broadcasts : List Broadcast
  pub notices : List Notice
  pub events : Option (List DomainEvent)

abbrev pub store : Db → World → World
store db w = record w { db = db }

abbrev pub broadcast : List ℕ → String → Payload → World → World
broadcast ids event payload w = record w {
  broadcasts = record { user_ids = ids; event = event; payload = payload } ∷ w.broadcasts;
}

abbrev pub notify : Notice → World → World
notify n w = record w { notices = n ∷ w.notices }

abbrev pub cons_event : DomainEvent → Option (List DomainEvent) → Option (List DomainEvent)
cons_event e none = none
cons_event e (some es) = some (e ∷ es)

abbrev pub publish : DomainEvent → World → World
publish e w = record w { events = cons_event e w.events }

-- The effects of a method, once its guards have passed.
abbrev pub after {ℓ κ} :
    {A : Type ℓ} {B : Type κ} {W : Type 0} → Result A → (A → W → Result B × W) → W → Result B × W
after (ok a) k w = k a w
after (err e) k w = (err e, w)

abbrev or_missing : ℕ → Option Conversation → Result Conversation
or_missing id none =
    throw not_found "Conversation not found" (codes "conversation_id=" ++ to_string (pos id))
or_missing id (some c) = ok c

unfoldable pub require_conversation : ℕ → Db → Result Conversation
require_conversation id db = or_missing id (find_by_id id db)

unfoldable pub require_participant : ℕ → ℕ → Db → Result (Unit {0})
require_participant id user db =
    if is_participant id user db then ok tt else throw not_found "Conversation not found" []

unfoldable pub is_owned_by : ℕ → Option ℕ → Bool
is_owned_by user none = false
is_owned_by user (some o) = o == user

unfoldable pub require_owner : Conversation → ℕ → Result (Unit {0})
require_owner c user =
    if not (is_group c)
    then throw validation "Operation is only valid for group conversations" []
    else if not (is_owned_by user c.owner_id)
    then throw authorization "Only the group owner may perform this action" []
    else ok tt

unfoldable pub require_user_exists : ℕ → Db → Result (Unit {0})
require_user_exists user db =
    if contains user db.users
    then ok tt
    else throw not_found "User not found" (codes "user_id=" ++ to_string (pos user))
