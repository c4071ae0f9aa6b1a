-- ===== src/Conversations/Service.antt =====
-- The conversation service of src/services/conversation_service.cpp. A method is its guards, which
-- read the tables and give a value or the exception thrown, and then its effects: what is written
-- to the tables and what is handed to the broadcaster, the notifier and the event publisher. The
-- JSON of a payload is left as the values it is made of.
pub mod Guards
pub mod Soundness
use realtime_chat.Common.{
  ℕ, not, ◌&&◌, Option, none, some, List, [], ◌∷◌, ltb, if◌then◌else◌, Bytes, codes, ◌==◌, bytes_eq,
  nat_eq,
}
use realtime_chat.Errors.{Result, ok, err, throw, validation, authorization, not_found, internal}
use realtime_chat.Conversations.World.{
  conversation_payload, conversation_id_payload, member_payload, added_to_group, removed_from_group,
  conversation_created, conversation_deleted, member_added, member_removed, World, store, broadcast,
  notify, publish, after, require_conversation, require_participant, is_owned_by, require_owner,
  require_user_exists,
}
use realtime_chat.Validation.{validate_group_name, ◌>>=◌}
use realtime_chat.Conversations.Tables.{
  ConversationType, direct, group, Conversation, ParticipantRole, owner, member, Participant, Db,
  is_group,
}
use realtime_chat.Conversations.Repository.{
  find_by_id, find_participant, is_participant, list_participants, list_participant_ids,
  create_or_get_direct, create_group, add_participant, remove_participant, rename,
  transfer_ownership, remove_conversation,
}

pub record CreateConversationRequest : Type 0 where
  pub type : ConversationType
  pub name : Option Bytes
  pub participant_ids : List ℕ

-- The one other user of a new direct conversation.
unfoldable pub other_user : ℕ → List ℕ → Db → Result ℕ
other_user actor (other ∷ []) db =
    if other == actor
    then throw validation "Cannot start a direct conversation with yourself"
        (codes "field=participant_ids")
    else (require_user_exists other db >>= λ u. ok other)
other_user actor _ db =
    throw validation "A direct conversation requires exactly one other user"
      (codes "field=participant_ids")

unfoldable pub group_name : Option Bytes → Result Bytes
group_name none = throw validation "A group requires a name" (codes "field=name")
group_name (some name) = validate_group_name name

-- Into a std::set, which is in increasing order.
unfoldable pub insert_sorted : ℕ → List ℕ → List ℕ
insert_sorted n [] = n ∷ []
insert_sorted n (m ∷ ms) =
    if n == m then m ∷ ms else if ltb n m then n ∷ m ∷ ms else m ∷ insert_sorted n ms

-- The members of a new group without its actor.
unfoldable pub unique_members : ℕ → List ℕ → List ℕ
unique_members actor [] = []
unique_members actor (m ∷ ms) =
    if m == actor then unique_members actor ms else insert_sorted m (unique_members actor ms)

unfoldable pub require_users_exist : List ℕ → Db → Result (Unit {0})
require_users_exist [] db = ok tt
require_users_exist (m ∷ ms) db = require_user_exists m db >>= λ u. require_users_exist ms db

unfoldable pub new_group : ℕ → Option Bytes → List ℕ → Db → Result (Bytes × List ℕ)
new_group actor name ids db = group_name name >>= λ n.
    require_users_exist (unique_members actor ids) db >>= λ u. ok (n, unique_members actor ids)

unfoldable pub announce_created : ℕ → Conversation × Db → World → Result Conversation × World
announce_created actor (c, db) w =
    let ids = list_participant_ids c.id db in
    let payload = conversation_payload c (list_participants c.id db) in
    (
      ok c,
      publish (conversation_created c.id actor (is_group c) ids)
          (broadcast ids "conversation.created" payload (store db w)),
    )

abbrev pub create_direct : ℕ → List ℕ → World → Result Conversation × World
create_direct actor ids w =
    after (other_user actor ids w.db)
      (λ other w. announce_created actor (create_or_get_direct actor other w.db) w) w

abbrev pub create_named : ℕ → Option Bytes → List ℕ → World → Result Conversation × World
create_named actor name ids w =
    after (new_group actor name ids w.db)
      (λ g w. announce_created actor (create_group actor g.0 g.1 w.db) w) w

unfoldable pub create_as :
    ConversationType → ℕ → CreateConversationRequest → World → Result Conversation × World
create_as direct actor r w = create_direct actor r.participant_ids w
create_as group actor r w = create_named actor r.name r.participant_ids w

unfoldable pub create : ℕ → CreateConversationRequest → World → Result Conversation × World
unfolding create_as
create actor r w = create_as r.type actor r w

unfoldable pub get : ℕ → ℕ → Db → Result Conversation
get actor id db = require_conversation id db >>= λ c. require_participant id actor db >>= λ u. ok c

-- A direct conversation is deleted by its members, a group by its owner.
unfoldable pub may_delete : ℕ → ℕ → Db → Result Conversation
may_delete actor id db = require_conversation id db >>= λ c.
    (if is_group c then require_owner c actor else require_participant id actor db) >>= λ u. ok c

unfoldable pub remove : ℕ → ℕ → World → Result (Unit {0}) × World
remove actor id w =
    after (may_delete actor id w.db)
      (λ c w. (
        ok tt,
        publish (conversation_deleted id actor) (
            broadcast (list_participant_ids id w.db) "conversation.deleted"
              (conversation_id_payload id) (store (remove_conversation id w.db) w)),
      ))
      w

-- The guard of the operations of a group's owner.
unfoldable pub owned_group : ℕ → ℕ → Db → Result Conversation
owned_group actor id db = require_conversation id db >>= λ c. require_owner c actor >>= λ u. ok c

unfoldable pub announce_renamed : ℕ → World → Result Conversation × World
announce_renamed id w =
    after (require_conversation id w.db)
      (λ c w. (
        ok c,
        broadcast (list_participant_ids id w.db) "conversation.created"
            (conversation_payload c (list_participants id w.db)) w,
      ))
      w

unfoldable pub rename_group : ℕ → ℕ → Bytes → World → Result Conversation × World
rename_group actor id name w =
    after (owned_group actor id w.db >>= λ c. validate_group_name name)
      (λ n w. announce_renamed id (store (rename id n w.db) w)) w

unfoldable pub or_lost : Option Participant → Result Participant
or_lost none = throw internal "Failed to load newly added participant" []
or_lost (some p) = ok p

unfoldable pub announce_added : ℕ → ℕ → ℕ → World → Result Participant × World
announce_added actor id user w =
    after (or_lost (find_participant id user w.db))
      (λ p w. (
        ok p,
        publish (member_added id user actor) (
            notify (added_to_group id user actor) (
              broadcast (list_participant_ids id w.db) "conversation.member_added"
                (member_payload id user) w)),
      ))
      w

unfoldable pub add_member : ℕ → ℕ → ℕ → World → Result Participant × World
add_member actor id user w =
    let added = add_participant id user member w.db in
    after (owned_group actor id w.db >>= λ c. require_user_exists user w.db >>= λ u. added.0)
      (λ u w. announce_added actor id user (store added.1 w)) w

-- A member of the actor's group who is not its owner.
unfoldable pub removable : ℕ → ℕ → ℕ → Db → Result Conversation
removable actor id target db = owned_group actor id db >>= λ c.
    if is_owned_by target c.owner_id
    then throw validation "The owner cannot be removed; transfer ownership or delete" []
    else ok c

unfoldable pub remove_member : ℕ → ℕ → ℕ → World → Result (Unit {0}) × World
remove_member actor id target w =
    after (removable actor id target w.db)
      (λ c w. (
        ok tt,
        publish (member_removed id target actor) (
            notify (removed_from_group id target actor) (
              broadcast (list_participant_ids id w.db) "conversation.member_removed"
                (member_payload id target) (store (remove_participant id target w.db) w))),
      ))
      w

-- The earliest member but the actor.
unfoldable pub successor : ℕ → List Participant → Option Participant
successor actor [] = none
successor actor (p ∷ ps) = if not (p.user_id == actor) then some p else successor actor ps

unfoldable pub depart_owner : ℕ → ℕ → Option Participant → Db → Db
depart_owner actor id none db = remove_conversation id db
depart_owner actor id (some p) db = remove_participant id actor (transfer_ownership id p.user_id db)

unfoldable pub depart : ℕ → ℕ → Conversation → Db → Db
depart actor id c db =
    if is_group c && is_owned_by actor c.owner_id
    then depart_owner actor id (successor actor (list_participants id db)) db
    else remove_participant id actor db

-- The reads and the writes of `leave` are transactions of their own; here the call runs alone.
unfoldable pub leave : ℕ → ℕ → World → Result (Unit {0}) × World
leave actor id w =
    after (get actor id w.db)
      (λ c w. (
        ok tt,
        broadcast (list_participant_ids id w.db) "conversation.member_removed"
            (member_payload id actor) (store (depart actor id c w.db) w),
      ))
      w
