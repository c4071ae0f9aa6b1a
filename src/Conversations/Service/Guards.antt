-- ===== src/Conversations/Service/Guards.antt =====
-- What the guards of the conversation service let through.
use realtime_chat.Common.{
  to_string, ℕ, ◌≡◌, ◌≢◌, ◌↔◌, ◌⊎◌, true, false, Option, none, some, [], ◌++◌, arith, codes, pos,
}
use realtime_chat.Errors.{ok, throw, not_found}
use realtime_chat.Conversations.Tables.{Conversation, Db, is_group}
use realtime_chat.Conversations.Repository.{find_by_id, is_participant}
use realtime_chat.Conversations.World.{
  require_conversation, require_participant, require_owner, is_owned_by,
}
use realtime_chat.Conversations.Service.{get, may_delete, owned_group, removable}

pub is_owned_by-some : (u : ℕ) (o : Option ℕ) → is_owned_by u o ≡ true → o ≡ some u
unfolding is_owned_by
is_owned_by-some u none h = ground arith
is_owned_by-some u (some o) h = ground arith

pub is_owned_by-none : (u : ℕ) (o : Option ℕ) → is_owned_by u o ≡ false → o ≢ some u
unfolding is_owned_by
is_owned_by-none u none h = λ e. ground arith
is_owned_by-none u (some o) h = λ e. ground arith

-- The guard of the owner's operations lets a conversation through exactly if it exists, is a group,
-- and is owned by the actor.
pub owned_group_iff :
    (actor id : ℕ) (db : Db) (c : Conversation)
    → (owned_group actor id db ≡ ok c)
      ↔ ((find_by_id id db ≡ some c) × (is_group c ≡ true) × (c.owner_id ≡ some actor))
unfolding owned_group require_conversation require_owner is_owned_by
owned_group_iff actor id db c = (λ h. ground arith, λ h. ground arith)

-- A conversation is returned exactly if it exists and the actor is a member of it.
pub get_iff :
    (actor id : ℕ) (db : Db) (c : Conversation)
    → (get actor id db ≡ ok c) ↔ ((find_by_id id db ≡ some c) × (is_participant id actor db ≡ true))
unfolding get require_conversation require_participant
get_iff actor id db c = (λ h. ground arith, λ h. ground arith)

-- A member may be removed exactly by the owner of the group, and the owner may not be.
pub removable_iff :
    (actor id target : ℕ) (db : Db) (c : Conversation)
    → (removable actor id target db ≡ ok c)
      ↔ ((owned_group actor id db ≡ ok c) × (c.owner_id ≢ some target))
unfolding removable is_owned_by
removable_iff actor id target db c = (λ h. ground arith, λ h. ground arith)

-- A conversation may be deleted exactly if it exists, and a group is deleted by its owner, a direct
-- conversation by a member.
pub may_delete_iff :
    (actor id : ℕ) (db : Db) (c : Conversation)
    → (may_delete actor id db ≡ ok c) ↔ (
        (find_by_id id db ≡ some c)
        × ((is_group c ≡ true) × (c.owner_id ≡ some actor)
            ⊎ (is_group c ≡ false) × (is_participant id actor db ≡ true)))
unfolding may_delete require_conversation require_participant require_owner is_owned_by
may_delete_iff actor id db c = (λ h. ground arith, λ h. ground arith)

-- A conversation that does not exist and one that the actor is not a member of are both refused with
-- the exception "not found" and the same message; but the details name the id of the conversation
-- that does not exist and are empty for the other, so they tell the two apart.
pub get-discloses :
    (actor id : ℕ) (db db' : Db) (c : Conversation)
    → find_by_id id db ≡ none
    → find_by_id id db' ≡ some c
    → is_participant id actor db' ≡ false
    → (get actor id db
        ≡ throw not_found "Conversation not found" (codes "conversation_id=" ++ to_string (pos id)))
      × (get actor id db' ≡ throw not_found "Conversation not found" [])
      × (codes "conversation_id=" ++ to_string (pos id) ≢ [])
unfolding get require_conversation require_participant
get-discloses actor id db db' c missing found outside =
    (ground arith, ground arith, λ e. ground arith)
