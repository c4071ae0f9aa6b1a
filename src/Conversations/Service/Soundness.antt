-- ===== src/Conversations/Service/Soundness.antt =====
-- The methods of the conversation service keep the tables sound, whatever they answer.
use realtime_chat.Common.{
  ℕ, ◌≡◌, refl, ◌≢◌, inl, inr, true, ◌&&◌, Option, none, some, List, [], ◌∷◌, arith, Bool-cases,
  Bytes, bytes_eq, nat_eq,
}
use realtime_chat.Errors.{Result, ok, err}
use realtime_chat.Validation.{validate_group_name, ◌>>=◌}
use realtime_chat.Conversations.Tables.{
  ConversationType, direct, group, Conversation, member, Participant, Db, is_group,
}
use realtime_chat.Conversations.Repository.{
  find_by_id, find_row, is_found, find_participant, is_participant, list_participants, rows_of,
  add_participant, rename, transfer_ownership,
}
use realtime_chat.Conversations.Repository.Laws.{owner_of, find-update}
use realtime_chat.Conversations.Repository.Soundness.{
  IsSound, create_or_get_direct-IsSound, create_group-IsSound, insert_participant-IsSound,
  remove_participant-IsSound, transfer_ownership-IsSound, rename-IsSound,
  remove_conversation-IsSound,
}
use realtime_chat.Conversations.World.{
  World, after, store, require_conversation, require_user_exists, is_owned_by,
}
use realtime_chat.Conversations.Service.{
  CreateConversationRequest, other_user, new_group, announce_created, create_as, create, get,
  may_delete, remove, owned_group, announce_renamed, rename_group, or_lost, announce_added,
  add_member, removable, remove_member, successor, depart_owner, depart, leave,
}
use realtime_chat.Conversations.Service.Guards.{
  owned_group_iff, get_iff, removable_iff, is_owned_by-none,
}

after-IsSound {ℓ κ} :
    {A : Type ℓ} {B : Type κ} (r : Result A) (k : A → World → Result B × World) (w : World)
    → IsSound w.db
    → ((a : A) → r ≡ ok a → IsSound (k a w).1.db)
    → IsSound (after r k w).1.db
after-IsSound (ok a) k w h next = next a refl
after-IsSound (err e) k w h next = h

create_as-IsSound :
    (t : ConversationType) (actor : ℕ) (r : CreateConversationRequest) (w : World)
    → IsSound w.db
    → IsSound (create_as t actor r w).1.db
unfolding create_as announce_created
create_as-IsSound direct actor r w h =
    after-IsSound (other_user actor r.participant_ids w.db) _ w h
      (λ other e. create_or_get_direct-IsSound actor other w.db h)
create_as-IsSound group actor r w h =
    after-IsSound (new_group actor r.name r.participant_ids w.db) _ w h
      (λ g e. create_group-IsSound actor g.0 g.1 w.db h)

create-IsSound :
    (actor : ℕ) (r : CreateConversationRequest) (w : World)
    → IsSound w.db
    → IsSound (create actor r w).1.db
unfolding create
create-IsSound actor r w h = create_as-IsSound r.type actor r w h

remove-IsSound : (actor id : ℕ) (w : World) → IsSound w.db → IsSound (remove actor id w).1.db
unfolding remove
remove-IsSound actor id w h =
    after-IsSound (may_delete actor id w.db) _ w h (λ c e. remove_conversation-IsSound id w.db h)

announce_renamed-IsSound :
    (id : ℕ) (w : World) → IsSound w.db → IsSound (announce_renamed id w).1.db
unfolding announce_renamed
announce_renamed-IsSound id w h = after-IsSound (require_conversation id w.db) _ w h (λ c e. h)

rename_group-IsSound :
    (actor id : ℕ) (name : Bytes) (w : World)
    → IsSound w.db
    → IsSound (rename_group actor id name w).1.db
unfolding rename_group
rename_group-IsSound actor id name w h =
    after-IsSound (owned_group actor id w.db >>= λ c. validate_group_name name) _ w h
      (λ n e. announce_renamed-IsSound id (store (rename id n w.db) w) (rename-IsSound id n w.db h))

announce_added-IsSound :
    (actor id user : ℕ) (w : World) → IsSound w.db → IsSound (announce_added actor id user w).1.db
unfolding announce_added
announce_added-IsSound actor id user w h =
    after-IsSound (or_lost (find_participant id user w.db)) _ w h (λ c e. h)

add_participant-IsSound :
    (id user : ℕ) (db : Db) → IsSound db → IsSound (add_participant id user member db).1
unfolding add_participant
add_participant-IsSound id user db h = elim (Bool-cases (is_participant id user db)) [
  | inl e ↦ rw e h
  | inr e ↦ rw e (insert_participant-IsSound id user member db h)
]

add_member-IsSound :
    (actor id user : ℕ) (w : World) → IsSound w.db → IsSound (add_member actor id user w).1.db
unfolding add_member
add_member-IsSound actor id user w h =
    let added = add_participant id user member w.db in
    after-IsSound
      (owned_group actor id w.db >>= λ c. require_user_exists user w.db >>= λ u. added.0) _ w h
      (λ u e.
        announce_added-IsSound actor id user (store added.1 w)
          (add_participant-IsSound id user w.db h))

remove_member-IsSound :
    (actor id target : ℕ) (w : World)
    → IsSound w.db
    → IsSound (remove_member actor id target w).1.db
unfolding remove_member
remove_member-IsSound actor id target w h =
    after-IsSound (removable actor id target w.db) _ w h (λ c e.
      let (owned, other) = (removable_iff actor id target w.db c).0 e in
      let (found, _, _) = (owned_group_iff actor id w.db c).0 owned in
      remove_participant-IsSound id target w.db (λ o. other (rw found at o)) h)

successor_lem :
    (actor id : ℕ) (ps : List Participant) (p : Participant)
    → successor actor (rows_of id ps) ≡ some p
    → (p.user_id ≢ actor) × (is_found (find_row id p.user_id ps) ≡ true)
unfolding successor rows_of find_row
successor_lem actor id [] p h = ground arith
successor_lem actor id (q ∷ ps) p h = ground (arith, successor_lem actor id ps p)

owner-transfer :
    (id u : ℕ) (c : Conversation) (db : Db)
    → find_by_id id db ≡ some c
    → owner_of (find_by_id id (transfer_ownership id u db)) ≡ some u
unfolding find_by_id transfer_ownership
owner-transfer id u c db found =
    ground
      (arith, find-update id id (λ c. record c { owner_id = some u }) db.conversations (λ c. refl))

depart_owner-IsSound :
    (actor id : ℕ) (c : Conversation) (o : Option Participant) (db : Db)
    → find_by_id id db ≡ some c
    → is_group c ≡ true
    → successor actor (list_participants id db) ≡ o
    → IsSound db
    → IsSound (depart_owner actor id o db)
unfolding depart_owner list_participants is_participant find_participant
depart_owner-IsSound actor id c none db found g s h = remove_conversation-IsSound id db h
depart_owner-IsSound actor id c (some p) db found g s h =
    let (other, belongs) = successor_lem actor id db.participants p s in
    remove_participant-IsSound id actor (transfer_ownership id p.user_id db)
      (λ e. ground (arith, owner-transfer id p.user_id c db found))
      (transfer_ownership-IsSound id p.user_id db belongs (ground arith) h)

depart-IsSound :
    (actor id : ℕ) (c : Conversation) (db : Db)
    → find_by_id id db ≡ some c
    → IsSound db
    → IsSound (depart actor id c db)
unfolding depart
depart-IsSound actor id c db found h =
    elim (Bool-cases (is_group c && is_owned_by actor c.owner_id)) [
      | inl e ↦ rw e (
          depart_owner-IsSound actor id c (successor actor (list_participants id db)) db found
            (ground arith) refl h)
      | inr e ↦ rw e (
          remove_participant-IsSound id actor db
            (λ o. ground (arith, h.direct_unowned id, is_owned_by-none actor c.owner_id)) h)
    ]

leave-IsSound : (actor id : ℕ) (w : World) → IsSound w.db → IsSound (leave actor id w).1.db
unfolding leave
leave-IsSound actor id w h =
    after-IsSound (get actor id w.db) _ w h
      (λ c e. depart-IsSound actor id c w.db ((get_iff actor id w.db c).0 e).0 h)

-- The methods that change the tables.
pub data Request : Type 0 where
  create_request : CreateConversationRequest → Request
  remove_request leave_request : ℕ → Request
  rename_request : ℕ → Bytes → Request
  add_request remove_member_request : ℕ → ℕ → Request

unfoldable pub serve : ℕ → Request → World → World
serve actor (create_request r) w = (create actor r w).1
serve actor (remove_request id) w = (remove actor id w).1
serve actor (leave_request id) w = (leave actor id w).1
serve actor (rename_request id name) w = (rename_group actor id name w).1
serve actor (add_request id user) w = (add_member actor id user w).1
serve actor (remove_member_request id user) w = (remove_member actor id user w).1

unfoldable pub serve_all : List (ℕ × Request) → World → World
unfolding serve
serve_all [] w = w
serve_all ((actor, r) ∷ rs) w = serve_all rs (serve actor r w)

serve-IsSound : (actor : ℕ) (r : Request) (w : World) → IsSound w.db → IsSound (serve actor r w).db
unfolding serve
serve-IsSound actor (create_request r) w h = create-IsSound actor r w h
serve-IsSound actor (remove_request id) w h = remove-IsSound actor id w h
serve-IsSound actor (leave_request id) w h = leave-IsSound actor id w h
serve-IsSound actor (rename_request id name) w h = rename_group-IsSound actor id name w h
serve-IsSound actor (add_request id user) w h = add_member-IsSound actor id user w h
serve-IsSound actor (remove_member_request id user) w h = remove_member-IsSound actor id user w h

-- Whatever methods the users call, whether these succeed or throw, sound tables stay sound: the
-- owner of every conversation is one of its members, and direct conversations have no owner.
pub serve_all-IsSound :
    (rs : List (ℕ × Request)) (w : World) → IsSound w.db → IsSound (serve_all rs w).db
unfolding serve_all
serve_all-IsSound [] w h = h
serve_all-IsSound ((actor, r) ∷ rs) w h =
    serve_all-IsSound rs (serve actor r w) (serve-IsSound actor r w h)
