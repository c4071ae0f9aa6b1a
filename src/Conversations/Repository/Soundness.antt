-- ===== src/Conversations/Repository/Soundness.antt =====
-- The invariant that the owner of a conversation is one of its members, and the statements that
-- keep it.
use realtime_chat.Common.{
  ℕ, ◌≡◌, refl, ◌≢◌, inl, inr, true, false, Option, none, some, List, [], ◌∷◌, arith, nat_beq,
  Bool-cases, Bytes,
}
use realtime_chat.Conversations.Tables.{
  ConversationType, group, Conversation, ParticipantRole, owner, member, Db, is_group,
  is_group_type,
}
use realtime_chat.Conversations.Repository.{
  find_conversation, find_by_id, find_direct, direct_key, find_participant, is_participant,
  insert_participant, insert_or_nothing, insert_conversation, upsert_direct, create_or_get_direct,
  insert_members, create_group, remove_participant, rename, transfer_ownership, remove_conversation,
  update_last_read,
}
use realtime_chat.Conversations.Repository.Laws.{
  owner_of, is_direct_or_missing, find-update, find-delete, is_participant-insert,
  is_participant-remove, is_participant-transfer, is_participant-remove_conversation,
  is_participant-update_last_read,
}

-- The owner of a conversation is one of its members, and only groups have owners.
pub record IsSound (db : Db) : Type 0 where
  pub owner_belongs :
      (id u : ℕ) → owner_of (find_by_id id db) ≡ some u → is_participant id u db ≡ true
  pub direct_unowned :
      (id : ℕ) → is_direct_or_missing (find_by_id id db) ≡ true → owner_of (find_by_id id db) ≡ none

-- Statements that keep the conversations and lose no member.
grows-IsSound :
    (db db' : Db)
    → ((id : ℕ) → find_by_id id db' ≡ find_by_id id db)
    → ((id u : ℕ) → is_participant id u db ≡ true → is_participant id u db' ≡ true)
    → IsSound db
    → IsSound db'
grows-IsSound db db' same grows h = record {
  owner_belongs = λ id u e. grows id u (h.owner_belongs id u (rw (same id) at e));
  direct_unowned = λ id e. rw (same id) (h.direct_unowned id (rw (same id) at e));
}

pub insert_participant-IsSound :
    (d v : ℕ) (r : ParticipantRole) (db : Db) → IsSound db → IsSound (insert_participant d v r db)
unfolding find_by_id insert_participant
insert_participant-IsSound d v r db =
    grows-IsSound db (insert_participant d v r db) (λ id. refl)
      (λ id u e. ground (arith, is_participant-insert id u d v r db))

pub insert_or_nothing-IsSound :
    (d v : ℕ) (r : ParticipantRole) (db : Db) → IsSound db → IsSound (insert_or_nothing d v r db)
unfolding insert_or_nothing
insert_or_nothing-IsSound d v r db h = elim (Bool-cases (is_participant d v db)) [
  | inl e ↦ rw e h
  | inr e ↦ rw e (insert_participant-IsSound d v r db h)
]

insert_members-IsSound :
    (d o : ℕ) (ms : List ℕ) (db : Db) → IsSound db → IsSound (insert_members d o ms db)
unfolding insert_members
insert_members-IsSound d o [] db h = h
insert_members-IsSound d o (m ∷ ms) db h =
    insert_members-IsSound d o ms _ (elim (Bool-cases (nat_beq m o)) [
      | inl e ↦ rw e h
      | inr e ↦ rw e (insert_or_nothing-IsSound d m member db h)
    ])

upsert_direct-IsSound :
    (o : Option Conversation) (key : Bytes) (db : Db)
    → IsSound db
    → IsSound (upsert_direct o key db).1
unfolding upsert_direct find_by_id find_conversation is_participant find_participant
upsert_direct-IsSound (some c) key db h = h
upsert_direct-IsSound none key db h = record {
  owner_belongs = λ id u e. ground (arith, h.owner_belongs id u);
  direct_unowned = λ id e. ground (arith, h.direct_unowned id);
}

pub create_or_get_direct-IsSound :
    (a b : ℕ) (db : Db) → IsSound db → IsSound (create_or_get_direct a b db).1
unfolding create_or_get_direct
create_or_get_direct-IsSound a b db h = insert_or_nothing-IsSound _ b member _ (
    insert_or_nothing-IsSound _ a member _
      (upsert_direct-IsSound (find_direct (direct_key a b) db.conversations) (direct_key a b) db h))

-- A new row of conversations changes no membership.
is_participant-insert_conversation :
    (t : ConversationType) (n : Option Bytes) (o : Option ℕ) (k : Option Bytes) (db : Db) (id u : ℕ)
    → is_participant id u (insert_conversation t n o k db).1 ≡ is_participant id u db
unfolding is_participant find_participant insert_conversation
is_participant-insert_conversation t n o k db id u = refl

pub create_group-IsSound :
    (o : ℕ) (name : Bytes) (ms : List ℕ) (db : Db)
    → IsSound db
    → IsSound (create_group o name ms db).1
unfolding create_group find_by_id find_conversation is_group is_group_type insert_participant
    insert_conversation
create_group-IsSound o name ms db h =
    let inserted = insert_conversation group (some name) (some o) none db in
    insert_members-IsSound db.next_conversation o ms _ (record {
      owner_belongs = λ id u e. ground (
        arith,
        h.owner_belongs id u,
        is_participant-insert id u db.next_conversation o owner inserted.1,
        is_participant-insert_conversation group (some name) (some o) none db id u,
      );
      direct_unowned = λ id e. ground (arith, h.direct_unowned id);
    })

-- A member may be removed who is not the owner.
pub remove_participant-IsSound :
    (d v : ℕ) (db : Db)
    → owner_of (find_by_id d db) ≢ some v
    → IsSound db
    → IsSound (remove_participant d v db)
unfolding remove_participant find_by_id
remove_participant-IsSound d v db ne h = record {
  owner_belongs = λ id u e. ground (arith, h.owner_belongs id u, is_participant-remove id u d v db);
  direct_unowned = λ id e. ground (arith, h.direct_unowned id);
}

-- A group may be handed over to one of its members.
pub transfer_ownership-IsSound :
    (d v : ℕ) (db : Db)
    → is_participant d v db ≡ true
    → is_direct_or_missing (find_by_id d db) ≡ false
    → IsSound db
    → IsSound (transfer_ownership d v db)
unfolding transfer_ownership find_by_id is_group
transfer_ownership-IsSound d v db m g h = record {
  owner_belongs = λ id u e. ground (
    arith,
    h.owner_belongs id u,
    find-update d d (λ c. record c { owner_id = some v }) db.conversations (λ c. refl),
    find-update id d (λ c. record c { owner_id = some v }) db.conversations (λ c. refl),
    is_participant-transfer id u d v db,
  );
  direct_unowned = λ id e. ground (
    arith,
    h.direct_unowned id,
    find-update id d (λ c. record c { owner_id = some v }) db.conversations (λ c. refl),
  );
}

pub rename-IsSound : (d : ℕ) (name : Bytes) (db : Db) → IsSound db → IsSound (rename d name db)
unfolding rename find_by_id is_group is_participant find_participant
rename-IsSound d name db h = record {
  owner_belongs = λ id u e. ground (
    arith,
    h.owner_belongs id u,
    find-update id d (λ c. record c { name = some name }) db.conversations (λ c. refl),
  );
  direct_unowned = λ id e. ground (
    arith,
    h.direct_unowned id,
    find-update id d (λ c. record c { name = some name }) db.conversations (λ c. refl),
  );
}

pub remove_conversation-IsSound :
    (d : ℕ) (db : Db) → IsSound db → IsSound (remove_conversation d db)
unfolding remove_conversation find_by_id
remove_conversation-IsSound d db h = record {
  owner_belongs = λ id u e. ground (
    arith,
    h.owner_belongs id u,
    find-delete id d db.conversations,
    is_participant-remove_conversation id u d db,
  );
  direct_unowned = λ id e. ground (arith, h.direct_unowned id, find-delete id d db.conversations);
}

pub update_last_read-IsSound :
    (d v m : ℕ) (db : Db) → IsSound db → IsSound (update_last_read d v m db)
unfolding update_last_read find_by_id
update_last_read-IsSound d v m db =
    grows-IsSound db (update_last_read d v m db) (λ id. refl)
      (λ id u e. ground (arith, is_participant-update_last_read id u d v m db))
