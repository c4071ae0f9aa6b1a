-- ===== src/Conversations/Repository.antt =====
-- The statements of src/repositories/pg_conversation_repository.cpp on the two tables. Each method
-- is one transaction. The unique index on (conversation_id, user_id) and the cascade from
-- conversations to participants are those of migrations/0003_create_conversations.sql.
pub mod Laws
pub mod Soundness
use realtime_chat.Common.{
  to_string, ℕ, ◌+◌, Bool, true, false, not, ◌&&◌, Option, none, some, List, [], ◌∷◌, ◌++◌, map,
  contains, add, ltb, if◌then◌else◌, ◌==◌, nat_eq, Bytes, bytes_eq, pos,
}
use realtime_chat.Errors.{Result, ok, throw, conflict}
use realtime_chat.Conversations.Tables.{
  ConversationType, direct, group, Conversation, ParticipantRole, owner, member, Participant, Db,
}

min_of : ℕ → ℕ → ℕ
min_of a b = if ltb b a then b else a

max_of : ℕ → ℕ → ℕ
max_of a b = if ltb a b then b else a

unfoldable pub direct_key : ℕ → ℕ → Bytes
unfolding min_of max_of
direct_key a b = to_string (pos (min_of a b)) ++ (b':' ∷ to_string (pos (max_of a b)))

unfoldable pub find_conversation : ℕ → List Conversation → Option Conversation
find_conversation id [] = none
find_conversation id (c ∷ cs) = if c.id == id then some c else find_conversation id cs

unfoldable pub find_by_id : ℕ → Db → Option Conversation
unfolding find_conversation
find_by_id id db = find_conversation id db.conversations

has_key : Bytes → Option Bytes → Bool
has_key key none = false
has_key key (some k) = k == key

unfoldable pub find_direct : Bytes → List Conversation → Option Conversation
unfolding has_key
find_direct key [] = none
find_direct key (c ∷ cs) = if has_key key c.direct_key then some c else find_direct key cs

abbrev pub is_row : ℕ → ℕ → Participant → Bool
is_row conversation user p = p.conversation_id == conversation && p.user_id == user

unfoldable pub find_row : ℕ → ℕ → List Participant → Option Participant
find_row conversation user [] = none
find_row conversation user (p ∷ ps) =
    if is_row conversation user p then some p else find_row conversation user ps

unfoldable pub find_participant : ℕ → ℕ → Db → Option Participant
find_participant conversation user db = find_row conversation user db.participants

abbrev pub is_found : Option Participant → Bool
is_found none = false
is_found (some p) = true

unfoldable pub is_participant : ℕ → ℕ → Db → Bool
unfolding find_participant
is_participant conversation user db = is_found (find_participant conversation user db)

unfoldable pub rows_of : ℕ → List Participant → List Participant
rows_of conversation [] = []
rows_of conversation (p ∷ ps) =
    if p.conversation_id == conversation
    then p ∷ rows_of conversation ps
    else rows_of conversation ps

unfoldable pub list_participants : ℕ → Db → List Participant
list_participants conversation db = rows_of conversation db.participants

unfoldable pub list_participant_ids : ℕ → Db → List ℕ
list_participant_ids conversation db = map (λ p. p.user_id) (rows_of conversation db.participants)

unfoldable pub conversations_of : ℕ → List Participant → List ℕ
conversations_of user [] = []
conversations_of user (p ∷ ps) =
    if p.user_id == user
    then p.conversation_id ∷ conversations_of user ps
    else conversations_of user ps

unfoldable pub list_conversation_ids : ℕ → Db → List ℕ
list_conversation_ids user db = conversations_of user db.participants

-- The peers found in a list of conversations, each once.
unfoldable pub peers_in : ℕ → List ℕ → List Participant → List ℕ
peers_in user cs [] = []
peers_in user cs (p ∷ ps) =
    if contains p.conversation_id cs && not (p.user_id == user)
    then add p.user_id (peers_in user cs ps)
    else peers_in user cs ps

unfoldable pub list_peer_ids : ℕ → Db → List ℕ
list_peer_ids user db = peers_in user (conversations_of user db.participants) db.participants

-- INSERT of a participant whose pair is new.
unfoldable pub insert_participant : ℕ → ℕ → ParticipantRole → Db → Db
insert_participant conversation user role db = record db {
  participants =
      db.participants
      ++ (record {
        id = db.next_participant;
        conversation_id = conversation;
        user_id = user;
        role = role;
        last_read_message_id = none;
      }
          ∷ []);
  next_participant = db.next_participant + 1;
}

-- The same with ON CONFLICT (conversation_id, user_id) DO NOTHING.
unfoldable pub insert_or_nothing : ℕ → ℕ → ParticipantRole → Db → Db
unfolding insert_participant
insert_or_nothing conversation user role db =
    if is_participant conversation user db then db else insert_participant conversation user role db

unfoldable pub insert_conversation :
    ConversationType → Option Bytes → Option ℕ → Option Bytes → Db → Conversation × Db
insert_conversation type name owner_id key db =
    let conversation : Conversation = record {
      id = db.next_conversation;
      type = type;
      name = name;
      owner_id = owner_id;
      direct_key = key;
    } in
    (
      conversation,
      record db {
        conversations = conversation ∷ db.conversations;
        next_conversation = db.next_conversation + 1;
      },
    )

-- The upsert on the unique index of the direct key.
unfoldable pub upsert_direct : Option Conversation → Bytes → Db → Conversation × Db
unfolding insert_conversation
upsert_direct (some c) key db = (c, db)
upsert_direct none key db = insert_conversation direct none none (some key) db

unfoldable pub create_or_get_direct : ℕ → ℕ → Db → Conversation × Db
unfolding upsert_direct
create_or_get_direct a b db =
    let (c, db') =
      upsert_direct (find_direct (direct_key a b) db.conversations) (direct_key a b) db in
    (c, insert_or_nothing c.id b member (insert_or_nothing c.id a member db'))

unfoldable pub insert_members : ℕ → ℕ → List ℕ → Db → Db
insert_members conversation owner_id [] db = db
insert_members conversation owner_id (m ∷ ms) db =
    insert_members conversation owner_id ms
      (if m == owner_id then db else insert_or_nothing conversation m member db)

unfoldable pub create_group : ℕ → Bytes → List ℕ → Db → Conversation × Db
unfolding insert_conversation
create_group owner_id name member_ids db =
    let (c, db') = insert_conversation group (some name) (some owner_id) none db in
    (c, insert_members c.id owner_id member_ids (insert_participant c.id owner_id owner db'))

unfoldable pub add_participant : ℕ → ℕ → ParticipantRole → Db → Result (Unit {0}) × Db
add_participant conversation user role db =
    if is_participant conversation user db
    then (throw conflict "User is already a member of the conversation" [], db)
    else (ok tt, insert_participant conversation user role db)

unfoldable pub delete_row : ℕ → ℕ → List Participant → List Participant
delete_row conversation user [] = []
delete_row conversation user (p ∷ ps) =
    if is_row conversation user p
    then delete_row conversation user ps
    else p ∷ delete_row conversation user ps

unfoldable pub remove_participant : ℕ → ℕ → Db → Db
remove_participant conversation user db = record db {
  participants = delete_row conversation user db.participants;
}

unfoldable pub update_conversation :
    ℕ → (Conversation → Conversation) → List Conversation → List Conversation
update_conversation id f [] = []
update_conversation id f (c ∷ cs) = (if c.id == id then f c else c) ∷ update_conversation id f cs

unfoldable pub rename : ℕ → Bytes → Db → Db
rename id name db = record db {
  conversations = update_conversation id (λ c. record c { name = some name }) db.conversations;
}

abbrev is_owner : ParticipantRole → Bool
is_owner owner = true
is_owner member = false

-- Demotes the owners of a conversation but the new one, and promotes that one.
unfoldable pub hand_over : ℕ → ℕ → List Participant → List Participant
hand_over conversation user [] = []
hand_over conversation user (p ∷ ps) =
    (if p.conversation_id == conversation
      then if p.user_id == user
        then record p { role = owner }
        else if is_owner p.role
        then record p { role = member }
        else p
      else p)
    ∷ hand_over conversation user ps

unfoldable pub transfer_ownership : ℕ → ℕ → Db → Db
transfer_ownership conversation user db = record db {
  conversations =
      update_conversation conversation (λ c. record c { owner_id = some user }) db.conversations;
  participants = hand_over conversation user db.participants;
}

unfoldable pub delete_conversation : ℕ → List Conversation → List Conversation
delete_conversation id [] = []
delete_conversation id (c ∷ cs) =
    if c.id == id then delete_conversation id cs else c ∷ delete_conversation id cs

unfoldable pub delete_rows : ℕ → List Participant → List Participant
delete_rows conversation [] = []
delete_rows conversation (p ∷ ps) =
    if p.conversation_id == conversation
    then delete_rows conversation ps
    else p ∷ delete_rows conversation ps

unfoldable pub remove_conversation : ℕ → Db → Db
remove_conversation id db = record db {
  conversations = delete_conversation id db.conversations;
  participants = delete_rows id db.participants;
}

greatest : Option ℕ → ℕ → ℕ
greatest none n = n
greatest (some m) n = if ltb m n then n else m

unfoldable pub advance_marker : ℕ → ℕ → ℕ → List Participant → List Participant
unfolding greatest
advance_marker conversation user message [] = []
advance_marker conversation user message (p ∷ ps) =
    (if is_row conversation user p
      then record p { last_read_message_id = some (greatest p.last_read_message_id message) }
      else p)
    ∷ advance_marker conversation user message ps

unfoldable pub update_last_read : ℕ → ℕ → ℕ → Db → Db
update_last_read conversation user message db = record db {
  participants = advance_marker conversation user message db.participants;
}
