-- ===== src/Tests/Conversations.antt =====
-- Witnesses for the conversation service.
use realtime_chat.Common.{
  to_string, ℕ, ◌≡◌, refl, ◌≢◌, ◌↔◌, true, none, some, List, [], ◌∷◌, ◌++◌, arith, contains, codes,
  bytes_eq, nat_eq, pos,
}
use realtime_chat.Errors.{not_found, ok, throw}
use realtime_chat.Validation.{is_space, trim_left, trim_right, trim, validate_group_name}
use realtime_chat.Conversations.Tables.{
  group, Conversation, is_group_type, is_group, ParticipantRole, owner, member, Participant, Db,
}
use realtime_chat.Conversations.Repository.{
  find_conversation, find_by_id, find_row, find_participant, is_participant, rows_of,
  list_participants, list_participant_ids, insert_participant, insert_or_nothing,
  insert_conversation, insert_members, create_group, add_participant, delete_row,
  remove_participant, update_conversation, hand_over, transfer_ownership,
}
use realtime_chat.Conversations.Repository.Soundness.{IsSound}
use realtime_chat.Conversations.World.{
  World, require_conversation, require_participant, is_owned_by, require_owner, require_user_exists,
}
use realtime_chat.Conversations.Service.{
  CreateConversationRequest, group_name, insert_sorted, unique_members, require_users_exist,
  new_group, announce_created, create_as, create, get, owned_group, or_lost, announce_added,
  add_member, removable, remove_member, successor, depart_owner, depart, leave,
}
use realtime_chat.Conversations.Service.Guards.{owned_group_iff, get-discloses}
use realtime_chat.Conversations.Service.Soundness.{
  Request, create_request, leave_request, add_request, remove_member_request, serve, serve_all,
  serve_all-IsSound,
}

abbrev row_of : ℕ → ℕ → ParticipantRole → Participant
row_of n user role = record {
  id = n;
  conversation_id = 5;
  user_id = user;
  role = role;
  last_read_message_id = none;
}

-- A group of 1, its owner, and 2.
abbrev team : Conversation
team = record {
  id = 5;
  type = group;
  name = some (codes "Team");
  owner_id = some 1;
  direct_key = none;
}

abbrev no_rows : Db
no_rows = record {
  conversations = [];
  participants = [];
  users = 1 ∷ 2 ∷ 3 ∷ [];
  next_conversation = 5;
  next_participant = 7;
}

abbrev team_db : Db
team_db = record no_rows {
  conversations = team ∷ [];
  participants = row_of 7 1 owner ∷ row_of 8 2 member ∷ [];
  next_conversation = 6;
  next_participant = 9;
}

abbrev empty_world : World
empty_world = record { db = no_rows; broadcasts = []; notices = []; events = some [] }

no_rows-IsSound : IsSound no_rows
unfolding find_by_id find_conversation
no_rows-IsSound = record { owner_belongs = λ id u e. ground arith; direct_unowned = λ id e. refl }

abbrev team_request : CreateConversationRequest
team_request = record { type = group; name = some (codes "Team"); participant_ids = 2 ∷ 3 ∷ [] }

abbrev history : List (ℕ × Request)
history =
    (1, create_request team_request)
    ∷ (2, add_request 5 3)
    ∷ (1, leave_request 5)
    ∷ (2, remove_member_request 5 3)
    ∷ []

-- What the history leaves: 2 has taken the group over, and 3 has been removed.
history_result :
    list_participants 5 (serve_all history empty_world).db
    ≡ record { id = 8; conversation_id = 5; user_id = 2; role = owner; last_read_message_id = none }
      ∷ []
unfolding serve_all list_participants rows_of remove_member removable owned_group
    require_conversation find_by_id leave get add_member create new_group group_name
    validate_group_name trim trim_right trim_left is_space contains add_participant create_group
    delete_row find_conversation find_participant find_row hand_over insert_conversation
    insert_members insert_or_nothing insert_participant is_participant list_participant_ids
    remove_participant transfer_ownership update_conversation announce_added announce_created
    create_as depart depart_owner insert_sorted is_owned_by or_lost require_owner
    require_participant require_user_exists require_users_exist successor unique_members is_group
    is_group_type serve
history_result = refl

serve_all-IsSound_example : IsSound (serve_all history empty_world).db
serve_all-IsSound_example = serve_all-IsSound history empty_world no_rows-IsSound

owned_group_iff_example :
    (owned_group 1 5 team_db ≡ ok team)
    ↔ ((find_by_id 5 team_db ≡ some team) × (is_group team ≡ true) × (team.owner_id ≡ some 1))
owned_group_iff_example = owned_group_iff 1 5 team_db team

get-discloses_example :
    (get 3 5 no_rows
      ≡ throw not_found "Conversation not found" (codes "conversation_id=" ++ to_string (pos 5)))
    × (get 3 5 team_db ≡ throw not_found "Conversation not found" [])
    × (codes "conversation_id=" ++ to_string (pos 5) ≢ [])
unfolding find_by_id find_conversation is_participant find_participant find_row
get-discloses_example = get-discloses 3 5 no_rows team_db team refl refl refl
