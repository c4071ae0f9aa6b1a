-- ===== src/Reactions.antt =====
-- Reactions: src/services/reaction_service.cpp over the statements of
-- src/repositories/pg_reaction_repository.cpp and the unique index on the message and the user. The
-- emoji of include/rtc/models/reaction.hpp are their bytes in UTF-8; times are left out.
pub mod View
use realtime_chat.Common.{
  ℕ, ◌+◌, Bool, false, not, ◌&&◌, ◌||◌, Option, none, some, List, [], ◌∷◌, contains, if◌then◌else◌,
  Bytes, codes, ◌==◌, bytes_eq, nat_eq,
}
use realtime_chat.Errors.{Result, ok, err, throw, not_found, validation}
use realtime_chat.Validation.{◌>>=◌}
use realtime_chat.Conversations.Tables.{Db}
use realtime_chat.Conversations.Repository.{is_participant, list_participant_ids}
use realtime_chat.Conversations.World.{after}
use realtime_chat.Messages.{Message, find_message}
use realtime_chat.Notifications.{Notification, reaction_added}

-- Thumbs up, heart, tears of joy, open mouth, crying, clapping, fire.
abbrev pub allowed_reactions : List Bytes
allowed_reactions =
    (240 ∷ 159 ∷ 145 ∷ 141 ∷ [])
    ∷ (226 ∷ 157 ∷ 164 ∷ 239 ∷ 184 ∷ 143 ∷ [])
    ∷ (240 ∷ 159 ∷ 152 ∷ 130 ∷ [])
    ∷ (240 ∷ 159 ∷ 152 ∷ 174 ∷ [])
    ∷ (240 ∷ 159 ∷ 152 ∷ 162 ∷ [])
    ∷ (240 ∷ 159 ∷ 145 ∷ 143 ∷ [])
    ∷ (240 ∷ 159 ∷ 148 ∷ 165 ∷ [])
    ∷ []

unfoldable pub is_allowed_reaction : Bytes → Bool
is_allowed_reaction emoji = contains emoji allowed_reactions

pub record Reaction : Type 0 where
  pub id : ℕ
  pub message_id : ℕ
  pub user_id : ℕ
  pub emoji : Bytes

pub record ReactionTable : Type 0 where
  pub rows : List Reaction
  pub next_reaction : ℕ

abbrev pub is_reaction_of : ℕ → ℕ → Reaction → Bool
is_reaction_of message user r = r.message_id == message && r.user_id == user

-- INSERT .. ON CONFLICT DO UPDATE: the rows, and the row that was written.
unfoldable pub upsert_rows : ℕ → ℕ → ℕ → Bytes → List Reaction → List Reaction × Reaction
upsert_rows next message user emoji [] =
    let r : Reaction = record { id = next; message_id = message; user_id = user; emoji = emoji } in
    (r ∷ [], r)
upsert_rows next message user emoji (r ∷ rs) =
    let rest = upsert_rows next message user emoji rs in
    let r' = record r { emoji = emoji } in
    if is_reaction_of message user r then (r' ∷ rs, r') else (r ∷ rest.0, rest.1)

-- The sequence of ids moves on whether or not a row is inserted.
unfoldable pub upsert : ℕ → ℕ → Bytes → ReactionTable → Reaction × ReactionTable
unfolding upsert_rows
upsert message user emoji t =
    let (rows, r) = upsert_rows t.next_reaction message user emoji t.rows in
    (r, record { rows = rows; next_reaction = t.next_reaction + 1 })

unfoldable pub delete_rows : ℕ → ℕ → List Reaction → List Reaction
delete_rows message user [] = []
delete_rows message user (r ∷ rs) =
    let rest = delete_rows message user rs in
    if is_reaction_of message user r then rest else r ∷ rest

unfoldable pub has_row : ℕ → ℕ → List Reaction → Bool
has_row message user [] = false
has_row message user (r ∷ rs) = is_reaction_of message user r || has_row message user rs

unfoldable pub remove_reaction : ℕ → ℕ → ReactionTable → Bool × ReactionTable
unfolding has_row delete_rows
remove_reaction message user t =
    (has_row message user t.rows, record t { rows = delete_rows message user t.rows })

-- In the order of the ids, which is the order of the rows.
unfoldable pub list_for_message : ℕ → List Reaction → List Reaction
list_for_message message [] = []
list_for_message message (r ∷ rs) =
    let rest = list_for_message message rs in if r.message_id == message then r ∷ rest else rest

pub data ReactionFrame : Type 0 where
  added_frame : List ℕ → Reaction → ReactionFrame
  removed_frame : List ℕ → ℕ → ℕ → ReactionFrame

pub record ReactionWorld : Type 0 where
  -- The conversations and messages, which these methods only read.
  pub db : Db
  pub messages : List Message
  pub table : ReactionTable
  pub frames : List ReactionFrame
  pub notifications : List Notification

abbrev pub visible : ℕ → Db → Option Message → Result Message
visible actor db none = throw not_found "Message not found" []
visible actor db (some m) =
    if not (is_participant m.conversation_id actor db)
    then throw not_found "Message not found" []
    else ok m

unfoldable pub authorize : ℕ → ℕ → Db → List Message → Result Message
authorize actor message db ms = visible actor db (find_message message ms)

unfoldable pub reactable : ℕ → ℕ → Bytes → Db → List Message → Result Message
unfolding authorize is_allowed_reaction
reactable actor message emoji db ms =
    if not (is_allowed_reaction emoji)
    then throw validation "Unsupported reaction emoji" (codes "field=emoji")
    else authorize actor message db ms

unfoldable pub put_reaction :
    ℕ → ℕ → Bytes → Message → ReactionWorld → Result Reaction × ReactionWorld
unfolding upsert
put_reaction actor message emoji m w =
    let (reaction, table) = upsert message actor emoji w.table in
    (
      ok reaction,
      record w {
        table = table;
        frames = added_frame (list_participant_ids m.conversation_id w.db) reaction ∷ w.frames;
        notifications = reaction_added m.sender_id message actor emoji w.notifications;
      },
    )

unfoldable pub react : ℕ → ℕ → Bytes → ReactionWorld → Result Reaction × ReactionWorld
unfolding reactable put_reaction
react actor message emoji w =
    after (reactable actor message emoji w.db w.messages) (put_reaction actor message emoji) w

unfoldable pub drop_reaction : ℕ → ℕ → Message → ReactionWorld → Result (Unit {0}) × ReactionWorld
unfolding remove_reaction
drop_reaction actor message m w =
    let (found, table) = remove_reaction message actor w.table in
    let frame = removed_frame (list_participant_ids m.conversation_id w.db) message actor in
    (ok tt, record w { table = table; frames = if found then frame ∷ w.frames else w.frames })

unfoldable pub unreact : ℕ → ℕ → ReactionWorld → Result (Unit {0}) × ReactionWorld
unfolding authorize drop_reaction
unreact actor message w =
    after (authorize actor message w.db w.messages) (drop_reaction actor message) w

unfoldable pub list_reactions : ℕ → ℕ → ReactionWorld → Result (List Reaction)
unfolding authorize list_for_message
list_reactions actor message w =
    authorize actor message w.db w.messages >>= λ m. ok (list_for_message message w.table.rows)

pub data ReactionCall : Type 0 where
  reacts : ℕ → ℕ → Bytes → ReactionCall
  unreacts : ℕ → ℕ → ReactionCall

unfoldable pub serve : ReactionCall → ReactionWorld → ReactionWorld
unfolding react unreact
serve (reacts actor message emoji) w = (react actor message emoji w).1
serve (unreacts actor message) w = (unreact actor message w).1

unfoldable pub serve_all : List ReactionCall → ReactionWorld → ReactionWorld
unfolding serve
serve_all [] w = w
serve_all (c ∷ cs) w = serve_all cs (serve c w)
