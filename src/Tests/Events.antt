-- ===== src/Tests/Events.antt =====
-- Witnesses for domain events and reactions.
use realtime_chat.Common.{
  ℕ, ◌≡◌, refl, Bool, true, ◌&&◌, Option, none, List, [], ◌∷◌, contains, ltb, if◌then◌else◌, Bytes,
  codes, bytes_eq, nat_eq,
}
use realtime_chat.Conversations.Tables.{member}
use realtime_chat.Conversations.Repository.{find_row, find_participant, is_participant}
use realtime_chat.Messages.{text, find_message}
use realtime_chat.Events.{subscribe, subscribe_all, offer, dispatch}
use realtime_chat.Events.Bus.{
  take_task, BusStep, publishes, works, takes, stops, publish, turn, work, step, run,
}
use realtime_chat.Events.Settling.{times, occurs, taken, fresh_bus, settled-handed}
use realtime_chat.Reactions.{
  is_allowed_reaction, upsert, ReactionWorld, authorize, reactable, put_reaction, react,
  ReactionCall, reacts, serve, serve_all,
}
use realtime_chat.Reactions.View.{emojis, at_most_one, steps, serve_all-view}

abbrev wants_above : ℕ → ℕ → Bool
wants_above subscriber event = ltb subscriber event

abbrev always_throws : ℕ → ℕ → Bool
always_throws subscriber event = true

abbrev registered : List ℕ
registered = 1 ∷ 2 ∷ 1 ∷ []

-- Two workers dispatch at once; an event that is published after the stop is lost.
abbrev a_shift : List BusStep
a_shift =
    publishes 2
    ∷ publishes 3
    ∷ takes
    ∷ takes
    ∷ works 0
    ∷ works 1
    ∷ stops
    ∷ publishes 2
    ∷ works 0
    ∷ works 1
    ∷ works 1
    ∷ works 0
    ∷ []

abbrev thumbs_up : Bytes
thumbs_up = 240 ∷ 159 ∷ 145 ∷ 141 ∷ []

abbrev no_reactions : ReactionWorld
no_reactions = record {
  db = record {
    conversations = [];
    participants =
        record {
          id = 1;
          conversation_id = 5;
          user_id = 1;
          role = member;
          last_read_message_id = none;
        }
        ∷ [];
    users = [];
    next_conversation = 1;
    next_participant = 1;
  };
  messages =
      record {
        id = 3;
        conversation_id = 5;
        sender_id = 2;
        type = text;
        content = codes "?";
        edited_at = none;
        deleted_at = none;
      }
      ∷ [];
  table = record { rows = []; next_reaction = 1 };
  frames = [];
  notifications = [];
}

abbrev fire : Bytes
fire = 240 ∷ 159 ∷ 148 ∷ 165 ∷ []

-- One reaction replaces another; one that is not offered is refused.
abbrev some_reactions : List ReactionCall
some_reactions = reacts 1 3 thumbs_up ∷ reacts 1 3 fire ∷ reacts 1 3 (codes "?") ∷ []

some_reactions-emojis : emojis 3 1 (serve_all some_reactions no_reactions).table.rows ≡ fire ∷ []
unfolding emojis serve_all serve react reactable authorize put_reaction upsert is_allowed_reaction
    contains find_message is_participant find_participant find_row
some_reactions-emojis = refl

abbrev no_emoji : Option Bytes
no_emoji = none

settled-handed_example :
    times 1 2 (run wants_above always_throws a_shift (fresh_bus true registered)).dispatcher.handled
    ≡ (if contains 1 registered && wants_above 1 2
        then occurs 2 (taken wants_above always_throws a_shift (fresh_bus true registered))
        else 0)
unfolding run step publish take_task work turn offer dispatch subscribe_all subscribe contains
settled-handed_example =
    settled-handed wants_above always_throws true registered a_shift 1 2 refl refl

serve_all-view_example :
    emojis 3 1 (serve_all some_reactions no_reactions).table.rows
    ≡ at_most_one (steps no_reactions.db no_reactions.messages 3 1 some_reactions no_emoji)
unfolding emojis
serve_all-view_example = serve_all-view 3 1 some_reactions no_reactions no_emoji refl
