-- ===== src/Tests/Receipts.antt =====
-- Witnesses for receipts and trace contexts.
use realtime_chat.Common.{ℕ, ◌≤◌, ◌≡◌, refl, true, none, some, List, [], ◌∷◌, codes}
use realtime_chat.Conversations.Tables.{member}
use realtime_chat.Conversations.Repository.{
  find_row, find_participant, is_participant, advance_marker, update_last_read,
}
use realtime_chat.Conversations.World.{require_participant}
use realtime_chat.Messages.{text, Message, find_message}
use realtime_chat.Receipts.{
  read, rank, advanced, upsert_row, upsert_state, is_backlog, mark_conversation_read, ReceiptWorld,
  deliverable, mark_delivered, mark_read,
}
use realtime_chat.Receipts.Progress.{
  progress, ReceiptCall, marks_delivered, marks_read, mark, mark_all, mark_all-grows,
}
use realtime_chat.Tracing.{
  SpanContext, is_valid, is_hex_digit, is_lower_hex, parse_traceparent, format_traceparent,
}
use realtime_chat.Tracing.RoundTrip.{parse_traceparent-format}

abbrev question : Message
question = record {
  id = 3;
  conversation_id = 5;
  sender_id = 1;
  type = text;
  content = codes "?";
  edited_at = none;
  deleted_at = none;
}

-- User 2 is a member of conversation 5, in which 1 has sent a message.
abbrev inbox : ReceiptWorld
inbox = record {
  db = record {
    conversations = [];
    participants =
        record {
          id = 1;
          conversation_id = 5;
          user_id = 2;
          role = member;
          last_read_message_id = none;
        }
        ∷ [];
    users = [];
    next_conversation = 6;
    next_participant = 2;
  };
  messages = question ∷ [];
  receipts = [];
  frames = [];
}

-- Read first, delivered later.
abbrev reports : List (ℕ × ReceiptCall)
reports = (2, marks_read 5 3) ∷ (2, marks_delivered 3) ∷ []

reports_result :
    (mark_all reports inbox).receipts ≡ record { message_id = 3; user_id = 2; state = read } ∷ []
unfolding mark_all mark mark_delivered mark_read deliverable find_message require_participant
    is_participant find_participant find_row mark_conversation_read is_backlog upsert_row
    upsert_state advanced rank update_last_read advance_marker
reports_result = refl

abbrev span_context : SpanContext
span_context = record {
  trace_id = codes "4bf92f3577b34da6a3ce929d0e0e4736";
  span_id = codes "00f067aa0ba902b7";
  sampled = true;
  trace_state = codes "v=1";
}

mark_all-grows_example :
    progress 3 2 inbox.receipts ≤ progress 3 2 (mark_all reports inbox).receipts
mark_all-grows_example = mark_all-grows 3 2 reports inbox

parse_traceparent-format_example :
    parse_traceparent (format_traceparent span_context)
    ≡ some (record span_context { trace_state = [] })
unfolding is_lower_hex is_hex_digit is_valid
parse_traceparent-format_example = parse_traceparent-format span_context refl refl refl
