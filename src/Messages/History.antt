-- ===== src/Messages/History.antt =====
-- What happens to a message over any history of the message service.
use realtime_chat.Common.{
  ℕ, ◌<◌, String, ◌≡◌, refl, ◌∙◌, inl, inr, true, not, ◌&&◌, Option, none, some, List, [], ◌∷◌,
  arith, nat_beq, if◌then◌else◌, Option-cases, Bytes,
}
use realtime_chat.Errors.{Result, ok, err}
use realtime_chat.Conversations.World.{after}
use realtime_chat.Messages.{
  Message, MessageTable, is_deleted, NewMessage, create_message, find_message, update_live,
  update_row, update_content, soft_delete,
}
use realtime_chat.Messages.Service.{
  MessageEvent, MessageWorld, SendMessageRequest, sendable, deliver_stored, tell, send, editable,
  announce_row, edit, deletable, remove_message,
}

-- The message of an id in a table goes back to the given one: it has the same sender, conversation
-- and type, and if that one was deleted it has not changed at all.
pub record Continues (id : ℕ) (m : Message) (ms : List Message) : Type 0 where
  pub later : Message
  pub found : find_message id ms ≡ some later
  pub same_sender : later.sender_id ≡ m.sender_id
  pub same_conversation : later.conversation_id ≡ m.conversation_id
  pub final : is_deleted m ≡ true → later ≡ m

-- Every id that was given out is below the next one.
pub record IsNumbered (t : MessageTable) : Type 0 where
  pub below : (id : ℕ) (m : Message) → find_message id t.messages ≡ some m → id < t.next_message

abbrev live_update : (Message → Message) → Option Message → Option Message
live_update f none = none
live_update f (some m) = if is_deleted m then some m else some (f m)

find-update_live :
    (id d : ℕ) (f : Message → Message) (ms : List Message)
    → ((m : Message) → (f m).id ≡ m.id)
    → find_message id (update_live d f ms)
      ≡ (if nat_beq id d then live_update f (find_message id ms) else find_message id ms)
unfolding find_message update_live
find-update_live id d f [] keeps = ground arith
find-update_live id d f (m ∷ ms) keeps = ground (arith, keeps m, find-update_live id d f ms keeps)

-- A step from a table to a table that loses no message and changes no deleted one.
record IsStep (t t' : MessageTable) : Type 0 where
  pub numbered : IsNumbered t → IsNumbered t'
  pub continued :
      (id : ℕ) (m : Message)
      → IsNumbered t
      → find_message id t.messages ≡ some m
      → Continues id m t'.messages

stay-IsStep : (t : MessageTable) → IsStep t t
stay-IsStep t = record {
  numbered = λ h. h;
  continued = λ id m h found. record {
    later = m;
    found = found;
    same_sender = refl;
    same_conversation = refl;
    final = λ d. refl;
  };
}

create_message-IsStep :
    (input : NewMessage) (t : MessageTable) → IsStep t (create_message input t).1
unfolding create_message find_message
create_message-IsStep input t = record {
  numbered = λ h. record { below = λ id m found. ground (arith, h.below id m) };
  continued = λ id m h found. record {
    later = m;
    found = ground (arith, h.below id m found);
    same_sender = refl;
    same_conversation = refl;
    final = λ d. refl;
  };
}

-- A change that a statement makes to live rows.
record IsHarmless (f : Message → Message) : Type 0 where
  pub id_kept : (m : Message) → (f m).id ≡ m.id
  pub sender_kept : (m : Message) → (f m).sender_id ≡ m.sender_id
  pub conversation_kept : (m : Message) → (f m).conversation_id ≡ m.conversation_id

changed : ℕ → ℕ → (Message → Message) → Message → Message
changed id d f m = if nat_beq id d && not (is_deleted m) then f m else m

update_row-IsStep :
    (d : ℕ) (f : Message → Message) (t : MessageTable)
    → IsHarmless f
    → IsStep t (update_row d f t).1
unfolding update_row changed
update_row-IsStep d f t k = record {
  numbered = λ h. record {
    below = λ id m found. elim (Option-cases (find_message id t.messages)) [
      | inl e ↦ ground (arith, find-update_live id d f t.messages k.id_kept)
      | inr (m', e) ↦ h.below id m' e
    ];
  };
  continued = λ id m h found. record {
    later = changed id d f m;
    found = ground (arith, find-update_live id d f t.messages k.id_kept);
    same_sender = ground (arith, k.sender_kept m);
    same_conversation = ground (arith, k.conversation_kept m);
    final = λ e. ground arith;
  };
}

update_content-IsStep :
    (now d : ℕ) (content : Bytes) (t : MessageTable) → IsStep t (update_content now d content t).1
unfolding update_content
update_content-IsStep now d content t =
    update_row-IsStep d (λ m. record m { content = content; edited_at = some now }) t
      (record { id_kept = λ m. refl; sender_kept = λ m. refl; conversation_kept = λ m. refl })

soft_delete-IsStep : (now d : ℕ) (t : MessageTable) → IsStep t (soft_delete now d t).1
unfolding soft_delete
soft_delete-IsStep now d t =
    update_row-IsStep d (λ m. record m { deleted_at = some now }) t
      (record { id_kept = λ m. refl; sender_kept = λ m. refl; conversation_kept = λ m. refl })

-- The methods that write, each with the database's clock where it stamps a row.
pub data MessageRequest : Type 0 where
  send_request : SendMessageRequest → MessageRequest
  edit_request : ℕ → ℕ → Bytes → MessageRequest
  delete_request : ℕ → ℕ → MessageRequest

unfoldable pub serve_message : ℕ → MessageRequest → MessageWorld → MessageWorld
serve_message actor (send_request r) w = (send actor r w).1
serve_message actor (edit_request now id content) w = (edit now actor id content w).1
serve_message actor (delete_request now id) w = (remove_message now actor id w).1

unfoldable pub serve_messages : List (ℕ × MessageRequest) → MessageWorld → MessageWorld
serve_messages [] w = w
serve_messages ((actor, r) ∷ rs) w = serve_messages rs (serve_message actor r w)

announce_row-table :
    (event : String) (e : Message → MessageEvent) (r : Result Message) (w : MessageWorld)
    → (announce_row event e r w).1.table ≡ w.table
unfolding announce_row tell
announce_row-table event e (ok m) w = refl
announce_row-table event e (err x) w = refl

after-IsStep {ℓ κ} :
    {A : Type ℓ} {B : Type κ} (r : Result A) (k : A → MessageWorld → Result B × MessageWorld)
    (w : MessageWorld)
    → ((a : A) → IsStep w.table (k a w).1.table)
    → IsStep w.table (after r k w).1.table
after-IsStep (ok a) k w next = next a
after-IsStep (err e) k w next = stay-IsStep w.table

send-IsStep :
    (actor : ℕ) (r : SendMessageRequest) (w : MessageWorld)
    → IsStep w.table (send actor r w).1.table
unfolding send deliver_stored tell
send-IsStep actor r w =
    after-IsStep (sendable actor r w.db) _ w (λ content. create_message-IsStep _ w.table)

edit-IsStep :
    (now actor id : ℕ) (content : Bytes) (w : MessageWorld)
    → IsStep w.table (edit now actor id content w).1.table
unfolding edit
edit-IsStep now actor id content w =
    after-IsStep (editable actor id content w.table) _ w
      (λ text. rw announce_row-table (update_content-IsStep now id text w.table))

remove_message-IsStep :
    (now actor id : ℕ) (w : MessageWorld) → IsStep w.table (remove_message now actor id w).1.table
unfolding remove_message
remove_message-IsStep now actor id w =
    after-IsStep (deletable actor id w.db w.table) _ w
      (λ moderating. rw announce_row-table (soft_delete-IsStep now id w.table))

serve_message-IsStep :
    (actor : ℕ) (r : MessageRequest) (w : MessageWorld)
    → IsStep w.table (serve_message actor r w).table
unfolding serve_message
serve_message-IsStep actor (send_request r) w = send-IsStep actor r w
serve_message-IsStep actor (edit_request now id content) w = edit-IsStep now actor id content w
serve_message-IsStep actor (delete_request now id) w = remove_message-IsStep now actor id w

Continues-trans :
    (id : ℕ) (m : Message) (ms ms' : List Message) (c : Continues id m ms)
    → Continues id c.later ms'
    → Continues id m ms'
Continues-trans id m ms ms' c d = record {
  later = d.later;
  found = d.found;
  same_sender = d.same_sender ∙ c.same_sender;
  same_conversation = d.same_conversation ∙ c.same_conversation;
  final = λ e. d.final (rw (c.final e) e) ∙ c.final e;
}

-- Whatever users send, edit and delete, in a table whose ids are below the next one: a message stays
-- in the table with its sender and its conversation, and once it is deleted nothing about it changes
-- any more.
pub serve_messages-Continues :
    (rs : List (ℕ × MessageRequest)) (w : MessageWorld) (id : ℕ) (m : Message)
    → IsNumbered w.table
    → find_message id w.table.messages ≡ some m
    → Continues id m (serve_messages rs w).table.messages
unfolding serve_messages
serve_messages-Continues [] w id m h found = (stay-IsStep w.table).continued id m h found
serve_messages-Continues ((actor, r) ∷ rs) w id m h found =
    let step = serve_message-IsStep actor r w in
    let c = step.continued id m h found in
    Continues-trans id m (serve_message actor r w).table.messages _ c
      (serve_messages-Continues rs (serve_message actor r w) id c.later (step.numbered h) c.found)
