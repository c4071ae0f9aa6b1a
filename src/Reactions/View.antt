-- ===== src/Reactions/View.antt =====
-- The table of reactions as a map from the message and the user to an emoji.
use realtime_chat.Common.{
  ℕ, ◌≡◌, refl, ap, ◌∙◌, inl, inr, Bool, true, false, ◌&&◌, Option, none, some, List, [], ◌∷◌,
  arith, if◌then◌else◌, Bool-cases, Bytes, ◌==◌, bytes_eq, nat_eq,
}
use realtime_chat.Errors.{Result, ok, err}
use realtime_chat.Conversations.Tables.{Db}
use realtime_chat.Conversations.World.{after}
use realtime_chat.Messages.{Message}
use realtime_chat.Reactions.{
  Reaction, is_reaction_of, upsert_rows, upsert, delete_rows, remove_reaction, ReactionWorld,
  authorize, reactable, put_reaction, react, drop_reaction, unreact, ReactionCall, reacts, unreacts,
  serve, serve_all,
}

-- The emojis that the rows hold for a message and a user.
unfoldable pub emojis : ℕ → ℕ → List Reaction → List Bytes
emojis message user [] = []
emojis message user (r ∷ rs) =
    if is_reaction_of message user r
    then r.emoji ∷ emojis message user rs
    else emojis message user rs

abbrev pub at_most_one : Option Bytes → List Bytes
at_most_one none = []
at_most_one (some e) = e ∷ []

-- What a call means for the emoji of a message and a user.
abbrev pub is_ok {ℓ} : {A : Type ℓ} → Result A → Bool
is_ok (ok a) = true
is_ok (err e) = false

unfoldable pub step : Db → List Message → ℕ → ℕ → ReactionCall → Option Bytes → Option Bytes
step db ms message user (reacts actor id emoji) o =
    if (id == message && actor == user) && is_ok (reactable actor id emoji db ms)
    then some emoji
    else o
step db ms message user (unreacts actor id) o =
    if (id == message && actor == user) && is_ok (authorize actor id db ms) then none else o

unfoldable pub steps : Db → List Message → ℕ → ℕ → List ReactionCall → Option Bytes → Option Bytes
unfolding step
steps db ms message user [] o = o
steps db ms message user (c ∷ cs) o = steps db ms message user cs (step db ms message user c o)

cons-at_most_one :
    (e : Bytes) (es : List Bytes) (o : Option Bytes) → e ∷ es ≡ at_most_one o → es ≡ []
cons-at_most_one e es none h = ground arith
cons-at_most_one e es (some f) h = ground arith

emojis-upsert_same :
    (next message user : ℕ) (emoji : Bytes) (rs : List Reaction) (o : Option Bytes)
    → emojis message user rs ≡ at_most_one o
    → emojis message user (upsert_rows next message user emoji rs).0 ≡ emoji ∷ []
unfolding emojis upsert_rows
emojis-upsert_same next message user emoji [] o h = ground arith
emojis-upsert_same next message user emoji (r ∷ rs) o h = ground (
  arith,
  emojis-upsert_same next message user emoji rs o,
  cons-at_most_one r.emoji (emojis message user rs) o,
)

emojis-upsert_other :
    (next message user id actor : ℕ) (emoji : Bytes) (rs : List Reaction)
    → (id == message && actor == user) ≡ false
    → emojis message user (upsert_rows next id actor emoji rs).0 ≡ emojis message user rs
unfolding emojis upsert_rows
emojis-upsert_other next message user id actor emoji [] h = ground arith
emojis-upsert_other next message user id actor emoji (r ∷ rs) h =
    ground (arith, emojis-upsert_other next message user id actor emoji rs)

emojis-upsert_rows :
    (next message user id actor : ℕ) (emoji : Bytes) (rs : List Reaction) (o : Option Bytes)
    → emojis message user rs ≡ at_most_one o
    → emojis message user (upsert_rows next id actor emoji rs).0
      ≡ at_most_one (if id == message && actor == user then some emoji else o)
emojis-upsert_rows next message user id actor emoji rs o h =
    elim (Bool-cases (id == message && actor == user)) [
      | inl e ↦ ground (
        arith,
        emojis-upsert_same next message user emoji rs o h,
        ap (λ k. emojis message user (upsert_rows next k actor emoji rs).0),
        ap (λ k. emojis message user (upsert_rows next message k emoji rs).0),
      )
      | inr e ↦ ground (arith, emojis-upsert_other next message user id actor emoji rs e)
    ]

emojis-delete_rows :
    (message user id actor : ℕ) (rs : List Reaction)
    → emojis message user (delete_rows id actor rs)
      ≡ (if id == message && actor == user then [] else emojis message user rs)
unfolding emojis delete_rows
emojis-delete_rows message user id actor [] = ground arith
emojis-delete_rows message user id actor (r ∷ rs) =
    ground (arith, emojis-delete_rows message user id actor rs)

put-view :
    (message user actor id : ℕ) (emoji : Bytes) (w : ReactionWorld) (o : Option Bytes)
    (r : Result Message)
    → emojis message user w.table.rows ≡ at_most_one o
    → emojis message user (after r (put_reaction actor id emoji) w).1.table.rows
      ≡ at_most_one (if (id == message && actor == user) && is_ok r then some emoji else o)
unfolding put_reaction upsert
put-view message user actor id emoji w o (ok m) h =
    ground
      (arith, emojis-upsert_rows w.table.next_reaction message user id actor emoji w.table.rows o h)
put-view message user actor id emoji w o (err e) h = ground arith

drop-view :
    (message user actor id : ℕ) (w : ReactionWorld) (o : Option Bytes) (r : Result Message)
    → emojis message user w.table.rows ≡ at_most_one o
    → emojis message user (after r (drop_reaction actor id) w).1.table.rows
      ≡ at_most_one (if (id == message && actor == user) && is_ok r then none else o)
unfolding drop_reaction remove_reaction
drop-view message user actor id w o (ok m) h =
    ground (arith, emojis-delete_rows message user id actor w.table.rows)
drop-view message user actor id w o (err e) h = ground arith

-- The calls change neither the conversations nor the messages.
IsOver : ReactionWorld → ReactionWorld → Type 0
IsOver w w' = (w'.db ≡ w.db) × (w'.messages ≡ w.messages)

after-IsOver :
    {B : Type 0} (r : Result Message) (k : Message → ReactionWorld → Result B × ReactionWorld)
    (w : ReactionWorld)
    → ((m : Message) → IsOver w (k m w).1)
    → IsOver w (after r k w).1
unfolding IsOver
after-IsOver (ok m) k w f = f m
after-IsOver (err e) k w f = (refl, refl)

serve-IsOver : (c : ReactionCall) (w : ReactionWorld) → IsOver w (serve c w)
unfolding IsOver serve react unreact put_reaction drop_reaction
serve-IsOver (reacts actor id emoji) w =
    after-IsOver (reactable actor id emoji w.db w.messages) (put_reaction actor id emoji) w
      (λ m. (refl, refl))
serve-IsOver (unreacts actor id) w =
    after-IsOver (authorize actor id w.db w.messages) (drop_reaction actor id) w (λ m. (refl, refl))

serve-view :
    (message user : ℕ) (c : ReactionCall) (w : ReactionWorld) (o : Option Bytes)
    → emojis message user w.table.rows ≡ at_most_one o
    → emojis message user (serve c w).table.rows
      ≡ at_most_one (step w.db w.messages message user c o)
unfolding serve react unreact step
serve-view message user (reacts actor id emoji) w o h =
    put-view message user actor id emoji w o (reactable actor id emoji w.db w.messages) h
serve-view message user (unreacts actor id) w o h =
    drop-view message user actor id w o (authorize actor id w.db w.messages) h

-- After any calls a message has at most one reaction of a user, and it is what the calls that were
-- allowed say in order: the emoji of the last reaction, unless it was withdrawn after.
pub serve_all-view :
    (message user : ℕ) (cs : List ReactionCall) (w : ReactionWorld) (o : Option Bytes)
    → emojis message user w.table.rows ≡ at_most_one o
    → emojis message user (serve_all cs w).table.rows
      ≡ at_most_one (steps w.db w.messages message user cs o)
unfolding serve_all steps IsOver
serve_all-view message user [] w o h = h
serve_all-view message user (c ∷ cs) w o h =
    let (same_db, same_messages) = serve-IsOver c w in
    let now = step w.db w.messages message user c o in
    serve_all-view message user cs (serve c w) now (serve-view message user c w o h)
    ∙ ap (λ db. at_most_one (steps db (serve c w).messages message user cs now)) same_db
    ∙ ap (λ ms. at_most_one (steps w.db ms message user cs now)) same_messages
