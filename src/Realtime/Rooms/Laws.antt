-- ===== src/Realtime/Rooms/Laws.antt =====
-- The two indexes of the room registry agree, and who is in a room after each method.
use realtime_chat.Common.{
  ℕ, ◌≡◌, refl, inl, inr, Bool, not, ◌&&◌, ◌||◌, List, [], ◌∷◌, arith, lookup, contains, nat_beq,
  Option-cases, nat_eq, bytes_eq,
}
use realtime_chat.Realtime.Multimap.{
  Multimap, values, put, drop, values-put, values-touch_key, values-drop, values-erase, HasNoEmpty,
  put-HasNoEmpty, drop-HasNoEmpty,
}
use realtime_chat.Realtime.Rooms.{
  RoomManager, no_rooms, join, join_each, join_many, leave, drop_each, leave_all,
}

-- Whether a connection is in a room.
abbrev pub is_in : ℕ → ℕ → RoomManager → Bool
is_in conn conversation rm = contains conn (values conversation rm.rooms)

pub record IsConsistent (rm : RoomManager) : Type 0 where
  pub agree :
      (conn id : ℕ) → contains id (values conn rm.membership) ≡ contains conn (values id rm.rooms)
  pub no_empty_room : HasNoEmpty rm.rooms

-- After `join` a connection is in a room exactly if it joined it or was in it before.
pub is_in-join :
    (c conn r room : ℕ) (rm : RoomManager)
    → is_in c r (join room conn rm) ≡ (nat_beq r room && nat_beq c conn || is_in c r rm)
unfolding join
is_in-join c conn r room rm = values-put r room c conn rm.rooms

-- After `leave` it is in a room exactly if it was in it before and did not leave it.
pub is_in-leave :
    (c conn r room : ℕ) (rm : RoomManager)
    → is_in c r (leave room conn rm) ≡ (not (nat_beq r room && nat_beq c conn) && is_in c r rm)
unfolding leave
is_in-leave c conn r room rm = values-drop r room c conn rm.rooms

is_in-join_each :
    (c conn r : ℕ) (ids : List ℕ) (rm : RoomManager)
    → is_in c r (join_each ids conn rm) ≡ (contains r ids && nat_beq c conn || is_in c r rm)
unfolding join_each contains
is_in-join_each c conn r [] rm = refl
is_in-join_each c conn r (id ∷ ids) rm = ground (
  arith,
  is_in-join_each c conn r ids
      (record { rooms = put id conn rm.rooms; membership = put conn id rm.membership }),
  values-put r id c conn rm.rooms,
)

-- `join_many` puts the connection into the listed rooms and changes nothing else.
pub is_in-join_many :
    (c conn r : ℕ) (ids : List ℕ) (rm : RoomManager)
    → is_in c r (join_many ids conn rm) ≡ (contains r ids && nat_beq c conn || is_in c r rm)
unfolding join_many
is_in-join_many c conn r ids rm = is_in-join_each c conn r ids _

values-drop_each :
    (c conn r : ℕ) (ids : List ℕ) (rooms : Multimap)
    → contains c (values r (drop_each ids conn rooms))
      ≡ (not (contains r ids && nat_beq c conn) && contains c (values r rooms))
unfolding drop_each contains
values-drop_each c conn r [] rooms = refl
values-drop_each c conn r (id ∷ ids) rooms =
    ground
      (arith, values-drop_each c conn r ids (drop id conn rooms), values-drop r id c conn rooms)

-- Where the two indexes agree: after `leave_all` the connection is in no room, and every other
-- connection is where it was.
pub is_in-leave_all :
    (c conn r : ℕ) (rm : RoomManager)
    → IsConsistent rm
    → is_in c r (leave_all conn rm) ≡ (not (nat_beq c conn) && is_in c r rm)
unfolding leave_all values contains
is_in-leave_all c conn r rm h = elim (Option-cases (lookup conn rm.membership)) [
  | inl e ↦ ground (arith, h.agree conn r)
  | inr (ids, e) ↦ ground (arith, h.agree conn r, values-drop_each c conn r ids rm.rooms)
]

join_each-IsConsistent :
    (ids : List ℕ) (conn : ℕ) (rm : RoomManager)
    → IsConsistent rm
    → IsConsistent (join_each ids conn rm)
unfolding join_each
join_each-IsConsistent [] conn rm h = h
join_each-IsConsistent (id ∷ ids) conn rm h = join_each-IsConsistent ids conn _ (record {
  agree = λ c r.
      ground
        (arith, h.agree c r, values-put r id c conn rm.rooms, values-put c conn r id rm.membership);
  no_empty_room = put-HasNoEmpty id conn rm.rooms h.no_empty_room;
})

drop_each-HasNoEmpty :
    (ids : List ℕ) (conn : ℕ) (rooms : Multimap)
    → HasNoEmpty rooms
    → HasNoEmpty (drop_each ids conn rooms)
unfolding drop_each
drop_each-HasNoEmpty [] conn rooms h = h
drop_each-HasNoEmpty (id ∷ ids) conn rooms h =
    drop_each-HasNoEmpty ids conn (drop id conn rooms) (drop-HasNoEmpty id conn rooms h)

-- The methods, as the steps of a history.
pub data Call : Type 0 where
  joins leaves : (conversation conn : ℕ) → Call
  joins_many : List ℕ → ℕ → Call
  leaves_all : ℕ → Call

pub step : Call → RoomManager → RoomManager
step (joins conversation conn) rm = join conversation conn rm
step (joins_many ids conn) rm = join_many ids conn rm
step (leaves conversation conn) rm = leave conversation conn rm
step (leaves_all conn) rm = leave_all conn rm

step-IsConsistent : (c : Call) (rm : RoomManager) → IsConsistent rm → IsConsistent (step c rm)
unfolding step join join_many leave leave_all values contains
step-IsConsistent (joins id conn) rm h = record {
  agree = λ c r.
      ground
        (arith, h.agree c r, values-put r id c conn rm.rooms, values-put c conn r id rm.membership);
  no_empty_room = put-HasNoEmpty id conn rm.rooms h.no_empty_room;
}
step-IsConsistent (joins_many ids conn) rm h = join_each-IsConsistent ids conn _ (record {
  agree = λ c r. ground (arith, h.agree c r, values-touch_key c conn rm.membership);
  no_empty_room = h.no_empty_room;
})
step-IsConsistent (leaves id conn) rm h = record {
  agree = λ c r.
      ground (
        arith,
        h.agree c r,
        values-drop r id c conn rm.rooms,
        values-drop c conn r id rm.membership,
      );
  no_empty_room = drop-HasNoEmpty id conn rm.rooms h.no_empty_room;
}
step-IsConsistent (leaves_all conn) rm h = elim (Option-cases (lookup conn rm.membership)) [
  | inl e ↦ rw (e, leave_all) h
  | inr (ids, e) ↦
      rw (e, leave_all)
        (record {
          agree = λ c r. ground (
            arith,
            h.agree c r,
            values-erase c conn rm.membership,
            values-drop_each c conn r ids rm.rooms,
          );
          no_empty_room = drop_each-HasNoEmpty ids conn rm.rooms h.no_empty_room;
        })
]

pub run : List Call → RoomManager → RoomManager
run [] rm = rm
run (c ∷ cs) rm = run cs (step c rm)

run-IsConsistent : (cs : List Call) (rm : RoomManager) → IsConsistent rm → IsConsistent (run cs rm)
unfolding run
run-IsConsistent [] rm h = h
run-IsConsistent (c ∷ cs) rm h = run-IsConsistent cs (step c rm) (step-IsConsistent c rm h)

-- After any history the two indexes agree and no room is empty.
pub run-no_rooms-IsConsistent : (cs : List Call) → IsConsistent (run cs no_rooms)
unfolding values contains lookup
run-no_rooms-IsConsistent cs =
    run-IsConsistent cs no_rooms (record { agree = λ c r. refl; no_empty_room = λ k. ground arith })
