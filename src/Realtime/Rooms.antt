-- ===== src/Realtime/Rooms.antt =====
-- The room registry: src/realtime/room_manager.cpp. Conversations and connections are identified
-- by numbers; every method holds the mutex, so it is one step.
pub mod Laws
use realtime_chat.Common.{length, ℕ, none, some, List, [], ◌∷◌, lookup, erase, nat_eq, bytes_eq}
use realtime_chat.Realtime.Multimap.{Multimap, values, put, touch_key, drop}

pub record RoomManager : Type 0 where
  pub rooms : Multimap
  pub membership : Multimap

abbrev pub no_rooms : RoomManager
no_rooms = record { rooms = []; membership = [] }

unfoldable pub join : ℕ → ℕ → RoomManager → RoomManager
join conversation conn rm = record {
  rooms = put conversation conn rm.rooms;
  membership = put conn conversation rm.membership;
}

unfoldable pub join_each : List ℕ → ℕ → RoomManager → RoomManager
join_each [] conn rm = rm
join_each (id ∷ ids) conn rm =
    join_each ids conn
      (record { rooms = put id conn rm.rooms; membership = put conn id rm.membership })

unfoldable pub join_many : List ℕ → ℕ → RoomManager → RoomManager
join_many conversations conn rm =
    join_each conversations conn (record rm { membership = touch_key conn rm.membership })

unfoldable pub leave : ℕ → ℕ → RoomManager → RoomManager
leave conversation conn rm = record {
  rooms = drop conversation conn rm.rooms;
  membership = drop conn conversation rm.membership;
}

unfoldable pub drop_each : List ℕ → ℕ → Multimap → Multimap
drop_each [] conn rooms = rooms
drop_each (id ∷ ids) conn rooms = drop_each ids conn (drop id conn rooms)

unfoldable pub leave_all : ℕ → RoomManager → RoomManager
leave_all conn rm = elim (lookup conn rm.membership) [
  | none ↦ rm
  | some ids ↦ record { rooms = drop_each ids conn rm.rooms; membership = erase conn rm.membership }
]

unfoldable pub connections_in_room : ℕ → RoomManager → List ℕ
connections_in_room conversation rm = values conversation rm.rooms

unfoldable pub room_count : RoomManager → ℕ
room_count rm = length rm.rooms
