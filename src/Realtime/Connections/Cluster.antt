-- ===== src/Realtime/Connections/Cluster.antt =====
-- Fan-out across instances: what one instance puts on the bus, another delivers to its own
-- connections and does not put on the bus again.
use realtime_chat.Common.{
  ℕ, ◌≡◌, refl, inl, inr, Option, none, some, List, [], ◌∷◌, ◌++◌, arith, if◌then◌else◌,
  Option-cases, Bytes, codes,
}
use realtime_chat.Json.{
  Json, Items, Fields, fields, find, as_string, as_id, get_ids, get_ids-id_items,
}
use realtime_chat.Realtime.Protocol.{no_envelope}
use realtime_chat.Realtime.Connections.{
  ConnectionManager, Channel, user_broadcast, room_broadcast, user_body, room_body, deliver_local,
  deliver_local_to_room, publish, cluster_publish, receive, on_users, on_room, as_array,
}
use realtime_chat.Realtime.Connections.Delivery.{
  send_to_sessions-frames, frames_for_users, deliver_local-frames,
}

-- A publication delivers locally, and with a bus attached puts one message on it.
pub publish-effect :
    (timestamp type : Bytes) (payload : Json) (users : List ℕ) (cm : ConnectionManager)
    → publish timestamp users type payload cm ≡ record cm {
      sent = cm.sent ++ frames_for_users timestamp type payload users cm.sessions;
      published =
          if cm.clustered
          then cm.published ++ ((user_broadcast, user_body users type payload) ∷ [])
          else cm.published;
    }
unfolding publish cluster_publish
publish-effect timestamp type payload users cm =
    ground (arith, deliver_local-frames timestamp type payload users cm)

-- What a peer does with the message of a publication is its local delivery of the same event to
-- the same users.
pub receive-user_body :
    (timestamp type : Bytes) (payload : Json) (users : List ℕ) (peer : ConnectionManager)
    → receive timestamp (user_broadcast, user_body users type payload) peer
      ≡ deliver_local timestamp users type payload peer
unfolding receive user_body
receive-user_body timestamp type payload users peer = rw (get_ids-id_items users, on_users)

-- And what it does with the message of a room broadcast is its local delivery to the same room,
-- with no connection excluded.
pub receive-room_body :
    (timestamp type : Bytes) (payload : Json) (room : ℕ) (peer : ConnectionManager)
    → receive timestamp (room_broadcast, room_body room type payload) peer
      ≡ deliver_local_to_room timestamp room type payload 0 peer
unfolding receive room_body
receive-room_body timestamp type payload room peer = refl

-- Nothing but the log of sent frames differs.
abbrev pub KeepsAllButSent : ConnectionManager → ConnectionManager → Type 0
KeepsAllButSent before after =
    (after.published ≡ before.published)
    × (after.sessions ≡ before.sessions)
    × (after.rooms ≡ before.rooms)

deliver_local_keeps :
    (timestamp type : Bytes) (payload : Json) (users : List ℕ) (cm : ConnectionManager)
    → KeepsAllButSent cm (deliver_local timestamp users type payload cm)
deliver_local_keeps timestamp type payload users cm =
    rw (deliver_local-frames timestamp type payload users cm) (refl, refl, refl)

deliver_local_to_room_keeps :
    (timestamp type : Bytes) (payload : Json) (room exclude : ℕ) (cm : ConnectionManager)
    → KeepsAllButSent cm (deliver_local_to_room timestamp room type payload exclude cm)
unfolding deliver_local_to_room
deliver_local_to_room_keeps timestamp type payload room exclude cm =
    rw (send_to_sessions-frames timestamp type payload no_envelope exclude _ cm) (refl, refl, refl)

on_users_keeps :
    (timestamp : Bytes) (body : Fields) (event : Option Bytes) (users : Option Items)
    (cm : ConnectionManager)
    → KeepsAllButSent cm (on_users timestamp body event users cm)
unfolding on_users
on_users_keeps timestamp body none users cm = (refl, refl, refl)
on_users_keeps timestamp body (some event) none cm = (refl, refl, refl)
on_users_keeps timestamp body (some event) (some users) cm = elim (Option-cases (get_ids users)) [
  | inl e ↦ rw (e, on_users) (refl, refl, refl)
  | inr (ids, e) ↦ rw (e, on_users) (deliver_local_keeps timestamp event _ ids cm)
]

on_room_keeps :
    (timestamp : Bytes) (body : Fields) (event : Option Bytes) (room : Option ℕ)
    (cm : ConnectionManager)
    → KeepsAllButSent cm (on_room timestamp body event room cm)
unfolding on_room
on_room_keeps timestamp body none room cm = (refl, refl, refl)
on_room_keeps timestamp body (some event) none cm = (refl, refl, refl)
on_room_keeps timestamp body (some event) (some room) cm =
    deliver_local_to_room_keeps timestamp event _ room 0 cm

-- Whatever arrives on the bus, the receiver puts nothing on it and keeps its sessions and rooms: a
-- message goes round once.
pub receive_keeps :
    (timestamp : Bytes) (message : Channel × Json) (peer : ConnectionManager)
    → KeepsAllButSent peer (receive timestamp message peer)
unfolding receive
receive_keeps timestamp (user_broadcast, body) peer =
    on_users_keeps timestamp (fields body) (as_string (find (codes "event") (fields body)))
      (as_array (find (codes "user_ids") (fields body))) peer
receive_keeps timestamp (room_broadcast, body) peer =
    on_room_keeps timestamp (fields body) (as_string (find (codes "event") (fields body)))
      (as_id (find (codes "conversation_id") (fields body))) peer
