-- ===== src/Realtime/Connections.antt =====
-- The delivery hub: include/rtc/realtime/connection_manager.hpp and
-- src/realtime/connection_manager.cpp. What goes out on sockets and on the cluster bus is logged
-- in order; frames are the JSON values that are dumped. `timestamp` is the text of the clock at the
-- time of a fan-out.
pub mod Delivery
pub mod Cluster
use realtime_chat.Common.{
  ℕ, Bool, ◌||◌, Option, none, some, List, [], ◌∷◌, ◌++◌, if◌then◌else◌, ◌==◌, nat_eq, Bytes, codes,
  bytes_eq,
}
use realtime_chat.Json.{
  Json, str, obj, arr, Items, Fields, end, field, fields, find, id, id_items, get_ids, as_string,
  as_id,
}
use realtime_chat.Realtime.Protocol.{
  Version, v1, v2, default_version, Envelope, no_envelope, encode,
}
use realtime_chat.Realtime.Sessions.{
  Session, SessionManager, add_session, remove_session, get_session, sessions_for,
  sessions_for_user,
}
use realtime_chat.Realtime.Rooms.{RoomManager, connections_in_room, leave_all}

pub data Channel : Type 0 where
  user_broadcast room_broadcast : Channel

pub record ConnectionManager : Type 0 where
  pub sessions : SessionManager
  pub rooms : RoomManager
  -- Whether a cluster bus is attached.
  pub clustered : Bool
  pub sent : List (ℕ × Json)
  pub published : List (Channel × Json)

-- The frames serialised so far in one fan-out, one place for each version.
pub record FrameCache : Type 0 where
  pub v1_frame : Option Json
  pub v2_frame : Option Json

abbrev pub no_frames : FrameCache
no_frames = record { v1_frame = none; v2_frame = none }

module _ (timestamp type : Bytes) (payload : Json) (envelope : Envelope) where
  fill_v1 : Option Json → FrameCache → Json × FrameCache
  fill_v1 (some frame) cache = (frame, cache)
  fill_v1 none cache =
      let frame = encode timestamp v1 type payload envelope in
      (frame, record cache { v1_frame = some frame })

  fill_v2 : Option Json → FrameCache → Json × FrameCache
  fill_v2 (some frame) cache = (frame, cache)
  fill_v2 none cache =
      let frame = encode timestamp v2 type payload envelope in
      (frame, record cache { v2_frame = some frame })

  unfoldable pub for_version : Version → FrameCache → Json × FrameCache
  unfolding fill_v1 fill_v2
  for_version v2 cache = fill_v2 cache.v2_frame cache
  for_version v1 cache = fill_v1 cache.v1_frame cache

unfoldable pub send_raw : ℕ → Json → ConnectionManager → ConnectionManager
send_raw conn frame cm =
    if conn == 0 then cm else record cm { sent = cm.sent ++ ((conn, frame) ∷ []) }

unfoldable pub register_session :
    ℕ → ℕ → Bytes → Version → ConnectionManager → Session × ConnectionManager
register_session conn user_id username version cm =
    let (session, sessions') = add_session conn user_id username version cm.sessions in
    (session, record cm { sessions = sessions' })

unfoldable pub unregister_session : ℕ → ConnectionManager → Option Session × ConnectionManager
unregister_session conn cm =
    let (session, sessions') = remove_session conn cm.sessions in
    (session, record cm { rooms = leave_all conn cm.rooms; sessions = sessions' })

module _ (timestamp type : Bytes) (payload : Json) (envelope : Envelope) (exclude : ℕ) where
  send_each : FrameCache → List Session → ConnectionManager → ConnectionManager
  send_each cache [] cm = cm
  send_each cache (s ∷ ss) cm =
      let rest = send_each cache ss cm in
      let frames = for_version timestamp type payload envelope s.protocol_version cache in
      let sending = send_each frames.1 ss (send_raw s.connection frames.0 cm) in
      if s.connection == 0 || s.connection == exclude then rest else sending

  unfoldable pub send_to_sessions : List Session → ConnectionManager → ConnectionManager
  unfolding send_each
  send_to_sessions ss cm = send_each no_frames ss cm

unfoldable pub deliver_local : Bytes → List ℕ → Bytes → Json → ConnectionManager → ConnectionManager
deliver_local timestamp [] type payload cm = cm
deliver_local timestamp (user ∷ users) type payload cm =
    deliver_local timestamp users type payload (
      send_to_sessions timestamp type payload no_envelope 0 (sessions_for_user user cm.sessions) cm)

-- The cluster bus where one is attached.
unfoldable pub cluster_publish : Channel → Json → ConnectionManager → ConnectionManager
cluster_publish channel body cm =
    if cm.clustered then record cm { published = cm.published ++ ((channel, body) ∷ []) } else cm

unfoldable pub user_body : List ℕ → Bytes → Json → Json
user_body user_ids type payload = obj (
    field (codes "event") (str type)
      (field (codes "user_ids") (arr (id_items user_ids)) (field (codes "data") payload end)))

unfoldable pub room_body : ℕ → Bytes → Json → Json
room_body conversation type payload = obj (
    field (codes "event") (str type)
      (field (codes "conversation_id") (id conversation) (field (codes "data") payload end)))

unfoldable pub publish : Bytes → List ℕ → Bytes → Json → ConnectionManager → ConnectionManager
publish timestamp user_ids type payload cm =
    cluster_publish user_broadcast (user_body user_ids type payload)
      (deliver_local timestamp user_ids type payload cm)

abbrev version_of : Option Session → Version
version_of none = default_version
version_of (some s) = s.protocol_version

unfoldable pub send_event :
    Bytes → ℕ → Bytes → Json → Envelope → ConnectionManager → ConnectionManager
send_event timestamp conn type payload envelope cm =
    send_raw conn
      (encode timestamp (version_of (get_session conn cm.sessions)) type payload envelope) cm

unfoldable pub deliver_local_to_room :
    Bytes → ℕ → Bytes → Json → ℕ → ConnectionManager → ConnectionManager
deliver_local_to_room timestamp conversation type payload exclude cm =
    send_to_sessions timestamp type payload no_envelope exclude
      (sessions_for (connections_in_room conversation cm.rooms) cm.sessions) cm

unfoldable pub broadcast_to_room :
    Bytes → ℕ → Bytes → Json → ℕ → ConnectionManager → ConnectionManager
broadcast_to_room timestamp conversation type payload exclude cm =
    cluster_publish room_broadcast (room_body conversation type payload)
      (deliver_local_to_room timestamp conversation type payload exclude cm)

abbrev data_or_empty : Option Json → Json
data_or_empty none = obj end
data_or_empty (some j) = j

abbrev as_array : Option Json → Option Items
as_array (some (arr js)) = some js
as_array _ = none

on_users : Bytes → Fields → Option Bytes → Option Items → ConnectionManager → ConnectionManager
on_users timestamp body (some event) (some users) cm = elim (get_ids users) [
  | none ↦ cm
  | some user_ids ↦
      deliver_local timestamp user_ids event (data_or_empty (find (codes "data") body)) cm
]
on_users timestamp body _ _ cm = cm

on_room : Bytes → Fields → Option Bytes → Option ℕ → ConnectionManager → ConnectionManager
on_room timestamp body (some event) (some room) cm =
    deliver_local_to_room timestamp room event (data_or_empty (find (codes "data") body)) 0 cm
on_room timestamp body _ _ cm = cm

-- The two handlers that `set_cluster_bus` subscribes. An element of `user_ids` that is no id makes
-- the library throw out of the handler, which then has delivered nothing.
unfoldable pub receive : Bytes → Channel × Json → ConnectionManager → ConnectionManager
unfolding on_users on_room
receive timestamp (user_broadcast, body) cm =
    on_users timestamp (fields body) (as_string (find (codes "event") (fields body)))
      (as_array (find (codes "user_ids") (fields body))) cm
receive timestamp (room_broadcast, body) cm =
    on_room timestamp (fields body) (as_string (find (codes "event") (fields body)))
      (as_id (find (codes "conversation_id") (fields body))) cm
