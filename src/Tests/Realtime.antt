-- ===== src/Tests/Realtime.antt =====
-- Witnesses for the realtime registries, the delivery and the wire format.
use realtime_chat.Common.{
  ℕ, ◌≡◌, refl, true, some, [], ◌∷◌, ◌++◌, lookup, contains, codes, bytes_eq, nat_eq, pos,
}
use realtime_chat.Json.{Json, number, obj, end, field}
use realtime_chat.Realtime.Protocol.{v2, no_envelope, encode, decode}
use realtime_chat.Realtime.Protocol.RoundTrip.{carried, decode-encode}
use realtime_chat.Realtime.Multimap.{values}
use realtime_chat.Realtime.Rooms.{no_rooms}
use realtime_chat.Realtime.Rooms.Laws.{
  IsConsistent, joins, joins_many, leaves_all, run, run-no_rooms-IsConsistent,
}
use realtime_chat.Realtime.Sessions.{
  Session, SessionManager, no_sessions, add_session, remove_session,
}
use realtime_chat.Realtime.Sessions.Laws.{
  IsIndexed, add_session-IsIndexed, remove_session-IsIndexed,
}
use realtime_chat.Realtime.Connections.{
  user_broadcast, ConnectionManager, deliver_local, user_body, receive,
}
use realtime_chat.Realtime.Connections.Delivery.{frames_for_users, deliver_local-frames}
use realtime_chat.Realtime.Connections.Cluster.{receive-user_body}

abbrev lobby : ℕ
lobby = 5

-- A session of user 1 on connection 40.
abbrev ann : Session
ann = record {
  connection = 40;
  user_id = 1;
  username = codes "ann";
  protocol_version = v2;
  last_activity_ms = 0;
}

no_sessions-IsIndexed : IsIndexed no_sessions
unfolding values lookup contains
no_sessions-IsIndexed = record { agree = λ user conn. refl; own = λ conn. tt }

abbrev one_session : SessionManager
one_session = (add_session 40 1 (codes "ann") v2 no_sessions).1

one_session-IsIndexed : IsIndexed one_session
unfolding lookup
one_session-IsIndexed =
    add_session-IsIndexed 40 1 (codes "ann") v2 no_sessions tt no_sessions-IsIndexed

abbrev hub : ConnectionManager
hub = record {
  sessions = one_session;
  rooms = no_rooms;
  clustered = true;
  sent = [];
  published = [];
}

abbrev ping : Json
ping = obj (field (codes "n") (number (pos 3)) end)

remove_session-IsIndexed_example : IsIndexed (remove_session 40 one_session).1
remove_session-IsIndexed_example = remove_session-IsIndexed 40 one_session one_session-IsIndexed

run-no_rooms-IsConsistent_example :
    IsConsistent (run (joins 5 40 ∷ joins_many (5 ∷ 6 ∷ []) 41 ∷ leaves_all 40 ∷ []) no_rooms)
run-no_rooms-IsConsistent_example =
    run-no_rooms-IsConsistent (joins 5 40 ∷ joins_many (5 ∷ 6 ∷ []) 41 ∷ leaves_all 40 ∷ [])

deliver_local-frames_example :
    deliver_local (codes "t") (1 ∷ 2 ∷ []) (codes "ping") ping hub ≡ record hub {
      sent = hub.sent ++ frames_for_users (codes "t") (codes "ping") ping (1 ∷ 2 ∷ []) hub.sessions;
    }
deliver_local-frames_example = deliver_local-frames (codes "t") (codes "ping") ping (1 ∷ 2 ∷ []) hub

receive-user_body_example :
    receive (codes "t") (user_broadcast, user_body (1 ∷ 2 ∷ []) (codes "ping") ping) hub
    ≡ deliver_local (codes "t") (1 ∷ 2 ∷ []) (codes "ping") ping hub
receive-user_body_example = receive-user_body (codes "t") (codes "ping") ping (1 ∷ 2 ∷ []) hub

decode-encode_example :
    decode (
      some (
        encode
          (codes "t")
          v2
          (b'p' ∷ (codes "ing"))
          (obj (field (codes "n") (number (pos 3)) end))
          no_envelope))
    ≡ some (record {
      event = b'p' ∷ (codes "ing");
      payload = obj (field (codes "n") (number (pos 3)) end);
      request_id = (carried v2 no_envelope).request_id;
      correlation_id = (carried v2 no_envelope).correlation_id;
      version = v2;
    })
decode-encode_example =
    decode-encode (codes "t") v2 b'p' (codes "ing") (field (codes "n") (number (pos 3)) end)
      no_envelope
