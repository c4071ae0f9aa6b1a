-- ===== src/Realtime/Dispatcher/Counts.antt =====
-- The counts of presence agree with the open sessions.
use realtime_chat.Common.{
  HasUniqueKeys, ℕ, ◌≡◌, refl, sym, ◌∙◌, inl, inr, true, false, Option, none, some, List, [], ◌∷◌,
  arith, lookup, ltb, Option-cases, Bytes, codes, bytes_eq, nat_eq,
}
use realtime_chat.Json.{Json}
use realtime_chat.Conversations.Repository.{list_peer_ids}
use realtime_chat.Presence.{Presence, nobody, is_online_locally, on_connect, on_disconnect}
use realtime_chat.Presence.Counts.{count_at, count_at-on_connect, count_at-on_disconnect}
use realtime_chat.Realtime.Protocol.{Version, no_envelope, decode}
use realtime_chat.Realtime.Sessions.{
  no_sessions, Session, SessionManager, add_session, remove_session, get_session,
}
use realtime_chat.Realtime.Sessions.Live.{
  live, live-touch, touch-HasUniqueKeys, live-add_session, add_session-HasUniqueKeys, LeavesOut,
  remove_session-LeavesOut,
}
use realtime_chat.Realtime.Connections.{register_session, unregister_session}
use realtime_chat.Features.{Feature}
use realtime_chat.Realtime.Failures.{at_first}
use realtime_chat.Realtime.Dispatcher.Quiet.{
  IsQuiet, quiet, on_frame-IsQuiet, sessions-send_event, sessions-publish,
}
use realtime_chat.Realtime.Dispatcher.{
  ready_payload, send_to, presence_payload, touched, Moment, Hub, enabled, open_session,
  announce_online, on_open, on_frame, on_message, announce_offline, announce_closed, on_close,
  Callback, opens, receives, closes, handle, handle_all,
}

-- Every count of presence is the number of the user's open sessions.
record IsCounted (h : Hub) : Type 0 where
  unique : HasUniqueKeys h.connections.sessions.by_connection
  counted : (user : ℕ) → count_at user h.presence ≡ live user h.connections.sessions.by_connection
  on : enabled Feature.presence h ≡ true

IsQuiet-IsCounted : (h h' : Hub) → IsQuiet h h' → IsCounted h → IsCounted h'
unfolding enabled
IsQuiet-IsCounted h h' q c = record {
  unique = rw q.same_sessions c.unique;
  counted = λ u. rw (q.same_sessions, q.same_presence) (c.counted u);
  on = rw q.same_flags c.on;
}

touched-IsCounted : (now_ms conn : ℕ) (h : Hub) → IsCounted h → IsCounted (touched now_ms conn h)
unfolding enabled
touched-IsCounted now_ms conn h c = record {
  unique = touch-HasUniqueKeys conn now_ms h.connections.sessions c.unique;
  counted = λ u. c.counted u ∙ sym (live-touch u conn now_ms h.connections.sessions);
  on = c.on;
}

on_message-IsCounted :
    (clock : Moment) (conn : ℕ) (text : Option Json) (h : Hub)
    → IsCounted h
    → IsCounted (on_message clock conn text h)
unfolding on_message
on_message-IsCounted clock conn text h c =
    let h' = touched clock.now_ms conn h in
    IsQuiet-IsCounted h'
      (on_frame clock conn (get_session conn h'.connections.sessions) (decode text) h')
      (on_frame-IsQuiet clock conn (get_session conn h'.connections.sessions) (decode text) h')
      (touched-IsCounted clock.now_ms conn h c)

-- A step that leaves the sessions and the flags, and makes presence what is given.
pub record IsAnnounced (h : Hub) (presence : Presence) (h' : Hub) : Type 0 where
  pub kept_sessions : h'.connections.sessions ≡ h.connections.sessions
  pub kept_flags : h'.flags ≡ h.flags
  pub new_presence : h'.presence ≡ presence

pub announce_online-IsAnnounced :
    (clock : Moment) (user : ℕ) (name : Bytes) (h : Hub)
    → enabled Feature.presence h ≡ true
    → IsAnnounced h (on_connect clock.at_ms user h.presence).1 (announce_online clock user name h)
unfolding announce_online
announce_online-IsAnnounced clock user name h on =
    let published =
      sessions-publish clock.timestamp (list_peer_ids user h.backend.db) (codes "presence.update")
        (presence_payload user (codes "online")) h.connections in
    record {
      kept_sessions = ground (arith, published);
      kept_flags = ground arith;
      new_presence = ground arith;
    }

announce_offline-IsAnnounced :
    (clock : Moment) (s : Session) (h : Hub)
    → enabled Feature.presence h ≡ true
    → IsAnnounced h
        (on_disconnect clock.now clock.at_ms s.user_id h.presence).1
        (announce_offline clock s h)
unfolding announce_offline
announce_offline-IsAnnounced clock s h on =
    let published =
      sessions-publish clock.timestamp (list_peer_ids s.user_id h.backend.db)
        (codes "presence.update") (presence_payload s.user_id (codes "offline")) h.connections in
    record {
      kept_sessions = ground (arith, published);
      kept_flags = ground arith;
      new_presence = ground arith;
    }

-- `on_open` where the rooms can be read.
pub on_open-joined :
    (clock : Moment) (conn user : ℕ) (name : Bytes) (version : Version) (h : Hub)
    → at_first clock.failure ≡ false
    → on_open clock conn user name version h
      ≡ send_to clock conn
          (codes "ready")
          (ready_payload user name version)
          no_envelope
          (announce_online clock user name (open_session clock conn user name version h))
unfolding on_open
on_open-joined clock conn user name version h joined = rw (on_open, joined) refl

on_open-IsCounted :
    (clock : Moment) (conn user : ℕ) (name : Bytes) (version : Version) (h : Hub)
    → get_session conn h.connections.sessions ≡ none
    → at_first clock.failure ≡ false
    → IsCounted h
    → IsCounted (on_open clock conn user name version h)
unfolding open_session register_session get_session enabled
on_open-IsCounted clock conn user name version h fresh joined c =
    let added = (add_session conn user name version h.connections.sessions).1 in
    let h1 = open_session clock conn user name version h in
    let h2 = announce_online clock user name h1 in
    let a = announce_online-IsAnnounced clock user name h1 c.on in
    rw (on_open-joined clock conn user name version h joined) (
      IsQuiet-IsCounted h2
        (send_to clock conn (codes "ready") (ready_payload user name version) no_envelope h2)
        (quiet h2 _
          (sessions-send_event clock.timestamp conn (codes "ready")
            (ready_payload user name version) no_envelope h2.connections)
          refl refl)
        (record {
          unique = rw a.kept_sessions (
              touch-HasUniqueKeys conn clock.now_ms added
                (add_session-HasUniqueKeys conn user name version h.connections.sessions c.unique));
          counted = λ u.
              rw (a.kept_sessions, a.new_presence)
                (ground (
                  arith,
                  c.counted u,
                  count_at-on_connect clock.at_ms user u h.presence,
                  live-touch u conn clock.now_ms added,
                  live-add_session u conn user name version h.connections.sessions fresh,
                ));
          on = rw a.kept_flags c.on;
        }))

announce_closed-IsCounted :
    (clock : Moment) (s : Option Session) (before : SessionManager) (h : Hub)
    → LeavesOut s before h.connections.sessions
    → HasUniqueKeys before.by_connection
    → ((user : ℕ) → count_at user h.presence ≡ live user before.by_connection)
    → enabled Feature.presence h ≡ true
    → IsCounted (announce_closed clock s h)
unfolding announce_closed enabled
announce_closed-IsCounted clock none before h l u c on = record {
  unique = rw l u;
  counted = λ v. rw l (c v);
  on = on;
}
announce_closed-IsCounted clock (some s) before h l u c on =
    let a = announce_offline-IsAnnounced clock s h on in
    record {
      unique = rw a.kept_sessions l.0;
      counted = λ v.
          rw (a.kept_sessions, a.new_presence)
            (ground (
              arith,
              c v,
              l.1 v,
              count_at-on_disconnect clock.now clock.at_ms s.user_id v h.presence,
            ));
      on = rw a.kept_flags on;
    }

on_close-IsCounted :
    (clock : Moment) (conn : ℕ) (h : Hub) → IsCounted h → IsCounted (on_close clock conn h)
unfolding on_close unregister_session enabled
on_close-IsCounted clock conn h c =
    announce_closed-IsCounted clock (remove_session conn h.connections.sessions).0
      h.connections.sessions (record h { connections = (unregister_session conn h.connections).1 })
      (remove_session-LeavesOut conn h.connections.sessions c.unique) c.unique c.counted c.on

-- A connection that opens can read its rooms.
abbrev pub Joins : Callback → Type 0
Joins (opens clock conn user username version) = at_first clock.failure ≡ false
Joins _ = Unit

unfoldable pub AllJoin : List Callback → Type 0
AllJoin [] = Unit
AllJoin (c ∷ cs) = Joins c × AllJoin cs

handle-IsCounted : (c : Callback) (h : Hub) → Joins c → IsCounted h → IsCounted (handle c h)
unfolding handle
handle-IsCounted (opens clock conn user name version) h j i =
    elim (Option-cases (get_session conn h.connections.sessions)) [
      | inl e ↦ simp (e, handle) (on_open-IsCounted clock conn user name version h e j i)
      | inr (s, e) ↦ simp (e, handle) i
    ]
handle-IsCounted (receives clock conn text) h j i = on_message-IsCounted clock conn text h i
handle-IsCounted (closes clock conn) h j i = on_close-IsCounted clock conn h i

handle_all-IsCounted :
    (cs : List Callback) (h : Hub) → AllJoin cs → IsCounted h → IsCounted (handle_all cs h)
unfolding handle_all AllJoin
handle_all-IsCounted [] h j i = i
handle_all-IsCounted (c ∷ cs) h j i =
    handle_all-IsCounted cs (handle c h) j.1 (handle-IsCounted c h j.0 i)

-- From a server without sessions, while presence is switched on: after any sequence of connections
-- that open, frames and connections that close, in which the database may fail anywhere but where a
-- connection that opens reads its rooms, a user is online here exactly when some open session is the
-- user's.
pub handle_all-online_iff_live :
    (callbacks : List Callback) (h : Hub) (user : ℕ)
    → AllJoin callbacks
    → h.connections.sessions ≡ no_sessions
    → h.presence ≡ nobody
    → enabled Feature.presence h ≡ true
    → is_online_locally user (handle_all callbacks h).presence
      ≡ ltb 0 (live user (handle_all callbacks h).connections.sessions.by_connection)
unfolding is_online_locally count_at live lookup
handle_all-online_iff_live callbacks h user j s p on =
    let start : IsCounted h = record { unique = rw s tt; counted = λ u. rw (s, p) refl; on = on } in
    ground (arith, (handle_all-IsCounted callbacks h j start).counted user)
