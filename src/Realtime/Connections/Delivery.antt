-- ===== src/Realtime/Connections/Delivery.antt =====
-- What a fan-out sends: to each recipient one frame in the recipient's own protocol version.
use mathlib.Core.List.{append-nil, append_assoc}
use realtime_chat.Common.{
  ℕ, ◌≡◌, refl, ◌∙◌, ◌≢◌, inl, inr, Bool, false, ◌||◌, Option, none, some, List, [], ◌∷◌, ◌++◌,
  arith, lookup, if◌then◌else◌, Option-cases, ◌==◌, nat_eq, Bytes, bytes_eq,
}
use realtime_chat.Json.{Json}
use realtime_chat.Realtime.Protocol.{Version, v1, v2, Envelope, no_envelope, encode}
use realtime_chat.Realtime.Sessions.{Session, SessionManager, sessions_for_user}
use realtime_chat.Realtime.Sessions.Laws.{IsIndexed, is_of, reaches, reaches-sessions_for_user}
use realtime_chat.Realtime.Connections.{
  ConnectionManager, FrameCache, no_frames, for_version, send_raw, send_each, send_to_sessions,
  deliver_local,
}

module _ (timestamp type : Bytes) (payload : Json) (envelope : Envelope) (exclude : ℕ) where
  -- The frames of a fan-out, without the cache: a session with no connection, or with the excluded
  -- one, gets none.
  abbrev pub frames_for : List Session → List (ℕ × Json)
  frames_for [] = []
  frames_for (s ∷ ss) =
      if s.connection == 0 || s.connection == exclude
      then frames_for ss
      else (s.connection, encode timestamp s.protocol_version type payload envelope) ∷ frames_for ss

  HoldsFrame : Version → Option Json → Type 0
  HoldsFrame version none = Unit {0}
  HoldsFrame version (some frame) = frame ≡ encode timestamp version type payload envelope

  record IsFilled (cache : FrameCache) : Type 0 where
    first : HoldsFrame v1 cache.v1_frame
    second : HoldsFrame v2 cache.v2_frame

  for_version-IsFilled :
      (version : Version) (cache : FrameCache)
      → IsFilled cache
      → ((for_version timestamp type payload envelope version cache).0
          ≡ encode timestamp version type payload envelope)
        × IsFilled (for_version timestamp type payload envelope version cache).1
  unfolding for_version HoldsFrame
  for_version-IsFilled v1 cache h = elim (Option-cases cache.v1_frame) [
    | inl e ↦ ground (arith, h.first, h.second)
    | inr (f, e) ↦ ground (arith, h.first, h.second)
  ]
  for_version-IsFilled v2 cache h = elim (Option-cases cache.v2_frame) [
    | inl e ↦ ground (arith, h.first, h.second)
    | inr (f, e) ↦ ground (arith, h.first, h.second)
  ]

  send_each-frames :
      (cache : FrameCache) (ss : List Session) (cm : ConnectionManager)
      → IsFilled cache
      → send_each timestamp type payload envelope exclude cache ss cm
        ≡ record cm { sent = cm.sent ++ frames_for ss }
  unfolding send_each send_raw
  send_each-frames cache [] cm h = rw (append-nil cm.sent)
  send_each-frames cache (s ∷ ss) cm h =
      let frames = for_version timestamp type payload envelope s.protocol_version cache in
      let (same, filled) = for_version-IsFilled s.protocol_version cache h in
      ground (
        arith,
        same,
        send_each-frames cache ss cm h,
        send_each-frames frames.1 ss (send_raw s.connection frames.0 cm) filled,
        append_assoc cm.sent
            ((s.connection, encode timestamp s.protocol_version type payload envelope) ∷ [])
            (frames_for ss),
      )

  -- Whatever the cache does, each recipient is sent one frame of its own version, in order, and
  -- nothing else of the state changes.
  pub send_to_sessions-frames :
      (ss : List Session) (cm : ConnectionManager)
      → send_to_sessions timestamp type payload envelope exclude ss cm
        ≡ record cm { sent = cm.sent ++ frames_for ss }
  unfolding send_to_sessions HoldsFrame
  send_to_sessions-frames ss cm =
      send_each-frames no_frames ss cm (record { first = tt; second = tt })

-- The frames of a delivery to users: those of each user's sessions, user after user.
abbrev pub frames_for_users : Bytes → Bytes → Json → List ℕ → SessionManager → List (ℕ × Json)
frames_for_users timestamp type payload [] sm = []
frames_for_users timestamp type payload (user ∷ users) sm =
    frames_for timestamp type payload no_envelope 0 (sessions_for_user user sm)
    ++ frames_for_users timestamp type payload users sm

-- Delivery to users sends each of their sessions its frame and changes nothing else.
pub deliver_local-frames :
    (timestamp type : Bytes) (payload : Json) (users : List ℕ) (cm : ConnectionManager)
    → deliver_local timestamp users type payload cm
      ≡ record cm { sent = cm.sent ++ frames_for_users timestamp type payload users cm.sessions }
unfolding deliver_local
deliver_local-frames timestamp type payload [] cm = rw (append-nil cm.sent)
deliver_local-frames timestamp type payload (user ∷ users) cm =
    let here =
      frames_for timestamp type payload no_envelope 0 (sessions_for_user user cm.sessions) in
    ground (
      arith,
      send_to_sessions-frames timestamp type payload no_envelope 0
          (sessions_for_user user cm.sessions) cm,
      deliver_local-frames timestamp type payload users (record cm { sent = cm.sent ++ here }),
      append_assoc cm.sent here (frames_for_users timestamp type payload users cm.sessions),
    )

-- Whether a frame was sent to a connection.
abbrev pub is_sent_to : ℕ → List (ℕ × Json) → Bool
is_sent_to conn [] = false
is_sent_to conn ((c, frame) ∷ out) = c == conn || is_sent_to conn out

-- A delivery with an excluded connection sends nothing to it.
pub frames_for-excluded :
    (timestamp type : Bytes) (payload : Json) (envelope : Envelope) (exclude : ℕ)
    (ss : List Session)
    → is_sent_to exclude (frames_for timestamp type payload envelope exclude ss) ≡ false
frames_for-excluded timestamp type payload envelope exclude [] = refl
frames_for-excluded timestamp type payload envelope exclude (s ∷ ss) =
    ground (arith, frames_for-excluded timestamp type payload envelope exclude ss)

-- Every other connected session of the list gets a frame.
pub is_sent_to-frames_for :
    (timestamp type : Bytes) (payload : Json) (envelope : Envelope) (exclude conn : ℕ)
    (ss : List Session)
    → conn ≢ 0
    → conn ≢ exclude
    → is_sent_to conn (frames_for timestamp type payload envelope exclude ss) ≡ reaches conn ss
is_sent_to-frames_for timestamp type payload envelope exclude conn [] n e = refl
is_sent_to-frames_for timestamp type payload envelope exclude conn (s ∷ ss) n e =
    ground (arith, is_sent_to-frames_for timestamp type payload envelope exclude conn ss n e)

-- Where the two indexes of the session registry agree, a delivery to one user reaches a
-- connection other than null exactly if it is that of one of the user's sessions.
pub deliver_local-reaches :
    (timestamp type : Bytes) (payload : Json) (user conn : ℕ) (sm : SessionManager)
    → IsIndexed sm
    → conn ≢ 0
    → is_sent_to conn (frames_for timestamp type payload no_envelope 0 (sessions_for_user user sm))
      ≡ is_of user (lookup conn sm.by_connection)
deliver_local-reaches timestamp type payload user conn sm h n =
    is_sent_to-frames_for timestamp type payload no_envelope 0 conn (sessions_for_user user sm) n n
    ∙ reaches-sessions_for_user user conn sm h
