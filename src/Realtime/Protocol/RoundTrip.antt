-- ===== src/Realtime/Protocol/RoundTrip.antt =====
-- Decoding what was encoded.
use realtime_chat.Common.{ℕ, ◌≡◌, refl, some, [], ◌∷◌, arith, Bytes}
use realtime_chat.Json.{obj, Fields}
use realtime_chat.Realtime.Protocol.{Version, v1, v2, Envelope, encode, decode}

-- What of an envelope travels in a frame of each version: version 1 has no place for it.
abbrev pub carried : Version → Envelope → Envelope
carried v1 envelope = record { request_id = []; correlation_id = [] }
carried v2 envelope = envelope

-- A frame with a nonempty event name and an object for its payload is decoded to the same event,
-- payload and version, and to the correlation ids that the version carries.
pub decode-encode :
    (timestamp : Bytes) (version : Version) (c : ℕ) (s : Bytes) (fs : Fields) (envelope : Envelope)
    → decode (some (encode timestamp version (c ∷ s) (obj fs) envelope))
      ≡ some (record {
        event = c ∷ s;
        payload = obj fs;
        request_id = (carried version envelope).request_id;
        correlation_id = (carried version envelope).correlation_id;
        version = version;
      })
unfolding decode encode
decode-encode timestamp v1 c s fs envelope = refl
decode-encode timestamp v2 c s fs envelope = ground arith
