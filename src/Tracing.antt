-- ===== src/Tracing.antt =====
-- The trace context on the wire: include/rtc/tracing/trace_context.hpp and
-- src/tracing/trace_context.cpp. The random ids are those of the random source and are left out.
pub mod RoundTrip
use realtime_chat.Common.{
  length, ℕ, zero, suc, ◌+◌, ◌-◌, ◌*◌, ◌%◌, Bool, true, false, not, ◌&&◌, ◌||◌, Option, none, some,
  List, [], ◌∷◌, ◌++◌, leb, if◌then◌else◌, Bytes, codes, ◌==◌, bytes_eq, nat_eq,
}

pub record SpanContext : Type 0 where
  pub trace_id : Bytes
  pub span_id : Bytes
  pub sampled : Bool
  pub trace_state : Bytes

abbrev invalid_trace_id : Bytes
invalid_trace_id = codes "00000000000000000000000000000000"

abbrev invalid_span_id : Bytes
invalid_span_id = codes "0000000000000000"

unfoldable pub is_valid : SpanContext → Bool
is_valid c =
    length c.trace_id == 32
    && (not (c.trace_id == invalid_trace_id)
        && (length c.span_id == 16 && not (c.span_id == invalid_span_id)))

unfoldable pub is_hex_digit : ℕ → Bool
is_hex_digit c = leb b'0' c && leb c b'9' || leb b'a' c && leb c b'f'

unfoldable pub is_lower_hex : Bytes → Bool
is_lower_hex [] = true
is_lower_hex (c ∷ s) = is_hex_digit c && is_lower_hex s

digit : ℕ → ℕ
digit c = if leb c b'9' then c - b'0' else c - b'a' + 10

-- `(high << 4) | low`, where `low` is below 16.
unfoldable pub parse_hex_byte : Bytes → Option ℕ
unfolding digit
parse_hex_byte (a ∷ b ∷ []) =
    if is_hex_digit a && is_hex_digit b then some (digit a * 16 + digit b) else none
parse_hex_byte _ = none

-- What stands before the first dash, and what stands behind it.
unfoldable pub before_dash : Bytes → Bytes
before_dash [] = []
before_dash (c ∷ s) = if c == b'-' then [] else c ∷ before_dash s

unfoldable pub after_dash : Bytes → Option Bytes
after_dash [] = none
after_dash (c ∷ s) = if c == b'-' then some s else after_dash s

-- At most `n` fields.
unfoldable pub split_fields : ℕ → Bytes → List Bytes
split_fields zero header = []
split_fields (suc n) header =
    before_dash header ∷ elim (after_dash header) [ none ↦ [] | some rest ↦ split_fields n rest ]

abbrev is_version : Option ℕ → Bool
is_version none = false
is_version (some v) = not (v == 255)

-- The context of the two ids, once the flags have been read.
unfoldable pub with_flags : Bytes → Bytes → Option ℕ → Option SpanContext
with_flags trace span none = none
with_flags trace span (some flags) =
    some (record { trace_id = trace; span_id = span; sampled = flags % 2 == 1; trace_state = [] })

unfoldable pub is_valid_ids : Bytes → Bytes → Bool
is_valid_ids trace span =
    is_valid (record { trace_id = trace; span_id = span; sampled = false; trace_state = [] })

unfoldable pub parse_fields : List Bytes → Option SpanContext
parse_fields (version ∷ trace ∷ span ∷ flags ∷ _) =
    if not (is_version (parse_hex_byte version))
    then none
    else if not (is_lower_hex trace) || (not (is_lower_hex span) || not (is_valid_ids trace span))
    then none
    else with_flags trace span (parse_hex_byte flags)
parse_fields _ = none

unfoldable pub parse_traceparent : Bytes → Option SpanContext
parse_traceparent header = parse_fields (split_fields 4 header)

unfoldable pub flags_of : Bool → Bytes
flags_of true = codes "-01"
flags_of false = codes "-00"

unfoldable pub format_traceparent : SpanContext → Bytes
format_traceparent c = codes "00-" ++ (c.trace_id ++ (b'-' ∷ (c.span_id ++ flags_of c.sampled)))
