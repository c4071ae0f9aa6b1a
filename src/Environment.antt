-- ===== src/Environment.antt =====
-- Environment variables as numbers and flags: the parsers of src/config/config.cpp.
use realtime_chat.Common.{
  is_digit, scan, from_chars, ℕ, ◌-◌, ◌^◌, String, Bool, true, not, ◌&&◌, ◌||◌, Option, none, some,
  [], ◌∷◌, ◌++◌, ltb, leb, if◌then◌else◌, Bytes, codes, ◌==◌, bytes_eq, nat_eq, ℤ, leb_ℤ,
}
use realtime_chat.Errors.{Result, ok, throw, configuration}
use realtime_chat.Validation.{to_lower}
use realtime_chat.Features.{is_truthy}

abbrev pub Env : Type 0
Env = String → Option Bytes

unfoldable pub all_digits : Bytes → Bool
all_digits [] = true
all_digits (c ∷ s) = is_digit c && all_digits s

abbrev pub quoted : String → Bytes → Bytes
quoted name raw = codes name ++ codes "='" ++ raw ++ codes "'"

-- std::from_chars of an unsigned 64-bit number, of the whole text.
unfoldable pub whole_uint64 : Bytes → Option ℕ
whole_uint64 [] = none
whole_uint64 (c ∷ s) =
    if all_digits (c ∷ s) && leb (scan 0 (c ∷ s)) (2 ^ 64 - 1) then some (scan 0 (c ∷ s)) else none

abbrev pub in_range : String → Bytes → ℕ → ℕ → Option ℕ → Result ℕ
in_range name raw min max none =
    throw configuration "Invalid integer for environment variable" (quoted name raw)
in_range name raw min max (some n) =
    if ltb n min || ltb max n
    then throw configuration "Value out of range for environment variable" (quoted name raw)
    else ok n

unfoldable pub parse_uint : String → ℕ → ℕ → ℕ → Option Bytes → Result ℕ
unfolding whole_uint64
parse_uint name fallback min max none = ok fallback
parse_uint name fallback min max (some []) = ok fallback
parse_uint name fallback min max (some raw) = in_range name raw min max (whole_uint64 raw)

-- std::from_chars of a signed 64-bit number, of the whole text.
unfoldable pub whole_int64 : Bytes → Option ℤ
whole_int64 [] = none
whole_int64 (c ∷ s) =
    if all_digits (if c == b'-' then s else c ∷ s) then from_chars (c ∷ s) else none

abbrev pub at_least : String → Bytes → ℤ → Option ℤ → Result ℤ
at_least name raw min none =
    throw configuration "Invalid integer for environment variable" (quoted name raw)
at_least name raw min (some z) =
    if not (leb_ℤ min z)
    then throw configuration "Value out of range for environment variable" (quoted name raw)
    else ok z

unfoldable pub parse_int64 : String → ℤ → ℤ → Option Bytes → Result ℤ
unfolding whole_int64
parse_int64 name fallback min none = ok fallback
parse_int64 name fallback min (some []) = ok fallback
parse_int64 name fallback min (some raw) = at_least name raw min (whole_int64 raw)

unfoldable pub parse_flag : Bool → Option Bytes → Bool
parse_flag fallback none = fallback
parse_flag fallback (some []) = fallback
parse_flag fallback (some raw) = is_truthy (to_lower raw)

abbrev pub or_else : Bytes → Option Bytes → Bytes
or_else fallback none = fallback
or_else fallback (some []) = fallback
or_else fallback (some s) = s
