-- ===== src/Common/Decimal.antt =====
-- std::to_string and std::from_chars on std::int64_t: decimal printing and parsing.
use Prim.Native.Nat.{ℕ, zero, suc, ◌+◌, ◌-◌, ◌*◌, ◌/◌, ◌%◌, ◌^◌, ◌≤◌, ◌<◌}
use mathlib.Core.Bool.{Bool, true, ◌&&◌}
use mathlib.Core.List.{[], ◌∷◌}
use mathlib.Core.Option.{Option, none, some}
use mathlib.Core.Path.{◌≡◌}
use native.Mathlib.Omega.{arith}
use realtime_chat.Common.Tests.{ltb, leb, if◌then◌else◌, nat_beq}
use realtime_chat.Common.Keys.{Bytes}
use realtime_chat.Common.Int.{ℤ, pos, negsuc}

abbrev pub int64_max : ℕ
int64_max = 2 ^ 63 - 1

unfoldable pub is_digit : ℕ → Bool
is_digit c = leb b'0' c && leb c b'9'

-- The digits of `n` in front of `out`; the fuel is more than `n`.
unfoldable pub emit : ℕ → ℕ → Bytes → Bytes
emit zero n out = out
emit (suc fuel) n out =
    let more = emit fuel (n / 10) ((b'0' + n % 10) ∷ out) in
    if ltb n 10 then (b'0' + n) ∷ out else more

unfoldable pub nat_to_string : ℕ → Bytes
unfolding emit
nat_to_string n = emit (suc n) n []

unfoldable pub to_string : ℤ → Bytes
unfolding nat_to_string
to_string (pos n) = nat_to_string n
to_string (negsuc n) = b'-' ∷ nat_to_string (suc n)

-- The value of the digits at the front of a text, after `n`.
unfoldable pub scan : ℕ → Bytes → ℕ
unfolding is_digit
scan n [] = n
scan n (c ∷ s) = let more = scan (n * 10 + (c - b'0')) s in if is_digit c then more else n

-- The digits at the front of a text; none where there is none, or where the value passes `limit`.
unfoldable pub scan_digits : ℕ → Bytes → Option ℕ
unfolding scan
scan_digits limit [] = none
scan_digits limit (c ∷ s) =
    let n = scan (c - b'0') s in if is_digit c then if leb n limit then some n else none else none

abbrev negate : ℕ → ℤ
negate zero = pos 0
negate (suc n) = negsuc n

abbrev pub from_chars_signed : Option ℕ → Option ℤ
from_chars_signed none = none
from_chars_signed (some n) = some (negate n)

abbrev pub from_chars_plain : Option ℕ → Option ℤ
from_chars_plain none = none
from_chars_plain (some n) = some (pos n)

-- A minus sign is accepted, a plus sign is not; trailing text is left unread. `none` stands for an
-- error code, on which the target is left as it was.
unfoldable pub from_chars : Bytes → Option ℤ
unfolding scan_digits
from_chars [] = none
from_chars (c ∷ s) =
    if nat_beq c b'-'
    then from_chars_signed (scan_digits (int64_max + 1) s)
    else from_chars_plain (scan_digits int64_max (c ∷ s))

scan-digit : (n d : ℕ) (out : Bytes) → d < 10 → scan n ((b'0' + d) ∷ out) ≡ scan (n * 10 + d) out
unfolding scan
scan-digit n d out h = ground arith

-- Printing in front of a text and scanning from zero is scanning the text after the number.
pub scan-emit : (fuel n : ℕ) (out : Bytes) → n < fuel → scan 0 (emit fuel n out) ≡ scan n out
unfolding emit
scan-emit zero n out h = elim h [ ]
scan-emit (suc fuel) n out h = ground (
  arith,
  scan-digit 0 n out,
  scan-emit fuel (n / 10) ((b'0' + n % 10) ∷ out),
  scan-digit (n / 10) (n % 10) out,
)

-- What starts with a digit.
abbrev StartsWithDigit : Bytes → Type 0
StartsWithDigit [] = ⊥
StartsWithDigit (c ∷ s) = is_digit c ≡ true

emit-StartsWithDigit : (fuel n : ℕ) (out : Bytes) → n < fuel → StartsWithDigit (emit fuel n out)
unfolding emit is_digit
emit-StartsWithDigit zero n out h = elim h [ ]
emit-StartsWithDigit (suc fuel) n out h =
    ground (arith, emit-StartsWithDigit fuel (n / 10) ((b'0' + n % 10) ∷ out))

from_chars_of_digits :
    (s : Bytes) → StartsWithDigit s → scan 0 s ≤ int64_max → from_chars s ≡ some (pos (scan 0 s))
unfolding from_chars
from_chars_of_digits [] h b = absurd h
from_chars_of_digits (c ∷ s) h b = ground arith

-- A counter that was printed is read back.
pub from_chars-to_string : (n : ℕ) → n ≤ int64_max → from_chars (to_string (pos n)) ≡ some (pos n)
unfolding to_string scan
from_chars-to_string n h =
    let e : scan 0 (emit (suc n) n []) ≡ n = scan-emit (suc n) n [] (omega arith) in
    rw (
      from_chars_of_digits (emit (suc n) n []) (emit-StartsWithDigit (suc n) n [] (omega arith))
          (omega (arith, e, h)),
      e,
    )

pub to_string-injective :
    (m n : ℕ) → m ≤ int64_max → n ≤ int64_max → to_string (pos m) ≡ to_string (pos n) → m ≡ n
to_string-injective m n bm bn e =
    ground (arith, from_chars-to_string m bm, from_chars-to_string n bn)
