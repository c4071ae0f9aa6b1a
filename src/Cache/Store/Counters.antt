-- ===== src/Cache/Store/Counters.antt =====
-- `incr` as the counter of a fixed window.
use realtime_chat.Common.{
  int64_max, from_chars-to_string, to_string, ℕ, ◌+◌, ◌≤◌, ◌≡◌, refl, ◌≢◌, inl, inr, false, Option,
  none, some, arith, lookup-insert, lookup, Option-cases, Bytes, codes, bytes_beq_iff, bytes_eq,
  nat_eq, ℤ, pos,
}
use realtime_chat.Cache.Store.{Store, is_expired, deadline, bump, incr}
use realtime_chat.Cache.Store.View.{value_at}

-- The key holds the decimal of `n`, with the given deadline.
abbrev pub IsCounting : Bytes → ℕ → Option ℕ → Store → Type 0
IsCounting key n expiry st =
    lookup key st.strings ≡ some (record { value = to_string (pos n); expires_at = expiry })

to_string_one : to_string (pos 1) ≡ codes "1"
unfolding to_string
to_string_one = refl

-- The first increment of a key that stands for nothing creates the counter at 1, with its deadline.
pub incr_fresh :
    (now : ℕ) (key : Bytes) (ttl : ℤ) (st : Store)
    → value_at now key st ≡ none
    → ((incr now key ttl st).0 ≡ pos 1)
      × IsCounting key 1 (deadline now ttl) (incr now key ttl st).1
unfolding incr
incr_fresh now key ttl st h = ground (
  arith,
  to_string_one,
  bytes_beq_iff key key,
  lookup-insert key key (record { value = codes "1"; expires_at = deadline now ttl }) st.strings,
)

-- A later increment before the deadline adds one, and the deadline stays where it was.
pub incr-IsCounting :
    (now : ℕ) (key : Bytes) (ttl : ℤ) (n : ℕ) (expiry : Option ℕ) (st : Store)
    → n ≤ int64_max
    → is_expired now expiry ≡ false
    → IsCounting key n expiry st
    → ((incr now key ttl st).0 ≡ pos (n + 1))
      × IsCounting key (n + 1) expiry (incr now key ttl st).1
unfolding incr
incr-IsCounting now key ttl n expiry st b f h = ground (
  arith,
  from_chars-to_string n b,
  bytes_beq_iff key key,
  lookup-insert key key (record { value = to_string (pos (n + 1)); expires_at = expiry })
      st.strings,
)

-- `incr` changes the value of no other key.
pub value_at-incr_ne :
    (now later : ℕ) (key j : Bytes) (ttl : ℤ) (st : Store)
    → j ≢ key
    → value_at later j (incr now key ttl st).1 ≡ value_at later j st
unfolding incr
value_at-incr_ne now later key j ttl st ne = elim (Option-cases (lookup key st.strings)) [
  | inl e ↦ ground (
    arith,
    bytes_beq_iff j key,
    lookup-insert j key (record { value = codes "1"; expires_at = deadline now ttl }) st.strings,
  )
  | inr (entry, e) ↦ ground (
    arith,
    bytes_beq_iff j key,
    lookup-insert j key (record { value = codes "1"; expires_at = deadline now ttl }) st.strings,
    lookup-insert j key (record entry { value = to_string (bump entry.value) }) st.strings,
  )
]

-- Nor does it touch the entry of another key.
pub lookup-incr_ne :
    (now : ℕ) (key j : Bytes) (ttl : ℤ) (st : Store)
    → j ≢ key
    → lookup j (incr now key ttl st).1.strings ≡ lookup j st.strings
unfolding incr
lookup-incr_ne now key j ttl st ne = elim (Option-cases (lookup key st.strings)) [
  | inl e ↦ ground (
    arith,
    bytes_beq_iff j key,
    lookup-insert j key (record { value = codes "1"; expires_at = deadline now ttl }) st.strings,
  )
  | inr (entry, e) ↦ ground (
    arith,
    bytes_beq_iff j key,
    lookup-insert j key (record { value = codes "1"; expires_at = deadline now ttl }) st.strings,
    lookup-insert j key (record entry { value = to_string (bump entry.value) }) st.strings,
  )
]
