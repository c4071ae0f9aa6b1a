-- ===== src/Validation/Trimming.antt =====
-- Trimming.
use realtime_chat.Common.{
  ℕ, ◌≡◌, refl, ap, ◌∙◌, inl, inr, Bool, true, false, not, ◌&&◌, [], ◌∷◌, ◌++◌, arith, Bool-cases,
  Bytes,
}
use realtime_chat.Validation.{is_space, is_empty, trim_left, trim_right, trim, all_of}

-- A text that neither starts nor ends with white space.
abbrev pub starts_plain : Bytes → Bool
starts_plain [] = true
starts_plain (c ∷ s) = not (is_space c)

abbrev pub ends_plain : Bytes → Bool
ends_plain [] = true
ends_plain (c ∷ []) = not (is_space c)
ends_plain (c ∷ d ∷ s) = ends_plain (d ∷ s)

abbrev pub IsTrimmed : Bytes → Type 0
IsTrimmed s = (starts_plain s ≡ true) × (ends_plain s ≡ true)

trim_left-starts_plain : (s : Bytes) → starts_plain (trim_left s) ≡ true
unfolding trim_left
trim_left-starts_plain [] = refl
trim_left-starts_plain (c ∷ s) = ground (arith, trim_left-starts_plain s)

ends_plain-cons :
    (c : ℕ) (s : Bytes)
    → ends_plain s ≡ true
    → (is_empty s && is_space c) ≡ false
    → ends_plain (c ∷ s) ≡ true
ends_plain-cons c [] h e = ground arith
ends_plain-cons c (d ∷ s) h e = h

trim_right-ends_plain : (s : Bytes) → ends_plain (trim_right s) ≡ true
unfolding trim_right
trim_right-ends_plain [] = refl
trim_right-ends_plain (c ∷ s) =
    ground (arith, ends_plain-cons c (trim_right s) (trim_right-ends_plain s))

trim_right-starts_plain : (s : Bytes) → starts_plain s ≡ true → starts_plain (trim_right s) ≡ true
unfolding trim_right
trim_right-starts_plain [] h = refl
trim_right-starts_plain (c ∷ s) h = ground arith

-- Trimming leaves no white space at either end.
pub trim-IsTrimmed : (s : Bytes) → IsTrimmed (trim s)
unfolding trim
trim-IsTrimmed s = (
  trim_right-starts_plain (trim_left s) (trim_left-starts_plain s),
  trim_right-ends_plain (trim_left s),
)

trim_left-split :
    (s : Bytes) → (pre : Bytes) × (all_of is_space pre ≡ true) × (s ≡ pre ++ trim_left s)
unfolding trim_left
trim_left-split [] = ([], refl, refl)
trim_left-split (c ∷ s) = elim (Bool-cases (is_space c)) [
  | inl sp ↦ let (pre, all, e) = trim_left-split s in (c ∷ pre, ground arith, rw sp (ap (◌∷◌ c) e))
  | inr no_space ↦ ([], refl, rw no_space)
]

only_space : (b : Bool) (r s post : Bytes) → (is_empty r && b) ≡ true → s ≡ r ++ post → s ≡ post
only_space b [] s post cut e = e
only_space b (c ∷ r) s post cut e = absurd (ground arith)

trim_right-split :
    (s : Bytes) → (post : Bytes) × (all_of is_space post ≡ true) × (s ≡ trim_right s ++ post)
unfolding trim_right
trim_right-split [] = ([], refl, refl)
trim_right-split (c ∷ s) =
    let (post, all, e) = trim_right-split s in
    elim (Bool-cases (is_empty (trim_right s) && is_space c)) [
      | inl cut ↦ (
        c ∷ post,
        ground arith,
        rw cut (ap (◌∷◌ c) (only_space (is_space c) (trim_right s) s post cut e)),
      )
      | inr kept ↦ (post, all, rw kept (ap (◌∷◌ c) e))
    ]

-- What trimming takes away is white space at the two ends.
pub trim-split :
    (s : Bytes)
    → (pre : Bytes) × (post : Bytes) × (all_of is_space pre ≡ true)
      × (all_of is_space post ≡ true)
      × (s ≡ pre ++ (trim s ++ post))
unfolding trim
trim-split s =
    let (pre, pre_space, e) = trim_left-split s in
    let (post, post_space, d) = trim_right-split (trim_left s) in
    (pre, post, pre_space, post_space, e ∙ ap (◌++◌ pre) d)

trim_left-id : (s : Bytes) → starts_plain s ≡ true → trim_left s ≡ s
unfolding trim_left
trim_left-id [] h = refl
trim_left-id (c ∷ s) h = ground arith

trim_right-id : (s : Bytes) → ends_plain s ≡ true → trim_right s ≡ s
unfolding trim_right
trim_right-id [] h = refl
trim_right-id (c ∷ []) h = ground arith
trim_right-id (c ∷ d ∷ s) h = ground (arith, trim_right-id (d ∷ s) h)

-- A text with no white space at its ends is left as it is; so trimming twice is trimming once.
pub trim_of_IsTrimmed : (s : Bytes) → IsTrimmed s → trim s ≡ s
unfolding trim
trim_of_IsTrimmed s (h, k) = rw (trim_left-id s h) (trim_right-id s k)
