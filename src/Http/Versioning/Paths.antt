-- ===== src/Http/Versioning/Paths.antt =====
-- Which paths carry a version, and which version serves them.
use realtime_chat.Common.{
  scan-emit, is_digit, emit, scan, nat_to_string, ℕ, zero, suc, ◌+◌, ◌/◌, ◌%◌, ◌≤◌, ◌<◌, ◌≡◌, refl,
  ap, ◌∙◌, Bool, true, false, ◌&&◌, Option, none, some, [], ◌∷◌, ◌++◌, arith, contains,
  if◌then◌else◌, nat_beq_iff, le→leb, Bytes, codes, ◌==◌, bytes_eq, nat_eq,
}
use realtime_chat.Errors.{http_status_for}
use realtime_chat.Http.Versioning.{
  join_labels, int_max, ApiVersionRewrite, strip_prefix, digits_of, after_digits, ends_segment,
  is_empty_text, parse_segment, parse_rest, parse_versioned_path, before_parsed, before_handle,
}

abbrev pub all_digits : Bytes → Bool
all_digits [] = true
all_digits (c ∷ s) = is_digit c && all_digits s

all_digits-emit :
    (fuel n : ℕ) (out : Bytes)
    → n < fuel
    → all_digits out ≡ true
    → all_digits (emit fuel n out) ≡ true
unfolding emit is_digit
all_digits-emit zero n out h d = elim h [ ]
all_digits-emit (suc fuel) n out h d =
    ground (arith, all_digits-emit fuel (n / 10) ((b'0' + n % 10) ∷ out))

is_empty_text-emit : (fuel n : ℕ) (out : Bytes) → n < fuel → is_empty_text (emit fuel n out) ≡ false
unfolding emit
is_empty_text-emit zero n out h = elim h [ ]
is_empty_text-emit (suc fuel) n out h =
    ground (arith, is_empty_text-emit fuel (n / 10) ((b'0' + n % 10) ∷ out))

digits_of-append :
    (ds tail : Bytes)
    → all_digits ds ≡ true
    → ends_segment tail ≡ true
    → digits_of (ds ++ tail) ≡ ds
unfolding digits_of is_digit
digits_of-append [] [] d e = refl
digits_of-append [] (c ∷ tail) d e = ground arith
digits_of-append (c ∷ ds) tail d e = ground (arith, digits_of-append ds tail)

after_digits-append :
    (ds tail : Bytes)
    → all_digits ds ≡ true
    → ends_segment tail ≡ true
    → after_digits (ds ++ tail) ≡ tail
unfolding after_digits is_digit
after_digits-append [] [] d e = refl
after_digits-append [] (c ∷ tail) d e = ground arith
after_digits-append (c ∷ ds) tail d e = ground (arith, after_digits-append ds tail)

strip_prefix-append : (p s : Bytes) → strip_prefix p (p ++ s) ≡ some s
unfolding strip_prefix
strip_prefix-append [] s = refl
strip_prefix-append (c ∷ p) s = ground (arith, strip_prefix-append p s)

strip_prefix-splits : (p path rest : Bytes) → strip_prefix p path ≡ some rest → path ≡ p ++ rest
unfolding strip_prefix
strip_prefix-splits [] path rest e = ground arith
strip_prefix-splits (c ∷ p) [] rest e = ground arith
strip_prefix-splits (c ∷ p) (d ∷ path) rest e = ground (arith, strip_prefix-splits p path rest)

digits-split : (s : Bytes) → (s ≡ digits_of s ++ after_digits s) × (all_digits (digits_of s) ≡ true)
unfolding digits_of after_digits
digits-split [] = (refl, refl)
digits-split (c ∷ s) = ground (arith, digits-split s)

IsDigits : Bytes → Type 0
IsDigits s = (all_digits s ≡ true) × (is_empty_text s ≡ false)

IsDigits-nat_to_string : (n : ℕ) → IsDigits (nat_to_string n) × (scan 0 (nat_to_string n) ≡ n)
unfolding nat_to_string IsDigits scan
IsDigits-nat_to_string n = (
  (all_digits-emit (suc n) n [] (omega arith) refl, is_empty_text-emit (suc n) n [] (omega arith)),
  scan-emit (suc n) n [] (omega arith),
)

parse_segment-label :
    (path : Bytes) (n : ℕ) (tail : Bytes)
    → n ≤ int_max
    → ends_segment tail ≡ true
    → parse_segment path (nat_to_string n ++ tail)
      ≡ record { has_prefix = true; version = n; normalised = codes "/api" ++ tail }
unfolding parse_segment IsDigits
parse_segment-label path n tail b e =
    let ((digits, some_digit), value) = IsDigits-nat_to_string n in
    simp
      (
        digits_of-append (nat_to_string n) tail digits e,
        after_digits-append (nat_to_string n) tail digits e,
        some_digit,
        value,
        e,
        le→leb n int_max b,
      )
      refl

label_one : nat_to_string 1 ≡ codes "1"
unfolding nat_to_string emit
label_one = refl

before_parsed-label :
    (n : ℕ) (normalised : Bytes)
    → before_parsed (record { has_prefix = true; version = n; normalised = normalised }) ≡ (
        if n == 1 then (record { version = 1; explicit_prefix = true }, none) else (
          record { version = 1; explicit_prefix = true },
          some (record {
            code = 404;
            api_version = codes "v1";
            error_code = codes "unsupported_api_version";
            message = codes "Unsupported API version: " ++ (codes "v" ++ nat_to_string n);
            details = codes "supported=v1";
          }),
        ))
unfolding before_parsed http_status_for contains join_labels nat_to_string emit
before_parsed-label n normalised = ground (arith, nat_beq_iff n 1)

-- A path with the printed number of a version in its place, at the end of a segment, parses to that
-- version and to the path without it. Version 1 serves such a request under its own number; every
-- other version is refused with status 404, the code "unsupported_api_version", a message that names
-- the version and details that name v1, under the header v1.
pub before_handle-label :
    (n : ℕ) (tail : Bytes)
    → n ≤ int_max
    → ends_segment tail ≡ true
    → (parse_versioned_path (codes "/api/v" ++ (nat_to_string n ++ tail))
        ≡ record { has_prefix = true; version = n; normalised = codes "/api" ++ tail })
      × (before_handle (codes "/api/v" ++ (nat_to_string n ++ tail)) ≡ (
          if n == 1 then (record { version = 1; explicit_prefix = true }, none) else (
            record { version = 1; explicit_prefix = true },
            some (record {
              code = 404;
              api_version = codes "v1";
              error_code = codes "unsupported_api_version";
              message = codes "Unsupported API version: " ++ (codes "v" ++ nat_to_string n);
              details = codes "supported=v1";
            }),
          )))
unfolding parse_versioned_path strip_prefix before_handle
before_handle-label n tail b e =
    let path = codes "/api/v" ++ (nat_to_string n ++ tail) in
    let parsed = parse_segment-label path n tail b e in
    (parsed, ap before_parsed parsed ∙ before_parsed-label n (codes "/api" ++ tail))

-- A path with a version is "/api/v", digits that stand for the version, and a rest at a segment's
-- end, which follows "/api" in the path without the version.
abbrev pub IsVersioned : Bytes → ApiVersionRewrite → Type 0
IsVersioned path r =
    (ds : Bytes) × ((tail : Bytes) × ((path ≡ codes "/api/v" ++ (ds ++ tail))
        × ((all_digits ds ≡ true)
            × ((scan 0 ds ≡ r.version)
                × ((ends_segment tail ≡ true) × (r.normalised ≡ codes "/api" ++ tail))))))

parse_segment-splits :
    (path rest : Bytes)
    → path ≡ codes "/api/v" ++ rest
    → (parse_segment path rest).has_prefix ≡ true
    → IsVersioned path (parse_segment path rest)
unfolding parse_segment
parse_segment-splits path rest e h =
    let (split, digits) = digits-split rest in
    (
      digits_of rest,
      (after_digits rest, (e ∙ ap (λ r. codes "/api/v" ++ r) split, (digits, ground arith))),
    )

parse_rest-splits :
    (path : Bytes) (o : Option Bytes)
    → strip_prefix (codes "/api/v") path ≡ o
    → ((parse_rest path o).has_prefix ≡ true → IsVersioned path (parse_rest path o))
      × ((parse_rest path o).has_prefix ≡ false → (parse_rest path o).normalised ≡ path)
unfolding parse_segment
parse_rest-splits path none e = ((λ h. ground arith), (λ h. refl))
parse_rest-splits path (some rest) e = (
  parse_segment-splits path rest (strip_prefix-splits (codes "/api/v") path rest e),
  (λ h. ground arith),
)

-- Only paths of this form parse to a version, and every other path is left as it is.
pub parse_versioned_path-splits :
    (path : Bytes)
    → ((parse_versioned_path path).has_prefix ≡ true → IsVersioned path (parse_versioned_path path))
      × ((parse_versioned_path path).has_prefix ≡ false
          → (parse_versioned_path path).normalised ≡ path)
unfolding parse_versioned_path
parse_versioned_path-splits path = parse_rest-splits path (strip_prefix (codes "/api/v") path) refl
