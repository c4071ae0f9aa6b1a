-- ===== src/Validation/Fields.antt =====
-- What the validators accept.
use realtime_chat.Common.{
  length, ℕ, ◌≤◌, ◌≡◌, refl, ◌∙◌, ◌↔◌, true, false, Option, none, some, [], ◌∷◌, arith, Bytes,
}
use realtime_chat.Errors.{ok}
use realtime_chat.Validation.{
  is_space, is_alnum, is_valid_username_char, tolower, to_lower, is_empty, trim, all_of, front,
  validate_username, validate_email, validate_password, RegisterRequest, normalize_register,
  validate_group_name, validate_message_content, UpdateProfileRequest, normalize_profile,
  normalize_optional, longer_than, is_url_or_none,
}
use realtime_chat.Validation.Trimming.{
  IsTrimmed, starts_plain, ends_plain, trim-IsTrimmed, trim_of_IsTrimmed,
}

length_pos : (s : Bytes) → is_empty s ≡ false → 1 ≤ length s
length_pos [] h = absurd (ground arith)
length_pos (c ∷ s) h = omega arith

-- A message is accepted exactly with its trimmed content, which has 1 to 4000 bytes.
pub validate_message_content_iff :
    (content t : Bytes)
    → (validate_message_content content ≡ ok t)
      ↔ ((t ≡ trim content) × (1 ≤ length t) × (length t ≤ 4000))
unfolding validate_message_content
validate_message_content_iff content t =
    (λ h. ground (arith, length_pos (trim content)), λ h. ground arith)

-- A group name is accepted exactly with its trimmed text, which has 1 to 128 bytes.
pub validate_group_name_iff :
    (name t : Bytes)
    → (validate_group_name name ≡ ok t) ↔ ((t ≡ trim name) × (1 ≤ length t) × (length t ≤ 128))
unfolding validate_group_name
validate_group_name_iff name t = (λ h. ground arith, λ h. ground arith)

-- A user name is accepted exactly if it has 3 to 32 bytes, starts with a letter or a digit, and
-- holds only letters, digits, dots, underscores and dashes.
pub validate_username_iff :
    (u : Bytes)
    → (validate_username u ≡ ok tt) ↔ (
        (3 ≤ length u)
        × (length u ≤ 32)
        × (is_alnum (front u) ≡ true)
        × (all_of is_valid_username_char u ≡ true))
unfolding validate_username
validate_username_iff u = (λ h. ground arith, λ h. ground arith)

-- A password is accepted exactly if it has 8 to 72 bytes.
pub validate_password_iff :
    (p : Bytes) → (validate_password p ≡ ok tt) ↔ ((8 ≤ length p) × (length p ≤ 72))
unfolding validate_password
validate_password_iff p = (λ h. ground arith, λ h. ground arith)

tolower_idem : (c : ℕ) → tolower (tolower c) ≡ tolower c
unfolding tolower
tolower_idem c = ground arith

to_lower_idem : (s : Bytes) → to_lower (to_lower s) ≡ to_lower s
to_lower_idem [] = refl
to_lower_idem (c ∷ s) = ground (arith, tolower_idem c, to_lower_idem s)

is_space-tolower : (c : ℕ) → is_space (tolower c) ≡ is_space c
unfolding is_space tolower
is_space-tolower c = ground arith

starts_plain-to_lower : (s : Bytes) → starts_plain (to_lower s) ≡ starts_plain s
starts_plain-to_lower [] = refl
starts_plain-to_lower (c ∷ s) = ground (arith, is_space-tolower c)

ends_plain-to_lower : (s : Bytes) → ends_plain (to_lower s) ≡ ends_plain s
ends_plain-to_lower [] = refl
ends_plain-to_lower (c ∷ []) = ground (arith, is_space-tolower c)
ends_plain-to_lower (c ∷ d ∷ s) = ends_plain-to_lower (d ∷ s)

normalized_email : (s : Bytes) → to_lower (trim (to_lower (trim s))) ≡ to_lower (trim s)
normalized_email s =
    rw
      (trim_of_IsTrimmed (to_lower (trim s)) (
        starts_plain-to_lower (trim s) ∙ (trim-IsTrimmed s).0,
        ends_plain-to_lower (trim s) ∙ (trim-IsTrimmed s).1,
      ))
      (to_lower_idem (trim s))

-- A registration that is accepted is accepted again as it stands after normalisation: its user name
-- is trimmed, its email trimmed and in lower case, and each passes its validator.
pub normalize_register_idem :
    (r r' : RegisterRequest)
    → normalize_register r ≡ ok r'
    → (normalize_register r' ≡ ok r')
      × (validate_username r'.username ≡ ok tt)
      × (validate_email r'.email ≡ ok tt)
      × (validate_password r'.password ≡ ok tt)
      × (r'.password ≡ r.password)
      × IsTrimmed r'.username
      × (to_lower r'.email ≡ r'.email)
unfolding normalize_register
normalize_register_idem r r' h =
    let name_fixed = trim_of_IsTrimmed (trim r.username) (trim-IsTrimmed r.username) in
    let email_fixed = normalized_email r.email in
    (
      ground (arith, name_fixed, email_fixed),
      ground arith,
      ground arith,
      ground arith,
      ground arith,
      (
        ground (arith, (trim-IsTrimmed r.username).0),
        ground (arith, (trim-IsTrimmed r.username).1),
      ),
      ground (arith, to_lower_idem (trim r.email)),
    )

normalize_optional_idem :
    (o : Option Bytes) → normalize_optional (normalize_optional o) ≡ normalize_optional o
unfolding normalize_optional
normalize_optional_idem none = refl
normalize_optional_idem (some s) = ground (arith, trim_of_IsTrimmed (trim s) (trim-IsTrimmed s))

-- Each profile field that an accepted update sets is within its limit, and an avatar is an http or
-- https address; an update that sets a blank text clears the field.
pub normalize_profile_limits :
    (r r' : UpdateProfileRequest)
    → normalize_profile r ≡ ok r'
    → (r.display_name_set ≡ true
        → (r'.display_name ≡ normalize_optional r.display_name)
          × (longer_than 64 r'.display_name ≡ false))
      × (r.bio_set ≡ true → (r'.bio ≡ normalize_optional r.bio) × (longer_than 500 r'.bio ≡ false))
      × (r.avatar_url_set ≡ true
          → (r'.avatar_url ≡ normalize_optional r.avatar_url)
            × (longer_than 2048 r'.avatar_url ≡ false)
            × (is_url_or_none r'.avatar_url ≡ true))
unfolding normalize_profile
normalize_profile_limits r r' h = (
  λ e. (ground arith, ground arith),
  λ e. (ground arith, ground arith),
  λ e. (ground arith, ground arith, ground arith),
)
