-- ===== src/Validation.antt =====
-- Field validators: include/rtc/validation/validators.hpp and src/validation/validators.cpp. The
-- character classes are those of the "C" locale; lengths count bytes.
pub mod Trimming
pub mod Fields
pub mod Email
use realtime_chat.Common.{
  length, ℕ, ◌+◌, Bool, true, false, not, ◌&&◌, ◌||◌, Option, none, some, [], ◌∷◌, map, ltb, leb,
  if◌then◌else◌, ◌==◌, nat_eq, Bytes, codes, bytes_eq,
}
use realtime_chat.Errors.{Result, ok, err, throw, AppException, validation}

unfoldable pub is_space : ℕ → Bool
is_space c = leb 9 c && leb c 13 || c == 32

unfoldable pub is_alnum : ℕ → Bool
is_alnum c = leb b'0' c && leb c b'9' || leb b'a' c && leb c b'z' || leb b'A' c && leb c b'Z'

unfoldable pub is_valid_username_char : ℕ → Bool
unfolding is_alnum
is_valid_username_char c = is_alnum c || c == b'_' || c == b'.' || c == b'-'

unfoldable pub tolower : ℕ → ℕ
tolower c = if leb b'A' c && leb c b'Z' then c + 32 else c

abbrev pub to_lower : Bytes → Bytes
to_lower = map tolower

abbrev pub is_empty : Bytes → Bool
is_empty [] = true
is_empty (c ∷ s) = false

unfoldable pub trim_left : Bytes → Bytes
trim_left [] = []
trim_left (c ∷ s) = if is_space c then trim_left s else c ∷ s

unfoldable pub trim_right : Bytes → Bytes
trim_right [] = []
trim_right (c ∷ s) = let rest = trim_right s in if is_empty rest && is_space c then [] else c ∷ rest

unfoldable pub trim : Bytes → Bytes
trim s = trim_right (trim_left s)

abbrev pub all_of : (ℕ → Bool) → Bytes → Bool
all_of p [] = true
all_of p (c ∷ s) = p c && all_of p s

abbrev pub front : Bytes → ℕ
front [] = 0
front (c ∷ s) = c

unfoldable pub validate_username : Bytes → Result (Unit {0})
validate_username username =
    if ltb (length username) 3 || ltb 32 (length username)
    then throw validation "Username must be between 3 and 32 characters" (codes "field=username")
    else if not (is_alnum (front username))
    then throw validation "Username must start with a letter or digit" (codes "field=username")
    else if not (all_of is_valid_username_char username)
    then throw validation "Username may only contain letters, digits, '.', '_' and '-'"
        (codes "field=username")
    else ok tt

-- The class [^\s@] of the pattern.
unfoldable pub is_plain : ℕ → Bool
is_plain c = not (is_space c) && not (c == b'@')

-- A dot with something behind it.
unfoldable pub has_dot_then_more : Bytes → Bool
has_dot_then_more [] = false
has_dot_then_more (c ∷ s) = c == b'.' && not (is_empty s) || has_dot_then_more s

-- `[^\s@]+\.[^\s@]+$`
unfoldable pub match_domain : Bytes → Bool
unfolding has_dot_then_more
match_domain [] = false
match_domain (c ∷ s) = all_of is_plain (c ∷ s) && has_dot_then_more s

-- `[^\s@]*@` and the domain; the part before the at sign holds none.
unfoldable pub match_local : Bytes → Bool
match_local [] = false
match_local (c ∷ s) = if c == b'@' then match_domain s else is_plain c && match_local s

-- The regular expression `^[^\s@]+@[^\s@]+\.[^\s@]+$` of kEmailPattern.
unfoldable pub matches_email : Bytes → Bool
matches_email [] = false
matches_email (c ∷ s) = is_plain c && match_local s

unfoldable pub validate_email : Bytes → Result (Unit {0})
validate_email email =
    if is_empty email || ltb 254 (length email)
    then throw validation "Email must be between 1 and 254 characters" (codes "field=email")
    else if not (matches_email email)
    then throw validation "Email format is invalid" (codes "field=email")
    else ok tt

unfoldable pub validate_password : Bytes → Result (Unit {0})
validate_password password =
    if ltb (length password) 8
    then throw validation "Password must be at least 8 characters" (codes "field=password")
    else if ltb 72 (length password)
    then throw validation "Password must be at most 72 bytes" (codes "field=password")
    else ok tt

infixl 5 ◌>>=◌
-- What a check threw is thrown; otherwise the rest runs.
abbrev pub ◌>>=◌ {ℓ κ} : {A : Type ℓ} {B : Type κ} → Result A → (A → Result B) → Result B
err thrown >>= rest = err thrown
ok value >>= rest = rest value

infixl 5 ◌>>◌
abbrev pub ◌>>◌ {ℓ} : {B : Type ℓ} → Result (Unit {0}) → Result B → Result B
checked >> rest = checked >>= λ _. rest

pub record RegisterRequest : Type 0 where
  pub username : Bytes
  pub email : Bytes
  pub password : Bytes

unfoldable pub normalize_register : RegisterRequest → Result RegisterRequest
normalize_register request =
    let username = trim request.username in
    let email = to_lower (trim request.email) in
    do
      validate_username username
      validate_email email
      validate_password request.password
      ok (record request { username = username; email = email })

pub record LoginRequest : Type 0 where
  pub identifier : Bytes
  pub password : Bytes

unfoldable pub normalize_login : LoginRequest → Result LoginRequest
normalize_login request =
    if is_empty (trim request.identifier)
    then throw validation "Login identifier is required" (codes "field=identifier")
    else if is_empty request.password
    then throw validation "Password is required" (codes "field=password")
    else ok (record request { identifier = trim request.identifier })

unfoldable pub normalize_optional : Option Bytes → Option Bytes
normalize_optional none = none
normalize_optional (some value) = if is_empty (trim value) then none else some (trim value)

abbrev pub starts_with : Bytes → Bytes → Bool
starts_with [] s = true
starts_with (c ∷ p) [] = false
starts_with (c ∷ p) (d ∷ s) = c == d && starts_with p s

unfoldable pub is_http_url : Bytes → Bool
is_http_url url = starts_with (codes "http://") url || starts_with (codes "https://") url

unfoldable pub validate_group_name : Bytes → Result Bytes
validate_group_name name =
    if ltb (length (trim name)) 1 || ltb 128 (length (trim name))
    then throw validation "Group name must be between 1 and 128 characters" (codes "field=name")
    else ok (trim name)

unfoldable pub validate_message_content : Bytes → Result Bytes
validate_message_content content =
    if is_empty (trim content)
    then throw validation "Message content must not be empty" (codes "field=content")
    else if ltb 4000 (length (trim content))
    then throw validation "Message content is too long (max 4000 characters)"
        (codes "field=content")
    else ok (trim content)

pub record UpdateProfileRequest : Type 0 where
  pub display_name_set : Bool
  pub display_name : Option Bytes
  pub bio_set : Bool
  pub bio : Option Bytes
  pub avatar_url_set : Bool
  pub avatar_url : Option Bytes

abbrev pub longer_than : ℕ → Option Bytes → Bool
longer_than n none = false
longer_than n (some s) = ltb n (length s)

abbrev pub is_url_or_none : Option Bytes → Bool
is_url_or_none none = true
is_url_or_none (some s) = is_http_url s

normalize_display_name : UpdateProfileRequest → Result UpdateProfileRequest
normalize_display_name r =
    if not r.display_name_set
    then ok r
    else if longer_than 64 (normalize_optional r.display_name)
    then throw validation "Display name must be at most 64 characters" (codes "field=display_name")
    else ok (record r { display_name = normalize_optional r.display_name })

normalize_bio : UpdateProfileRequest → Result UpdateProfileRequest
normalize_bio r =
    if not r.bio_set
    then ok r
    else if longer_than 500 (normalize_optional r.bio)
    then throw validation "Bio must be at most 500 characters" (codes "field=bio")
    else ok (record r { bio = normalize_optional r.bio })

normalize_avatar_url : UpdateProfileRequest → Result UpdateProfileRequest
normalize_avatar_url r =
    if not r.avatar_url_set
    then ok r
    else if longer_than 2048 (normalize_optional r.avatar_url)
    then throw validation "Avatar URL is too long" (codes "field=avatar_url")
    else if not (is_url_or_none (normalize_optional r.avatar_url))
    then throw validation "Avatar URL must be an http(s) URL" (codes "field=avatar_url")
    else ok (record r { avatar_url = normalize_optional r.avatar_url })

unfoldable pub normalize_profile : UpdateProfileRequest → Result UpdateProfileRequest
unfolding normalize_display_name normalize_bio normalize_avatar_url
normalize_profile r = do
  named ← normalize_display_name r
  described ← normalize_bio named
  normalize_avatar_url described
