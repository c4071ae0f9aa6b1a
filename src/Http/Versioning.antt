-- ===== src/Http/Versioning.antt =====
-- API versions in paths: include/rtc/http/api_version.hpp and
-- src/middlewares/versioning_middleware.cpp. A path is the text of its bytes; a version is an int of
-- 32 bits.
pub mod Paths
use realtime_chat.Common.{
  is_digit, scan, nat_to_string, ℕ, ◌-◌, ◌^◌, Bool, true, false, not, ◌||◌, Option, none, some,
  List, [], ◌∷◌, ◌++◌, contains, leb, if◌then◌else◌, Bytes, codes, ◌==◌, bytes_eq, nat_eq,
}
use realtime_chat.Errors.{not_found, http_status_for}

abbrev pub int_max : ℕ
int_max = 2 ^ 31 - 1

-- kSupportedApiVersions, kDefaultApiVersion, kCurrentApiVersion.
abbrev pub supported_api_versions : List ℕ
supported_api_versions = 1 ∷ []

abbrev pub default_api_version : ℕ
default_api_version = 1

abbrev pub current_api_version : ℕ
current_api_version = 1

unfoldable pub is_supported_api_version : ℕ → Bool
is_supported_api_version version = contains version supported_api_versions

unfoldable pub api_version_label : ℕ → Bytes
api_version_label version = codes "v" ++ nat_to_string version

unfoldable pub join_labels : List ℕ → Bytes → Bytes
unfolding api_version_label
join_labels [] out = out
join_labels (v ∷ vs) [] = join_labels vs (api_version_label v)
join_labels (v ∷ vs) (c ∷ out) = join_labels vs ((c ∷ out) ++ codes ", " ++ api_version_label v)

unfoldable pub supported_api_versions_label : Bytes
unfolding join_labels
supported_api_versions_label = join_labels supported_api_versions []

pub record ApiVersionRewrite : Type 0 where
  pub has_prefix : Bool
  pub version : ℕ
  pub normalised : Bytes

abbrev pub literal : Bytes → ApiVersionRewrite
literal path = record { has_prefix = false; version = 0; normalised = path }

-- What is left of a text after a prefix that it starts with.
unfoldable pub strip_prefix : Bytes → Bytes → Option Bytes
strip_prefix [] s = some s
strip_prefix (p ∷ ps) [] = none
strip_prefix (p ∷ ps) (c ∷ s) = if p == c then strip_prefix ps s else none

-- The run of digits at the front, and the rest.
unfoldable pub digits_of : Bytes → Bytes
digits_of [] = []
digits_of (c ∷ s) = if is_digit c then c ∷ digits_of s else []

unfoldable pub after_digits : Bytes → Bytes
after_digits [] = []
after_digits (c ∷ s) = if is_digit c then after_digits s else c ∷ s

abbrev pub ends_segment : Bytes → Bool
ends_segment [] = true
ends_segment (c ∷ s) = c == b'/' || c == b'?'

abbrev pub is_empty_text : Bytes → Bool
is_empty_text [] = true
is_empty_text (c ∷ s) = false

-- The text after "/api/v".
unfoldable pub parse_segment : Bytes → Bytes → ApiVersionRewrite
parse_segment path rest =
    if is_empty_text (digits_of rest)
    then literal path
    else if not (ends_segment (after_digits rest))
    then literal path
    else if not (leb (scan 0 (digits_of rest)) int_max)
    then literal path
    else record {
      has_prefix = true;
      version = scan 0 (digits_of rest);
      normalised = codes "/api" ++ after_digits rest;
    }

abbrev pub parse_rest : Bytes → Option Bytes → ApiVersionRewrite
parse_rest path none = literal path
parse_rest path (some rest) = parse_segment path rest

unfoldable pub parse_versioned_path : Bytes → ApiVersionRewrite
unfolding strip_prefix parse_segment
parse_versioned_path path = parse_rest path (strip_prefix (codes "/api/v") path)

pub record Context : Type 0 where
  pub version : ℕ
  pub explicit_prefix : Bool

-- A response that ends the request: its status, the header with the version, and the error.
pub record Refusal : Type 0 where
  pub code : ℕ
  pub api_version : Bytes
  pub error_code : Bytes
  pub message : Bytes
  pub details : Bytes

unfoldable pub before_parsed : ApiVersionRewrite → Context × Option Refusal
unfolding is_supported_api_version api_version_label supported_api_versions_label
before_parsed parsed =
    if not parsed.has_prefix
    then (record { version = default_api_version; explicit_prefix = false }, none)
    else if not (is_supported_api_version parsed.version)
    then (
      record { version = current_api_version; explicit_prefix = true },
      some (record {
        code = http_status_for not_found;
        api_version = api_version_label current_api_version;
        error_code = codes "unsupported_api_version";
        message = codes "Unsupported API version: " ++ api_version_label parsed.version;
        details = codes "supported=" ++ supported_api_versions_label;
      }),
    )
    else (record { version = parsed.version; explicit_prefix = true }, none)

unfoldable pub before_handle : Bytes → Context × Option Refusal
unfolding before_parsed
before_handle url = before_parsed (parse_versioned_path url)

-- The header that every response carries.
unfoldable pub after_handle : Context → Bytes
unfolding api_version_label
after_handle ctx = api_version_label ctx.version
