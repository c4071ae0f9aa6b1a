-- ===== src/Features.antt =====
-- Feature flags: include/rtc/features/feature_flags.hpp and src/features/feature_flags.cpp. The
-- array of atomics is a function of the feature; the sentinel kCount is no feature. The environment
-- is a function: a variable that is not set reads as the empty text, as `get_env_or` is called.
pub mod Registry
use realtime_chat.Common.{
  ℕ, String, Bool, true, ◌||◌, Option, none, some, List, [], ◌∷◌, ◌++◌, map, if◌then◌else◌, Bytes,
  codes, append, ◌==◌, bytes_eq, nat_eq,
}
use realtime_chat.Errors.{Result, ok, err, AppException, not_found}
use realtime_chat.Validation.{to_lower, tolower}
use realtime_chat.Json.{Json, boolean, str, arr, obj, Items, nil, item, end, field}

pub data Feature : Type 0 where
  reactions uploads notifications typing search read_receipts presence audit_log : Feature

abbrev pub feature_index : Feature → ℕ
feature_index reactions = 0
feature_index uploads = 1
feature_index notifications = 2
feature_index typing = 3
feature_index search = 4
feature_index read_receipts = 5
feature_index presence = 6
feature_index audit_log = 7

pub record FeatureDescriptor : Type 0 where
  pub feature : Feature
  pub name : String
  pub env_var : Bytes
  pub default_enabled : Bool
  pub description : Bytes

abbrev entry : Feature → String → Bytes → Bool → Bytes → FeatureDescriptor
entry f name env_var default_enabled description = record {
  feature = f;
  name = name;
  env_var = env_var;
  default_enabled = default_enabled;
  description = description;
}

-- The entry of the registry at the place of a feature.
unfoldable pub descriptor : Feature → FeatureDescriptor
descriptor reactions =
    entry reactions "reactions" (codes "ENABLE_REACTIONS") true
      (codes "Message reactions (add/remove emoji)")
descriptor uploads =
    entry uploads "uploads" (codes "ENABLE_UPLOADS") true (codes "Attachment upload and download")
descriptor notifications =
    entry notifications "notifications" (codes "ENABLE_NOTIFICATIONS") true
      (codes "Notification creation, listing and push delivery")
descriptor typing =
    entry typing "typing" (codes "ENABLE_TYPING") true (codes "Typing indicators over WebSocket")
descriptor search =
    entry search "search" (codes "ENABLE_SEARCH") true (codes "Full-text message and user search")
descriptor read_receipts =
    entry read_receipts "read_receipts" (codes "ENABLE_READ_RECEIPTS") true
      (codes "Delivery and read receipts")
descriptor presence =
    entry presence "presence" (codes "ENABLE_PRESENCE") true
      (codes "Online/offline presence tracking")
descriptor audit_log =
    entry audit_log "audit_log" (codes "ENABLE_AUDIT_LOG") true
      (codes "Persisting audit records for security-relevant actions")

abbrev pub features : List Feature
features =
    reactions ∷ uploads ∷ notifications ∷ typing ∷ search ∷ read_receipts ∷ presence ∷ audit_log
    ∷ []

-- kFeatureRegistry.
unfoldable pub registry : List FeatureDescriptor
unfolding descriptor
registry = map descriptor features

unfoldable pub name_of : Feature → String
unfolding descriptor
name_of f = (descriptor f).name

unfoldable pub find_feature : Bytes → List FeatureDescriptor → Option Feature
find_feature name [] = none
find_feature name (e ∷ es) = if codes e.name == name then some e.feature else find_feature name es

unfoldable pub parse_feature : Bytes → Option Feature
unfolding find_feature registry
parse_feature name = find_feature name registry

pub record FeatureFlags : Type 0 where
  pub flags : Feature → Bool

-- The store with one flag overwritten.
unfoldable pub store : Feature → Bool → FeatureFlags → FeatureFlags
store f enabled fs = record {
  flags = λ g. if feature_index f == feature_index g then enabled else fs.flags g;
}

abbrev pub is_truthy : Bytes → Bool
is_truthy s = s == codes "1" || (s == codes "true" || (s == codes "yes" || s == codes "on"))

unfoldable pub parse_bool : Bytes → Bool → Bool
parse_bool [] fallback = fallback
parse_bool raw fallback = is_truthy (to_lower raw)

unfoldable pub store_defaults : List FeatureDescriptor → FeatureFlags → FeatureFlags
unfolding store
store_defaults [] fs = fs
store_defaults (e ∷ es) fs = store_defaults es (store e.feature e.default_enabled fs)

-- The constructor: whatever the array held, every entry of the registry is stored.
unfoldable pub new_flags : FeatureFlags → FeatureFlags
unfolding store_defaults registry
new_flags fs = store_defaults registry fs

unfoldable pub is_enabled : Feature → FeatureFlags → Bool
is_enabled f fs = fs.flags f

-- The flags afterwards and the value before.
unfoldable pub set : Feature → Bool → FeatureFlags → FeatureFlags × Bool
unfolding store
set f enabled fs = (store f enabled fs, fs.flags f)

unfoldable pub load_each : (Bytes → Bytes) → List FeatureDescriptor → FeatureFlags → FeatureFlags
unfolding set parse_bool
load_each env [] flags = flags
load_each env (e ∷ es) flags =
    load_each env es (set e.feature (parse_bool (env e.env_var) e.default_enabled) flags).0

unfoldable pub load_from_env : (Bytes → Bytes) → FeatureFlags → FeatureFlags
unfolding load_each registry
load_from_env env flags = load_each env registry flags

unfoldable pub require : Feature → FeatureFlags → Result (Unit {0})
unfolding is_enabled name_of
require f flags =
    if is_enabled f flags
    then ok tt
    else err (record {
      type = not_found;
      message = append "Feature is disabled: " (name_of f);
      details = codes "feature=" ++ codes (name_of f);
    })

unfoldable pub json_items : List FeatureDescriptor → FeatureFlags → Items
unfolding is_enabled
json_items [] flags = nil
json_items (e ∷ es) flags =
    item
      (obj (
        field (codes "name") (str (codes e.name)) (
          field (codes "enabled") (boolean (is_enabled e.feature flags)) (
            field (codes "env") (str e.env_var) (
              field (codes "default") (boolean e.default_enabled)
                (field (codes "description") (str e.description) end))))))
      (json_items es flags)

unfoldable pub to_json : FeatureFlags → Json
unfolding json_items registry
to_json flags = arr (json_items registry flags)

unfoldable pub names_enabled : List FeatureDescriptor → FeatureFlags → List Bytes
unfolding is_enabled
names_enabled [] flags = []
names_enabled (e ∷ es) flags =
    if is_enabled e.feature flags
    then codes e.name ∷ names_enabled es flags
    else names_enabled es flags

unfoldable pub enabled_names : FeatureFlags → List Bytes
unfolding names_enabled registry
enabled_names flags = names_enabled registry flags
