-- ===== src/Security/Role.antt =====
-- Roles, permissions and the grant table: include/rtc/security/role.hpp.
-- A value of the enums is one of the named ones; `Permission.count` is the sentinel kCount.
pub mod Laws
use Prim.Native.Nat.{bit_and, bit_or}
use realtime_chat.Common.{
  ℕ, ◌%◌, ◌^◌, Bool, true, false, not, ◌||◌, Option, none, some, List, [], ◌∷◌, leb, if◌then◌else◌,
  ◌==◌, nat_eq, Bytes, codes, bytes_eq,
}

pub data Role : Type 0 where
  user moderator admin super_admin : Role

pub data Permission : Type 0 where
  delete_any_message edit_any_message view_any_conversation : Permission
  manage_groups ban_users manage_users manage_roles : Permission
  view_sessions revoke_sessions view_audit_logs : Permission
  view_system_metrics manage_feature_flags count : Permission

abbrev pub default_role : Role
default_role = user

unfoldable pub role_to_string : Role → Bytes
role_to_string user = codes "user"
role_to_string moderator = codes "moderator"
role_to_string admin = codes "admin"
role_to_string super_admin = codes "super_admin"

unfoldable pub parse_role : Bytes → Option Role
parse_role name =
    if name == codes "user"
    then some user
    else if name == codes "moderator"
    then some moderator
    else if name == codes "admin"
    then some admin
    else if name == codes "super_admin"
    then some super_admin
    else none

unfoldable pub permission_to_string : Permission → Bytes
permission_to_string delete_any_message = codes "message.delete_any"
permission_to_string edit_any_message = codes "message.edit_any"
permission_to_string view_any_conversation = codes "conversation.view_any"
permission_to_string manage_groups = codes "group.manage"
permission_to_string ban_users = codes "user.ban"
permission_to_string manage_users = codes "user.manage"
permission_to_string manage_roles = codes "user.manage_roles"
permission_to_string view_sessions = codes "session.view"
permission_to_string revoke_sessions = codes "session.revoke"
permission_to_string view_audit_logs = codes "audit.view"
permission_to_string view_system_metrics = codes "system.metrics"
permission_to_string manage_feature_flags = codes "system.feature_flags"
permission_to_string count = codes "unknown"

-- The values 0 to kPermissionCount - 1, in the order of the loop of `parse_permission`.
abbrev permissions : List Permission
permissions =
    delete_any_message ∷ edit_any_message ∷ view_any_conversation ∷ manage_groups ∷ ban_users
    ∷ manage_users ∷ manage_roles ∷ view_sessions ∷ revoke_sessions ∷ view_audit_logs
    ∷ view_system_metrics ∷ manage_feature_flags ∷ []

find_permission : Bytes → List Permission → Option Permission
find_permission name [] = none
find_permission name (p ∷ ps) =
    if permission_to_string p == name then some p else find_permission name ps

unfoldable pub parse_permission : Bytes → Option Permission
unfolding find_permission permission_to_string
parse_permission name = find_permission name permissions

-- static_cast to the underlying integer.
abbrev pub role_index : Role → ℕ
role_index user = 0
role_index moderator = 1
role_index admin = 2
role_index super_admin = 3

abbrev pub permission_index : Permission → ℕ
permission_index delete_any_message = 0
permission_index edit_any_message = 1
permission_index view_any_conversation = 2
permission_index manage_groups = 3
permission_index ban_users = 4
permission_index manage_users = 5
permission_index manage_roles = 6
permission_index view_sessions = 7
permission_index revoke_sessions = 8
permission_index view_audit_logs = 9
permission_index view_system_metrics = 10
permission_index manage_feature_flags = 11
permission_index count = 12

-- A std::uint32_t shift.
bit : Permission → ℕ
bit p = 2 ^ permission_index p % 2 ^ 32

infixl 40 ◌or◌
abbrev ◌or◌ : ℕ → ℕ → ℕ
◌or◌ = bit_or

user_grants : ℕ
user_grants = 0

moderator_grants : ℕ
unfolding user_grants bit
moderator_grants =
    user_grants or bit delete_any_message or bit edit_any_message or bit manage_groups

admin_grants : ℕ
unfolding moderator_grants
admin_grants =
    moderator_grants
    or bit view_any_conversation
    or bit ban_users
    or bit manage_users
    or bit view_sessions
    or bit revoke_sessions
    or bit view_audit_logs
    or bit view_system_metrics

super_admin_grants : ℕ
unfolding admin_grants
super_admin_grants = admin_grants or bit manage_roles or bit manage_feature_flags

role_grants : Role → ℕ
unfolding super_admin_grants
role_grants user = user_grants
role_grants moderator = moderator_grants
role_grants admin = admin_grants
role_grants super_admin = super_admin_grants

abbrev is_count : Permission → Bool
is_count count = true
is_count _ = false

unfoldable pub has_permission : Role → Permission → Bool
unfolding role_grants
has_permission role permission =
    if leb 4 (role_index role) || is_count permission
    then false
    else not (bit_and (role_grants role) (bit permission) == 0)

unfoldable pub can_assign_role : Role → Role → Bool
unfolding has_permission
can_assign_role actor target =
    if not (has_permission actor manage_roles)
    then false
    else leb (role_index target) (role_index actor)
