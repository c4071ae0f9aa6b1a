-- ===== src/Security/Role/Laws.antt =====
-- What the grant table of role.hpp amounts to.
use realtime_chat.Common.{
  ℕ, ◌≤◌, ◌≡◌, refl, sym, ◌∙◌, ◌↔◌, true, none, some, arith, leb, leb→le, le→leb, Bytes, codes,
  bytes_beq_iff,
}
use realtime_chat.Security.Role.{
  Role, user, moderator, admin, super_admin, Permission, delete_any_message, edit_any_message,
  view_any_conversation, manage_groups, ban_users, manage_users, manage_roles, view_sessions,
  revoke_sessions, view_audit_logs, view_system_metrics, manage_feature_flags, count, role_index,
  role_to_string, parse_role, permission_to_string, parse_permission, has_permission,
  can_assign_role,
}

-- The lowest tier that holds a permission; the sentinel is above every tier.
abbrev pub tier : Permission → ℕ
tier delete_any_message = 1
tier edit_any_message = 1
tier manage_groups = 1
tier view_any_conversation = 2
tier ban_users = 2
tier manage_users = 2
tier view_sessions = 2
tier revoke_sessions = 2
tier view_audit_logs = 2
tier view_system_metrics = 2
tier manage_roles = 3
tier manage_feature_flags = 3
tier count = 4

-- The bit masks grant a permission to exactly the roles at or above its tier.
pub has_permission-tier :
    (r : Role) (p : Permission) → has_permission r p ≡ leb (tier p) (role_index r)
unfolding has_permission
has_permission-tier user delete_any_message = refl
has_permission-tier moderator delete_any_message = refl
has_permission-tier admin delete_any_message = refl
has_permission-tier super_admin delete_any_message = refl
has_permission-tier _ _ = refl

-- The roles are a strict hierarchy: a role holds every permission of each role below it.
pub has_permission_mono :
    (r s : Role) (p : Permission)
    → role_index r ≤ role_index s
    → has_permission r p ≡ true
    → has_permission s p ≡ true
has_permission_mono r s p h granted =
    has_permission-tier s p
    ∙ le→leb _ _
        (omega (arith, h, leb→le (tier p) (role_index r) (sym (has_permission-tier r p) ∙ granted)))

-- A role may be assigned exactly by a super admin, who may assign every role, its own included.
pub can_assign_role_iff : (a t : Role) → (can_assign_role a t ≡ true) ↔ (a ≡ super_admin)
unfolding can_assign_role
can_assign_role_iff user user = ground arith
can_assign_role_iff _ _ = ground arith

-- A name parses to a role exactly when it is the name of that role.
pub parse_role_iff : (n : Bytes) (r : Role) → (parse_role n ≡ some r) ↔ (n ≡ role_to_string r)
unfolding parse_role role_to_string
parse_role_iff n user = ground (
  arith,
  bytes_beq_iff n (codes "user"),
  bytes_beq_iff n (codes "moderator"),
  bytes_beq_iff n (codes "admin"),
  bytes_beq_iff n (codes "super_admin"),
)
parse_role_iff n _ = ground (
  arith,
  bytes_beq_iff n (codes "user"),
  bytes_beq_iff n (codes "moderator"),
  bytes_beq_iff n (codes "admin"),
  bytes_beq_iff n (codes "super_admin"),
)

-- Every permission but the sentinel parses from its own name, and the sentinel's name does not
-- parse.
pub parse_permission-to_string :
    (p : Permission)
    → parse_permission (permission_to_string p) ≡ (elim p [ count ↦ none | other ↦ some other ])
unfolding parse_permission permission_to_string
parse_permission-to_string delete_any_message = refl
parse_permission-to_string _ = refl
