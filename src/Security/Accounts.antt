-- ===== src/Security/Accounts.antt =====
-- Users, roles, sessions and policies of src/security/security_manager.h, and sets of permissions.
use Prim.Native.String.{String}
use lattice_db_next_gen_dbms.Prelude.{ℕ, Bool, false, ◌||◌, List, [], ◌∷◌}
use lattice_db_next_gen_dbms.Prelude.Tests.{◌==◌, if◌then◌else◌}

pub data PermissionType : Type 0 where
  select : PermissionType
  insert : PermissionType
  update : PermissionType
  delete : PermissionType
  create_table : PermissionType
  drop_table : PermissionType
  create_index : PermissionType
  drop_index : PermissionType
  alter_table : PermissionType
  create_user_permission : PermissionType
  drop_user : PermissionType
  grant : PermissionType
  revoke : PermissionType
  admin : PermissionType

unfoldable pub permission_code : PermissionType → ℕ
permission_code select = 0
permission_code insert = 1
permission_code update = 2
permission_code delete = 3
permission_code create_table = 4
permission_code drop_table = 5
permission_code create_index = 6
permission_code drop_index = 7
permission_code alter_table = 8
permission_code create_user_permission = 9
permission_code drop_user = 10
permission_code grant = 11
permission_code revoke = 12
permission_code admin = 13

abbrev pub same_permission : PermissionType → PermissionType → Bool
same_permission p q = permission_code p == permission_code q

pub data AuthenticationMethod : Type 0 where
  password : AuthenticationMethod
  certificate : AuthenticationMethod
  ldap : AuthenticationMethod
  kerberos : AuthenticationMethod
  jwt_token : AuthenticationMethod
  api_key : AuthenticationMethod

-- The metadata that no operation reads (email, attributes, creation time) is left out.
pub record User : Type 0 where
  pub password_hash : String
  pub salt : List ℕ
  pub auth_method : AuthenticationMethod
  pub roles : List String
  pub is_active : Bool
  pub failed_login_attempts : ℕ
  pub locked_until : ℕ

pub record Role : Type 0 where
  pub description : String
  pub permissions : List PermissionType
  pub table_permissions : List (String × List PermissionType)

pub record SessionInfo : Type 0 where
  pub username : String
  pub client_ip : String
  pub last_activity : ℕ
  pub session_attributes : List (String × String)

pub record RlsPolicy : Type 0 where
  pub policy_name : String
  pub table_name : String
  pub permission_type : PermissionType
  pub condition_expression : String

pub record SecurityConfig : Type 0 where
  pub session_timeout_minutes : ℕ
  pub max_failed_login_attempts : ℕ
  pub account_lockout_minutes : ℕ

pub record SecurityManager : Type 0 where
  pub users : List (String × User)
  pub role_map : List (String × Role)
  pub active_sessions : List (String × SessionInfo)
  pub rls_policies : List RlsPolicy
  pub column_policies : List (String × String)
  pub config : SecurityConfig

-- Sets of permissions: `count`, `insert` and `erase`.
unfoldable pub has_permission : PermissionType → List PermissionType → Bool
has_permission p [] = false
has_permission p (q ∷ qs) = same_permission q p || has_permission p qs

unfoldable pub add_permission : PermissionType → List PermissionType → List PermissionType
unfolding has_permission
add_permission p ps = if has_permission p ps then ps else p ∷ ps

unfoldable pub remove_permission : PermissionType → List PermissionType → List PermissionType
remove_permission p [] = []
remove_permission p (q ∷ qs) =
    if same_permission q p then remove_permission p qs else q ∷ remove_permission p qs

-- `Role(name, description)` and `User(name)`.
abbrev pub new_role : String → Role
new_role description = record {
  description = description;
  permissions = [];
  table_permissions = [];
}
