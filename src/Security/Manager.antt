-- ===== src/Security/Manager.antt =====
-- `SecurityManager` of src/security/security_manager.h and security_manager.cpp. Its mutex is held
-- for the whole of an operation. Times are minutes of the system clock, read by the operation.
pub mod Permissions
pub mod Sessions
mod Tests
use Prim.Native.String.{String}
use lattice_db_next_gen_dbms.Prelude.{
  ℕ, zero, suc, ◌+◌, ◌-◌, Bool, true, false, not, ◌&&◌, ◌||◌, Option, none, some, List, [], ◌∷◌,
  ◌++◌,
}
use lattice_db_next_gen_dbms.Prelude.Tests.{◌==◌, ltb, if◌then◌else◌}
use lattice_db_next_gen_dbms.Prelude.Members.{contains}
use lattice_db_next_gen_dbms.Prelude.Names
use lattice_db_next_gen_dbms.Security.Passwords.{
  Secrets, hash_password, verify_password, is_password_strong,
}
use lattice_db_next_gen_dbms.Security.Accounts.{
  AuthenticationMethod, PermissionType, RlsPolicy, Role, SecurityConfig, SecurityManager,
  SessionInfo, User, add_permission, admin, alter_table, api_key, certificate, create_index,
  create_table, create_user_permission, delete, drop_index, drop_table, drop_user, grant,
  has_permission, insert, jwt_token, kerberos, ldap, new_role, password, permission_code,
  remove_permission, revoke, same_permission, select, update,
}

abbrev pub put_user : SecurityManager → String → User → SecurityManager
put_user s name u = record s { users = Names.insert name u s.users }

abbrev pub put_role : SecurityManager → String → Role → SecurityManager
put_role s name r = record s { role_map = Names.insert name r s.role_map }

-- The constructor, with `initialize_default_roles`.
abbrev pub new_manager : SecurityManager
new_manager = record {
  users = [];
  role_map =
      (
        "admin",
        record { description = "Administrator"; permissions = admin ∷ []; table_permissions = [] },
      )
      ∷ ("public", new_role "Default role")
      ∷ [];
  active_sessions = [];
  rls_policies = [];
  column_policies = [];
  config = record {
    session_timeout_minutes = 60;
    max_failed_login_attempts = 5;
    account_lockout_minutes = 30;
  };
}

module _ (secrets : Secrets) where
  -- `create_user`, with the salt that is drawn.
  unfoldable pub create_user :
      SecurityManager → String → List ℕ → AuthenticationMethod → List ℕ → SecurityManager × Bool
  create_user s name secret method salt = elim (Names.lookup name s.users) [
    | some u ↦ (s, false)
    | none ↦ (
      put_user s name (record {
        password_hash = hash_password secrets secret salt;
        salt = salt;
        auth_method = method;
        roles = [];
        is_active = true;
        failed_login_attempts = 0;
        locked_until = 0;
      }),
      true,
    )
  ]

  -- `change_user_password`, with the salt that is drawn.
  unfoldable pub change_user_password :
      SecurityManager → String → List ℕ → List ℕ → List ℕ → SecurityManager × Bool
  change_user_password s name old_secret new_secret salt = elim (Names.lookup name s.users) [
    | none ↦ (s, false)
    | some u ↦
        if verify_password secrets old_secret u.password_hash u.salt
        then (
          put_user s name
              (record u { password_hash = hash_password secrets new_secret salt; salt = salt }),
          true,
        )
        else (s, false)
  ]

-- `delete_user`.
unfoldable pub delete_user : SecurityManager → String → SecurityManager × Bool
delete_user s name = elim (Names.lookup name s.users) [
  | some u ↦ (record s { users = Names.erase name s.users }, true)
  | none ↦ (s, false)
]

-- `is_user_active`.
unfoldable pub is_user_active : SecurityManager → String → Bool
is_user_active s name = elim (Names.lookup name s.users) [ some u ↦ u.is_active | none ↦ false ]

-- `lock_user_account`.
unfoldable pub lock_user_account : SecurityManager → ℕ → String → ℕ → SecurityManager × Bool
lock_user_account s now name duration = elim (Names.lookup name s.users) [
  | some u ↦ (put_user s name (record u { locked_until = now + duration }), true)
  | none ↦ (s, false)
]

-- `create_role`.
unfoldable pub create_role : SecurityManager → String → String → SecurityManager × Bool
create_role s name description = elim (Names.lookup name s.role_map) [
  | some r ↦ (s, false)
  | none ↦ (put_role s name (new_role description), true)
]

-- `delete_role`: users keep the name of the role.
unfoldable pub delete_role : SecurityManager → String → SecurityManager × Bool
delete_role s name = elim (Names.lookup name s.role_map) [
  | some r ↦ (record s { role_map = Names.erase name s.role_map }, true)
  | none ↦ (s, false)
]

-- `grant_role_to_user`.
unfoldable pub grant_role_to_user : SecurityManager → String → String → SecurityManager × Bool
grant_role_to_user s name role = elim (Names.lookup name s.users) [
  | none ↦ (s, false)
  | some u ↦ elim (Names.lookup role s.role_map) [
    | none ↦ (s, false)
    | some r ↦ (put_user s name (record u { roles = Names.add role u.roles }), true)
  ]
]

-- `revoke_role_from_user`.
unfoldable pub revoke_role_from_user : SecurityManager → String → String → SecurityManager × Bool
revoke_role_from_user s name role = elim (Names.lookup name s.users) [
  | none ↦ (s, false)
  | some u ↦ (put_user s name (record u { roles = Names.remove role u.roles }), true)
]

-- `table_permissions[table]`, which makes an empty entry for an absent key.
abbrev pub table_set : Role → String → List PermissionType
table_set r table = elim (Names.lookup table r.table_permissions) [ some ps ↦ ps | none ↦ [] ]

-- What `grant_permission` and `revoke_permission` do to a role; the empty name is every table.
abbrev pub change_role : (List PermissionType → List PermissionType) → String → Role → Role
change_role change table r =
    if Names.same table "" then record r { permissions = change r.permissions } else record r {
      table_permissions = Names.insert table (change (table_set r table)) r.table_permissions;
    }

-- `grant_permission`.
unfoldable pub grant_permission :
    SecurityManager → String → PermissionType → String → SecurityManager × Bool
grant_permission s role p table = elim (Names.lookup role s.role_map) [
  | none ↦ (s, false)
  | some r ↦ (put_role s role (change_role (add_permission p) table r), true)
]

-- `revoke_permission`.
unfoldable pub revoke_permission :
    SecurityManager → String → PermissionType → String → SecurityManager × Bool
revoke_permission s role p table = elim (Names.lookup role s.role_map) [
  | none ↦ (s, false)
  | some r ↦ (put_role s role (change_role (remove_permission p) table r), true)
]

-- The body of the loop of `check_permission` for a role that exists.
unfoldable pub role_permits : Role → PermissionType → String → Bool
role_permits r p table =
    if has_permission p r.permissions
    then true
    else if Names.same table ""
    then false
    else elim (Names.lookup table r.table_permissions) [
      | some ps ↦ has_permission p ps
      | none ↦ false
    ]

-- Its loop.
unfoldable pub roles_permit : List (String × Role) → List String → PermissionType → String → Bool
roles_permit role_map [] p table = false
roles_permit role_map (name ∷ names) p table =
    let rest = roles_permit role_map names p table in
    elim (Names.lookup name role_map) [
      | none ↦ rest
      | some r ↦ if role_permits r p table then true else rest
    ]

-- `check_permission`.
unfoldable pub check_permission : SecurityManager → String → PermissionType → String → Bool
check_permission s name p table = elim (Names.lookup name s.users) [
  | none ↦ false
  | some u ↦ roles_permit s.role_map u.roles p table
]

-- `is_admin_user`.
unfoldable pub is_admin_user : SecurityManager → String → Bool
is_admin_user s name = check_permission s name admin ""

-- The loop of `get_user_permissions`.
unfoldable pub roles_permissions : List (String × Role) → List String → String → List PermissionType
roles_permissions role_map [] table = []
roles_permissions role_map (name ∷ names) table =
    let rest = roles_permissions role_map names table in
    elim (Names.lookup name role_map) [
      | none ↦ rest
      | some r ↦
          r.permissions
          ++ ((if Names.same table ""
                then []
                else elim (Names.lookup table r.table_permissions) [ some ps ↦ ps | none ↦ [] ])
              ++ rest)
    ]

-- `get_user_permissions`.
unfoldable pub get_user_permissions : SecurityManager → String → String → List PermissionType
get_user_permissions s name table = elim (Names.lookup name s.users) [
  | none ↦ []
  | some u ↦ roles_permissions s.role_map u.roles table
]

-- `get_user_roles`.
unfoldable pub get_user_roles : SecurityManager → String → List String
get_user_roles s name = elim (Names.lookup name s.users) [ none ↦ [] | some u ↦ u.roles ]
