-- ===== src/Security/Manager/Permissions.antt =====
-- Who may do what, by the permissions of src/security/security_manager.cpp.
use Prim.Native.String.{String}
use lattice_db_next_gen_dbms.Prelude.{
  ◌≡◌, refl, Bool, true, ◌&&◌, ◌||◌, none, some, List, [], ◌∷◌, ◌++◌, arith, inl, inr,
}
use lattice_db_next_gen_dbms.Prelude.Tests.{if◌then◌else◌, Bool-cases, Option-cases}
use lattice_db_next_gen_dbms.Prelude.Names
use lattice_db_next_gen_dbms.Security.Manager.{
  change_role, table_set, put_role, grant_permission, role_permits, roles_permit, check_permission,
  roles_permissions, get_user_permissions, get_user_roles,
}
use lattice_db_next_gen_dbms.Security.Accounts.{
  PermissionType, same_permission, Role, SecurityManager, has_permission, add_permission,
}

has_permission-append :
    (p : PermissionType) (ps qs : List PermissionType)
    → has_permission p (ps ++ qs) ≡ (has_permission p ps || has_permission p qs)
unfolding has_permission
has_permission-append p [] qs = refl
has_permission-append p (x ∷ ps) qs = ground (arith, has_permission-append p ps qs)

has_permission-same :
    (p q : PermissionType) (ps : List PermissionType)
    → has_permission p ps ≡ true
    → same_permission p q ≡ true
    → has_permission q ps ≡ true
unfolding has_permission
has_permission-same p q [] h e = cc
has_permission-same p q (x ∷ ps) h e = ground (arith, has_permission-same p q ps)

has_permission-add_permission :
    (p q : PermissionType) (ps : List PermissionType)
    → has_permission q (add_permission p ps) ≡ (has_permission q ps || same_permission p q)
unfolding add_permission has_permission
has_permission-add_permission p q ps = ground (arith, has_permission-same p q ps)

-- The permissions that one role gives on a table.
abbrev role_permissions : Role → String → List PermissionType
role_permissions r table =
    if Names.same table ""
    then []
    else elim (Names.lookup table r.table_permissions) [ some ps ↦ ps | none ↦ [] ]

role_permits_lem :
    (r : Role) (p : PermissionType) (table : String)
    → role_permits r p table
      ≡ (has_permission p r.permissions || has_permission p (role_permissions r table))
unfolding role_permits has_permission
role_permits_lem r p table = ground arith

roles_permit-roles_permissions :
    (role_map : List (String × Role)) (names : List String) (p : PermissionType) (table : String)
    → roles_permit role_map names p table
      ≡ has_permission p (roles_permissions role_map names table)
unfolding roles_permit roles_permissions
roles_permit-roles_permissions role_map [] p table = unfold has_permission in refl
roles_permit-roles_permissions role_map (name ∷ names) p table =
    elim (Option-cases (Names.lookup name role_map)) [
      | inl absent ↦
          rw (absent, roles_permit, roles_permissions)
            (roles_permit-roles_permissions role_map names p table)
      | inr (r, present) ↦
          let mine = role_permissions r table in
          let rest = roles_permissions role_map names table in
          rw
            (
              present,
              roles_permit,
              roles_permissions,
              has_permission-append p r.permissions (mine ++ rest),
              has_permission-append p mine rest,
              role_permits_lem r p table,
              roles_permit-roles_permissions role_map names p table,
            )
            (ground arith)
    ]

-- For every state, user, permission and table (or the empty name): `check_permission` answers yes
-- exactly when the permission is in the list of `get_user_permissions`.
pub check_permission-get_user_permissions :
    (s : SecurityManager) (name : String) (p : PermissionType) (table : String)
    → check_permission s name p table ≡ has_permission p (get_user_permissions s name table)
unfolding check_permission get_user_permissions
check_permission-get_user_permissions s name p table =
    elim (Option-cases (Names.lookup name s.users)) [
      | inl absent ↦
          rw (absent, check_permission, get_user_permissions) (unfold has_permission in refl)
      | inr (u, present) ↦
          rw (present, check_permission, get_user_permissions)
            (roles_permit-roles_permissions s.role_map u.roles p table)
    ]

-- What a permission for `table` adds to a request for `asked`; the empty name is every table.
abbrev pub covers : PermissionType → String → PermissionType → String → Bool
covers p table q asked = same_permission p q && (Names.same table "" || Names.same table asked)

role_permits-change_role :
    (r : Role) (p q : PermissionType) (table asked : String)
    → role_permits (change_role (add_permission p) table r) q asked
      ≡ (role_permits r q asked || covers p table q asked)
unfolding role_permits has_permission
role_permits-change_role r p q table asked = elim (Bool-cases (Names.same table "")) [
  | inl every ↦ rw (every, has_permission-add_permission p q r.permissions) (ground arith)
  | inr one ↦ rw one (
      ground (
        arith,
        Names.lookup-insert table asked (add_permission p (table_set r table)) r.table_permissions,
        has_permission-add_permission p q (table_set r table),
        Names.same_iff table asked,
        Names.same_iff asked "",
        Names.same_iff table "",
      ))
]

-- One role in the place of another in the map of roles.
roles_permit-insert :
    (role_map : List (String × Role)) (role : String) (r x : Role) (names : List String)
    (q : PermissionType) (asked : String) (gain : Bool)
    → Names.lookup role role_map ≡ some r
    → role_permits x q asked ≡ (role_permits r q asked || gain)
    → roles_permit (Names.insert role x role_map) names q asked
      ≡ (roles_permit role_map names q asked || (gain && Names.holds role names))
unfolding roles_permit Names.holds
roles_permit-insert role_map role r x [] q asked gain present more = ground arith
roles_permit-insert role_map role r x (name ∷ names) q asked gain present more = ground (
  arith,
  Names.lookup-insert role name x role_map,
  roles_permit-insert role_map role r x names q asked gain present more,
  Names.same_iff role name,
  Names.same_iff name role,
)

-- Granting a permission on a table to a role that exists (the empty name stands for every table)
-- gives that permission, on that table, to exactly the users who have the role; every other
-- answer of `check_permission`, for any user, permission and table, stays.
pub check_permission-grant_permission :
    (s : SecurityManager) (role : String) (r : Role) (p : PermissionType) (table : String)
    (name : String) (q : PermissionType) (asked : String)
    → Names.lookup role s.role_map ≡ some r
    → check_permission (grant_permission s role p table).0 name q asked ≡ (
        check_permission s name q asked
        || (covers p table q asked && Names.holds role (get_user_roles s name)))
unfolding check_permission get_user_roles
check_permission-grant_permission s role r p table name q asked present =
    let x = change_role (add_permission p) table r in
    let granted : (grant_permission s role p table).0 ≡ put_role s role x =
      unfold grant_permission in rw (grant_permission, present) refl in
    rw granted (elim (Option-cases (Names.lookup name s.users)) [
      | inl absent ↦
          rw (check_permission, get_user_roles, absent) (unfold Names.holds in ground arith)
      | inr (u, known) ↦
          rw (check_permission, get_user_roles, known)
            (roles_permit-insert s.role_map role r x u.roles q asked (covers p table q asked)
              present (role_permits-change_role r p q table asked))
    ])
