-- ===== src/Security/Manager/Tests.antt =====
-- Users, roles and sessions at small inputs.
use lattice_db_next_gen_dbms.Prelude.{◌≡◌, refl, true, ◌&&◌, ◌||◌, some, [], ◌∷◌, arith}
use lattice_db_next_gen_dbms.Prelude.Names
use lattice_db_next_gen_dbms.Security.Passwords.{
  Secrets, has_uppercase, has_lowercase, has_digit, has_special_chars, is_password_strong,
}
use lattice_db_next_gen_dbms.Security.Manager.{
  new_manager, put_user, put_role, check_permission, get_user_permissions, get_user_roles,
  grant_permission, lock_user_account,
}
use lattice_db_next_gen_dbms.Security.Accounts.{
  select, User, Role, password, new_role, SessionInfo, SecurityManager, has_permission,
}
use lattice_db_next_gen_dbms.Security.Manager.Permissions.{
  covers, check_permission-get_user_permissions, check_permission-grant_permission,
}
use lattice_db_next_gen_dbms.Security.Manager.Sessions.{
  authenticate_user, validate_session, cleanup_expired_sessions,
  validate_session-cleanup_expired_sessions, authenticate_user-lock_user_account,
}

abbrev ann : User
ann = record {
  password_hash = "k";
  salt = [];
  auth_method = password;
  roles = "clerk" ∷ [];
  is_active = true;
  failed_login_attempts = 6;
  locked_until = 0;
}

abbrev clerk : Role
clerk = new_role "reads"

abbrev office : SecurityManager
office = put_role (put_user new_manager "ann" ann) "clerk" clerk

abbrev one_hash : Secrets
one_hash = record { hash_text = λ bytes. "k" }

check_permission-get_user_permissions_example :
    check_permission office "ann" select "books"
    ≡ has_permission select (get_user_permissions office "ann" "books")
check_permission-get_user_permissions_example =
    check_permission-get_user_permissions office "ann" select "books"

check_permission-grant_permission_example :
    check_permission (grant_permission office "clerk" select "books").0 "ann" select "books" ≡ (
      check_permission office "ann" select "books"
      || (covers select "books" select "books"
          && Names.holds "clerk" (get_user_roles office "ann")))
check_permission-grant_permission_example =
    check_permission-grant_permission office "clerk" clerk select "books" "ann" select "books"
      (unfold Names.lookup in unfold Names.insert in unfold Names.same in refl)

abbrev open_session : SessionInfo
open_session = record {
  username = "ann";
  client_ip = "::1";
  last_activity = 100;
  session_attributes = [];
}

abbrev old_session : SessionInfo
old_session = record open_session { last_activity = 10 }

abbrev busy : SecurityManager
busy = record office { active_sessions = ("new", open_session) ∷ ("old", old_session) ∷ [] }

cleanup_test :
    validate_session (cleanup_expired_sessions busy 120) 130 "new" ≡ validate_session busy 130 "new"
cleanup_test =
    validate_session-cleanup_expired_sessions busy 120 130 "new"
      (unfold Names.lookup in unfold Names.same in (refl, (refl, tt))) (omega arith)

locked_login_test :
    let locked = (lock_user_account office 50 "ann" 600).0 in
    let (after, token) = authenticate_user one_hash locked 60 "sid" "ann" (b'x' ∷ []) "::1" in
    (token ≡ some "sid") × (validate_session after 60 "sid" ≡ true)
locked_login_test =
    authenticate_user-lock_user_account one_hash office 50 60 600 "sid" "ann" "::1" (b'x' ∷ []) ann
      (unfold Names.lookup in unfold Names.insert in unfold Names.same in refl)
      (unfold Names.same in refl)

-- Eight characters of all four kinds are strong.
strong_test : is_password_strong (b'a' ∷ b'B' ∷ b'3' ∷ b'!' ∷ b'e' ∷ b'f' ∷ b'g' ∷ b'h' ∷ []) ≡ true
unfolding is_password_strong has_uppercase has_lowercase has_digit has_special_chars
strong_test = refl
