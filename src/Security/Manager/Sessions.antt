-- ===== src/Security/Manager/Sessions.antt =====
-- Logging in, sessions and policies of src/security/security_manager.cpp.
use Prim.Native.String.{String}
use lattice_db_next_gen_dbms.Prelude.{
  ℕ, ◌+◌, ◌-◌, ◌%◌, ◌^◌, ◌≤◌, ◌≡◌, refl, Bool, true, false, not, Option, none, some, List, [], ◌∷◌,
  ◌++◌, ◌∙◌, arith,
}
use lattice_db_next_gen_dbms.Prelude.Tests.{ltb, if◌then◌else◌}
use lattice_db_next_gen_dbms.Prelude.Names
use lattice_db_next_gen_dbms.Security.Passwords.{Secrets, verify_password}
use lattice_db_next_gen_dbms.Security.Manager.{put_user, lock_user_account}
use lattice_db_next_gen_dbms.Security.Accounts.{
  PermissionType, User, SessionInfo, RlsPolicy, SecurityManager,
}

-- `apply_account_lockout` and `handle_failed_login`.
unfoldable pub handle_failed_login : SecurityManager → ℕ → String → SecurityManager
handle_failed_login s now name = elim (Names.lookup name s.users) [
  | none ↦ s
  | some u ↦
      let attempts = (u.failed_login_attempts + 1) % 2 ^ 32 in
      put_user s name (
        if ltb s.config.max_failed_login_attempts attempts
        then record u {
          failed_login_attempts = attempts;
          locked_until = now + s.config.account_lockout_minutes;
        }
        else record u { failed_login_attempts = attempts })
]

-- `authenticate_user`, with the token that is drawn as the session's identifier; `none` is the
-- empty string.
unfoldable pub authenticate_user :
    Secrets
    → SecurityManager
    → ℕ
    → String
    → String
    → List ℕ
    → String
    → SecurityManager × Option String
authenticate_user secrets s now sid name secret client_ip = elim (Names.lookup name s.users) [
  | none ↦ (s, none)
  | some u ↦
      let session : SessionInfo = record {
        username = name;
        client_ip = client_ip;
        last_activity = now;
        session_attributes = [];
      } in
      if verify_password secrets secret u.password_hash u.salt
      then (record s { active_sessions = Names.insert sid session s.active_sessions }, some sid)
      else (handle_failed_login s now name, none)
]

-- `is_session_expired`.
abbrev pub is_session_expired : SecurityManager → ℕ → SessionInfo → Bool
is_session_expired s now session =
    ltb s.config.session_timeout_minutes (now - session.last_activity)

-- `validate_session`.
unfoldable pub validate_session : SecurityManager → ℕ → String → Bool
validate_session s now sid = elim (Names.lookup sid s.active_sessions) [
  | none ↦ false
  | some session ↦ not (is_session_expired s now session)
]

-- `logout_user`.
unfoldable pub logout_user : SecurityManager → String → SecurityManager
logout_user s sid = record s { active_sessions = Names.erase sid s.active_sessions }

-- The loop of `cleanup_expired_sessions`.
unfoldable pub unexpired :
    SecurityManager → ℕ → List (String × SessionInfo) → List (String × SessionInfo)
unexpired s now [] = []
unexpired s now ((sid, session) ∷ rest) =
    if is_session_expired s now session
    then unexpired s now rest
    else (sid, session) ∷ unexpired s now rest

-- `cleanup_expired_sessions`.
unfoldable pub cleanup_expired_sessions : SecurityManager → ℕ → SecurityManager
cleanup_expired_sessions s now = record s { active_sessions = unexpired s now s.active_sessions }

-- `get_session_info`.
unfoldable pub get_session_info : SecurityManager → String → Option SessionInfo
get_session_info s sid = Names.lookup sid s.active_sessions

-- `change_session_attribute`.
unfoldable pub change_session_attribute :
    SecurityManager → String → String → String → SecurityManager
change_session_attribute s sid key value = elim (Names.lookup sid s.active_sessions) [
  | none ↦ s
  | some session ↦
      let changed : SessionInfo = record session {
        session_attributes = Names.insert key value session.session_attributes;
      } in
      record s { active_sessions = Names.insert sid changed s.active_sessions }
]

-- `create_rls_policy`.
unfoldable pub create_rls_policy :
    SecurityManager → String → String → PermissionType → String → SecurityManager
create_rls_policy s name table p condition =
    let policy : RlsPolicy = record {
      policy_name = name;
      table_name = table;
      permission_type = p;
      condition_expression = condition;
    } in
    record s { rls_policies = s.rls_policies ++ policy ∷ [] }

-- `remove_if` by the name of a policy.
unfoldable pub without_policy : String → List RlsPolicy → List RlsPolicy
without_policy name [] = []
without_policy name (p ∷ ps) =
    if Names.same p.policy_name name then without_policy name ps else p ∷ without_policy name ps

-- `drop_rls_policy`.
unfoldable pub drop_rls_policy : SecurityManager → String → SecurityManager
drop_rls_policy s name = record s { rls_policies = without_policy name s.rls_policies }

-- `create_column_policy`: the masking function and the key are not kept.
unfoldable pub create_column_policy : SecurityManager → String → String → SecurityManager
create_column_policy s table column = record s {
  column_policies = s.column_policies ++ (table, column) ∷ [];
}

-- The identifiers of the sessions are different, as the keys of a map are.
abbrev pub DistinctKeys : List (String × SessionInfo) → Type 0
DistinctKeys [] = Unit {0}
DistinctKeys ((sid, session) ∷ rest) = (Names.lookup sid rest ≡ none) × DistinctKeys rest

lookup-unexpired_absent :
    (s : SecurityManager) (now : ℕ) (sid : String) (entries : List (String × SessionInfo))
    → Names.lookup sid entries ≡ none
    → Names.lookup sid (unexpired s now entries) ≡ none
unfolding unexpired Names.lookup
lookup-unexpired_absent s now sid [] h = refl
lookup-unexpired_absent s now sid ((at, x) ∷ rest) h =
    ground (arith, lookup-unexpired_absent s now sid rest)

lookup-unexpired :
    (s : SecurityManager) (now : ℕ) (sid : String) (entries : List (String × SessionInfo))
    → DistinctKeys entries
    → Names.lookup sid (unexpired s now entries) ≡ elim (Names.lookup sid entries) [
      | none ↦ none
      | some x ↦ if is_session_expired s now x then none else some x
    ]
unfolding unexpired Names.lookup
lookup-unexpired s now sid [] d = refl
lookup-unexpired s now sid ((at, x) ∷ rest) d = ground (
  arith,
  lookup-unexpired s now sid rest d.1,
  lookup-unexpired_absent s now at rest d.0,
  Names.same_iff at sid,
)

-- Removing the sessions that are expired at one time changes no answer of `validate_session` at
-- that time or later.
pub validate_session-cleanup_expired_sessions :
    (s : SecurityManager) (now later : ℕ) (sid : String)
    → DistinctKeys s.active_sessions
    → now ≤ later
    → validate_session (cleanup_expired_sessions s now) later sid ≡ validate_session s later sid
unfolding validate_session cleanup_expired_sessions
validate_session-cleanup_expired_sessions s now later sid d h =
    ground (arith, lookup-unexpired s now sid s.active_sessions d)

-- An account that is locked still logs in with its password, and ends in the same sessions:
-- `locked_until` is written and nowhere read.
pub authenticate_user-lock_user_account :
    (secrets : Secrets) (s : SecurityManager) (at now duration : ℕ) (sid name client_ip : String)
    (secret : List ℕ) (u : User)
    → Names.lookup name s.users ≡ some u
    → verify_password secrets secret u.password_hash u.salt ≡ true
    → let locked = (lock_user_account s at name duration).0 in
      let (after, token) = authenticate_user secrets locked now sid name secret client_ip in
      (token ≡ some sid) × (validate_session after now sid ≡ true)
unfolding validate_session
authenticate_user-lock_user_account secrets s at now duration sid name client_ip secret u known
      right =
    let locked_user : User = record u { locked_until = at + duration } in
    let locked : (lock_user_account s at name duration).0 ≡ put_user s name locked_user =
      unfold lock_user_account in rw (lock_user_account, known) refl in
    let found : Names.lookup name (Names.insert name locked_user s.users) ≡ some locked_user =
      Names.lookup-insert name name locked_user s.users ∙ rw (Names.same_refl name) refl in
    let session : SessionInfo = record {
      username = name;
      client_ip = client_ip;
      last_activity = now;
      session_attributes = [];
    } in
    let there : Names.lookup sid (Names.insert sid session s.active_sessions) ≡ some session =
      Names.lookup-insert sid sid session s.active_sessions ∙ rw (Names.same_refl sid) refl in
    rw locked (
      unfold authenticate_user in
      rw (authenticate_user, found, right) (refl, rw (validate_session, there) (ground arith)))
