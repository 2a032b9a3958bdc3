-- ===== src/Application/Admin.antt =====
-- src/temis_sso/application/admin.py. The clock is read once for the grants that are consumed and
-- once for the audit row.
pub mod Calls
pub mod Guards
pub mod Outcome
pub mod Revocation
pub mod Sessions
pub mod Keeps
pub mod Audit
use temis_sso_lab.Base.{
  ℕ, suc, ◌+◌, String, Bool, true, false, Option, none, some, List, [], ◌∷◌, ◌&&◌, ◌||◌, ◌==◌, not,
  if◌then◌else◌, any, update_where, Action, ok, err, admin_required, user_not_found, self_action,
  runtime_error, ◌>>=◌, ◌>>◌, pure, raise, raise_if, gets, modify, or_raise,
}
use temis_sso_lab.Base.Json.{Value, str}
use temis_sso_lab.Base.Text.{lower, has_any}
use temis_sso_lab.Persistence.{
  User, RefreshGrant, Db, Session, session_scope, get_user, modify_user, has_role, merge_role,
  delete_role, add_audit,
}
use temis_sso_lab.Tokens.Refresh.{is_null, consume}

abbrev pub Details : Type 0
Details = List (String × Value)

abbrev pub hidden : List String
hidden = "password" ∷ "token" ∷ "secret" ∷ "authorization" ∷ []

abbrev pub markers : List String
markers = "bearer " ∷ "token=" ∷ "password=" ∷ []

-- `isinstance(value, str) and any(marker in value.lower() for marker in ...)`
abbrev pub is_sensitive : Value → Bool
is_sensitive (str s) = has_any markers (lower s)
is_sensitive _ = false

abbrev pub redact_entry : String → Value → Value
redact_entry key value =
    if has_any hidden (lower key) || is_sensitive value then str "[REDACTED]" else value

unfoldable pub redact : Details → Details
redact [] = []
redact ((key, value) ∷ rest) = (key, redact_entry key value) ∷ redact rest

-- The test of `_assert_admin`.
abbrev pub is_active : Option User → Bool
is_active none = false
is_active (some u) = u.status == "active"

abbrev pub is_admin : String → Db → Bool
is_admin actor_id db = is_active (get_user actor_id db) && has_role actor_id "admin" db

-- `_assert_admin`; no caller uses the user that it returns.
abbrev pub assert_admin : String → Session (Unit {0})
assert_admin actor_id db = (if is_admin actor_id db then ok tt else err admin_required, db)

-- `_audit`
unfoldable pub audit : String → String → String → Details → ℕ → Session (Unit {0})
audit actor_id target_id action details now =
    modify (add_audit actor_id target_id action (redact details) now)

abbrev pub bump : User → User
bump u = record u { authz_version = u.authz_version + 1 }

abbrev pub belongs : String → RefreshGrant → Bool
belongs user_id g = g.user_id == user_id && is_null g.consumed_at

-- `_invalidate_authorization`: a new version, and every grant of the user is consumed.
unfoldable pub invalidate_authorization : String → ℕ → Db → Db
invalidate_authorization user_id now db =
    let db' = modify_user user_id bump db in
    record db' { grants = update_where (belongs user_id) (consume now) db'.grants }

abbrev pub set_status : String → User → User
set_status status u = record u { status = status }

-- The target, or `UserNotFoundError`.
abbrev pub require_user : String → Session User
require_user user_id db = or_raise (get_user user_id db) user_not_found db

unfoldable pub bootstrap_admin : String → ℕ → Session (Unit {0})
unfolding invalidate_authorization
bootstrap_admin user_id now = session_scope (do
  user ← require_user user_id
  modify (modify_user user_id (set_status "active"))
  modify (merge_role user_id "admin")
  modify (invalidate_authorization user_id now))

-- The result is the target as it was changed.
unfoldable pub approve_user : String → String → Bool → ℕ → ℕ → Session User
unfolding invalidate_authorization audit
approve_user actor_id target_id fail_for_test now audited = session_scope (do
  assert_admin actor_id
  target ← require_user target_id
  modify (modify_user target_id (set_status "active"))
  modify (delete_role target_id "pending")
  modify (merge_role target_id "user")
  modify (invalidate_authorization target_id now)
  audit actor_id target_id "user.approved" [] audited
  raise_if fail_for_test (runtime_error "simulated audit boundary failure")
  pure (bump (set_status "active" target)))

-- `suspend_user` behind its first test.
suspend_other : String → String → String → ℕ → ℕ → Session User
unfolding invalidate_authorization audit
suspend_other actor_id target_id reason now audited = session_scope (do
  assert_admin actor_id
  target ← require_user target_id
  modify (modify_user target_id (set_status "suspended"))
  modify (invalidate_authorization target_id now)
  audit actor_id target_id "user.suspended" (("reason", str reason) ∷ []) audited
  pure (bump (set_status "suspended" target)))

unfoldable pub suspend_user : String → String → String → ℕ → ℕ → Session User
unfolding suspend_other
suspend_user actor_id target_id reason now audited =
    if actor_id == target_id
    then raise self_action
    else suspend_other actor_id target_id reason now audited

abbrev pub role_change : Bool → String → String → Db → Db
role_change true target_id role = merge_role target_id role
role_change false target_id role = delete_role target_id role

abbrev pub role_action : Bool → String
role_action true = "role.granted"
role_action false = "role.revoked"

unfoldable pub change_role : String → String → String → Bool → ℕ → ℕ → Session (Unit {0})
unfolding invalidate_authorization audit
change_role actor_id target_id role grant now audited =
    if actor_id == target_id && role == "admin" && not grant
    then raise self_action
    else session_scope (do
      assert_admin actor_id
      target ← require_user target_id
      modify (role_change grant target_id role)
      modify (invalidate_authorization target_id now)
      audit actor_id target_id (role_action grant) (("role", str role) ∷ []) audited)

unfoldable pub revoke_sessions : String → String → ℕ → ℕ → Session (Unit {0})
unfolding invalidate_authorization audit
revoke_sessions actor_id target_id now audited =
    if actor_id == target_id
    then raise self_action
    else session_scope (do
      assert_admin actor_id
      target ← require_user target_id
      modify (invalidate_authorization target_id now)
      audit actor_id target_id "sessions.revoked" [] audited)

unfoldable pub require_current_admin : String → Session (Unit {0})
require_current_admin user_id = session_scope (assert_admin user_id)
