-- ===== src/Api/Tokens.antt =====
-- The tokens and their status in src/temis_sso/api/auth.py: `issue_bundle`, `/auth/status`,
-- `/auth/refresh` and `/auth/logout`.
pub mod Issue
pub mod Revoked
use Prim.Native.String.{◌++◌ as append_text}
use temis_sso_lab.Base.{
  ℕ, String, Bool, false, Option, none, some, List, [], ◌∷◌, map, ◌&&◌, ◌==◌, any, select_where,
  nat_eq, if◌then◌else◌, Result, ok, err, http_exception, ◌>>=◌, pure, lift,
}
use temis_sso_lab.Persistence.{User, UserRole, Db, Session, session_scope, get_user}
use temis_sso_lab.Jose.{Jose}
use temis_sso_lab.KeyRing.{Ring}
use temis_sso_lab.Tokens.Access.{default_client, issue_access}
use temis_sso_lab.Tokens.Refresh.{issue_refresh, rotate_refresh, revoke_refresh}

pub record TokenBundle (T : Type 0) : Type 0 where
  pub user_id : String
  pub access_token : T
  pub refresh_token : String
  pub token_type : String

pub record StatusResult : Type 0 where
  pub active : Bool
  pub authz_version : Option ℕ

-- `select(UserRole.role).where(UserRole.user_id == user_id)`
abbrev pub roles_of : String → Db → List String
roles_of user_id db =
    map (λ (r : UserRole). r.role) (select_where (λ r. r.user_id == user_id) db.roles)

abbrev pub scopes_of : List String → List String
scopes_of roles =
    if any (λ r. r == "admin") roles
    then "profile:read" ∷ "reports:read" ∷ "admin:write" ∷ []
    else "profile:read" ∷ "reports:read" ∷ []

abbrev pub role_name : String → String
role_name role = append_text "temis:" role

abbrev pub bundle : {T : Type 0} → String → T → String → TokenBundle T
bundle user_id access refresh = record {
  user_id = user_id;
  access_token = access;
  refresh_token = refresh;
  token_type = "bearer";
}

abbrev pub active_user : String → Db → Option User → Result User
active_user user_id db none = err (http_exception 401 "active user required")
active_user user_id db (some u) =
    if u.status == "active" then ok u else err (http_exception 401 "active user required")

-- `/auth/status`
abbrev pub status_of : ℕ → Option User → StatusResult
status_of version none = record { active = false; authz_version = none }
status_of version (some u) = record {
  active = u.status == "active" && nat_eq u.authz_version version;
  authz_version = some u.authz_version;
}

abbrev is_key : String → Option String → Bool
is_key expected none = false
is_key expected (some key) = key == expected

unfoldable pub authorization_status : String → Option String → String → ℕ → Session StatusResult
authorization_status expected service_key user_id version db =
    if is_key expected service_key
    then (ok (status_of version (get_user user_id db)), db)
    else (err (http_exception 401 "service authentication required"), db)

module _ (sha256_hex : String → String) (jose : Jose) where
  open jose use {Token}

  -- `refresh_token or await issue_refresh(...)`: an empty text counts as none.
  abbrev pub refresh_or_issue : Option String → String → String → String → ℕ → Session String
  refresh_or_issue none raw user_id audience now = issue_refresh sha256_hex raw user_id audience now
  refresh_or_issue (some token) raw user_id audience now =
      if token == "" then issue_refresh sha256_hex raw user_id audience now else pure token

  -- `raw` is the token that `issue_refresh` would draw; the clock is read for its grant, and then
  -- for the access token.
  unfoldable pub issue_bundle :
      Ring jose → String → String → Option String → String → ℕ → ℕ → Session (TokenBundle Token)
  issue_bundle ring user_id audience refresh_token raw granted now = session_scope (λ db.
      (do
        user ← lift (active_user user_id db (get_user user_id db))
        let roles = roles_of user_id db
        refresh ← refresh_or_issue refresh_token raw user_id audience granted
        access ← lift (
            issue_access jose ring user_id (map role_name roles) audience default_client
              (scopes_of roles) user.authz_version now)
        pure (bundle user_id access refresh))
        db)

  abbrev pub refreshed :
      Ring jose → String → ℕ → ℕ → Option (String × String × String) → Session (TokenBundle Token)
  refreshed ring raw granted now none db = (err (http_exception 401 "invalid refresh token"), db)
  refreshed ring raw granted now (some (user_id, audience, new_refresh)) db =
      issue_bundle ring user_id audience (some new_refresh) raw granted now db

  -- `/auth/refresh`: the rotation is committed before the bundle is made. `raw` is not drawn unless
  -- the rotated token is empty.
  unfoldable pub refresh :
      Ring jose → String → String → String → ℕ → ℕ → ℕ → ℕ → ℕ → Session (TokenBundle Token)
  unfolding issue_bundle
  refresh ring token new_raw raw checked stamp issued granted now = do
    rotated ← session_scope (rotate_refresh sha256_hex token new_raw checked stamp issued)
    refreshed ring raw granted now rotated

  -- `/auth/logout`
  unfoldable pub logout : String → ℕ → Session (Unit {0})
  logout token now = do found ← session_scope (revoke_refresh sha256_hex token now); pure tt
