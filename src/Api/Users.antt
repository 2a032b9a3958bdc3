-- ===== src/Api/Users.antt =====
-- src/temis_sso/api/users.py: the bearer of a request, and `/users/me`.
pub mod Bearer
use temis_sso_lab.Base.{
  ℕ, String, Bool, not, Option, none, some, ◌==◌, if◌then◌else◌, Result, ok, err, Exception,
  http_exception, invalid_token, ◌>>=◌, pure, lift,
}
use temis_sso_lab.Base.Json.{Value, Fields, get, as_str}
use temis_sso_lab.Base.Text.{starts_with, remove_prefix}
use temis_sso_lab.Persistence.{User, Session, session_scope, get_user}
use temis_sso_lab.Jose.{Jose}
use temis_sso_lab.KeyRing.{Ring}
use temis_sso_lab.Tokens.Access.{default_audience, verify_access}

-- `except jwt.PyJWTError`
abbrev pub refused_token : Exception → Exception
refused_token (invalid_token _) = http_exception 401 "invalid access token"
refused_token e = e

-- `str(claims["sub"])`: the verification lets only a text pass.
abbrev pub subject_of : Result Fields → Result String
subject_of (err e) = err (refused_token e)
subject_of (ok claims) = elim (as_str (get claims "sub")) [
  | none ↦ err (http_exception 401 "invalid access token")
  | some subject ↦ ok subject
]

module _ (jose : Jose) where
  open jose use {read}

  unfoldable pub current_subject : Ring jose → Option String → ℕ → Result String
  current_subject ring none now = err (http_exception 401 "bearer token required")
  current_subject ring (some authorization) now =
      if starts_with authorization "Bearer "
      then subject_of (
          verify_access jose ring (read (remove_prefix authorization "Bearer ")) default_audience
            now)
      else err (http_exception 401 "bearer token required")

  abbrev pub active_subject : String → Option User → Result String
  active_subject user_id none = err (http_exception 404 "user not found")
  active_subject user_id (some user) =
      if not (user.status == "active")
      then err (http_exception 403 "user is not active")
      else ok user_id

  -- `/users/me`
  unfoldable pub me : Ring jose → Option String → ℕ → Session String
  me ring authorization now = do
    user_id ← lift (current_subject ring authorization now)
    (λ db. (active_subject user_id (get_user user_id db), db))
