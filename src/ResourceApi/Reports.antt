-- ===== src/ResourceApi/Reports.antt =====
-- `/api/reports` of src/resource_api/app.py.
pub mod Granted
use temis_sso_lab.Base.{
  ℕ, String, Bool, not, ◌||◌, ◌==◌, Option, none, some, any, if◌then◌else◌, Action, Result, ok, err,
  Exception, http_exception, token_rejected, dependency_unavailable, scope_denied, ◌>>=◌, ◌>>◌,
  pure, raise, raise_if, lift, rethrow,
}
use temis_sso_lab.Base.Text.{starts_with, remove_prefix}
use temis_sso_lab.Jose.{Jose}
use temis_sso_lab.ResourceApi.Verifier.{Settings, Principal, Cache, Services}
use temis_sso_lab.ResourceApi.Verifier.Authenticate.{authenticate, require_scope}

-- The three `except` clauses.
abbrev pub as_status : Exception → Exception
as_status (dependency_unavailable reason) = http_exception 503 reason
as_status (token_rejected reason) = http_exception 401 reason
as_status (scope_denied reason) = http_exception 403 reason
as_status e = e

abbrev pub has_role : Principal → String → Bool
has_role p role = any (λ r. r == role) p.roles

abbrev pub is_allowed : Principal → Bool
is_allowed p = has_role p "temis:user" || has_role p "temis:admin"

-- What is asked of a principal.
abbrev pub permit : Principal → Result String
permit p = elim (require_scope p "reports:read") [
  | err e ↦ err e
  | ok done ↦ if is_allowed p then ok p.subject else err (scope_denied "TEMIS role required")
]

module _ (jose : Jose) (settings : Settings) (services : Services jose) where
  open jose use {read}

  unfoldable pub reports : Option String → ℕ → Action (Cache jose) String
  reports none wall c = (err (http_exception 401 "bearer token required"), c)
  reports (some authorization) wall c =
      if starts_with authorization "Bearer "
      then rethrow as_status (
          (do
            principal ←
                authenticate jose settings services (read (remove_prefix authorization "Bearer "))
                  wall
            lift (permit principal))
            c)
      else (err (http_exception 401 "bearer token required"), c)
