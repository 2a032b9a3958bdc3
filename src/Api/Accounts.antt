-- ===== src/Api/Accounts.antt =====
-- The handlers for accounts in src/temis_sso/api/auth.py: registration, verification, reset and
-- login. A body that pydantic refuses is a 422.
pub mod Answers
use temis_sso_lab.Base.{
  ℕ, String, Bool, not, ◌&&◌, Option, none, some, leb, if◌then◌else◌, Action, Result, ok, err,
  Exception, http_exception, duplicate_email, invalid_credentials, verification_required,
  invalid_one_time_token, ◌>>=◌, ◌>>◌, pure, raise_if, rethrow,
}
use temis_sso_lab.Base.Text.{has_text, length}
use temis_sso_lab.Persistence.{Session}
use temis_sso_lab.Jose.{Jose}
use temis_sso_lab.KeyRing.{Ring}
use temis_sso_lab.Application.Auth.{
  Hasher, State, AuthenticatedUser, register, verify_email, request_password_reset, reset_password,
  authenticate,
}
use temis_sso_lab.Api.Tokens.{TokenBundle, issue_bundle}

-- `validate_email`
abbrev pub is_email : String → Bool
unfolding has_text length
is_email value = has_text value "@" && leb (length value) 320

-- `Field(min_length=12, max_length=128)`
abbrev pub is_password : String → Bool
unfolding length
is_password value = leb 12 (length value) && leb (length value) 128

abbrev pub unprocessable : Exception
unprocessable = http_exception 422 "unprocessable entity"

-- The body `Credentials`.
abbrev pub check_credentials : {S : Type 0} → String → String → Action S (Unit {0})
check_credentials email password =
    raise_if (not (is_email email && is_password password)) unprocessable

abbrev pub conflict : Exception → Exception
conflict duplicate_email = http_exception 409 "email already registered"
conflict e = e

abbrev pub bad_token : Exception → Exception
bad_token invalid_one_time_token = http_exception 400 "invalid or expired token"
bad_token e = e

abbrev pub refused_login : Exception → Exception
refused_login verification_required = http_exception 403 "email verification required"
refused_login invalid_credentials = http_exception 401 "invalid credentials"
refused_login e = e

module _ (sha256_hex : String → String) where
  -- `/auth/verify`
  unfoldable pub confirm_email : String → ℕ → ℕ → Session (Unit {0})
  confirm_email token now stamp db = rethrow bad_token (verify_email sha256_hex token now stamp db)

  -- `/auth/password-reset/request`: the answer is always that it was accepted.
  unfoldable pub reset_request : String → String → ℕ → Action State String
  reset_request email raw now = do
    asked ← request_password_reset sha256_hex email raw now
    pure "accepted"

  module _ (hasher : Hasher) where
    -- `/auth/register`
    unfoldable pub register_user :
        String → String → String → String → String → ℕ → Action State AuthenticatedUser
    register_user email password user_id salt raw now = do
      check_credentials email password
      (λ s. rethrow conflict (register sha256_hex hasher email password user_id salt raw now s))

    -- `/auth/password-reset/confirm`
    unfoldable pub reset_confirm : String → String → String → ℕ → ℕ → Session (Unit {0})
    reset_confirm token password salt now stamp = do
      raise_if (not (is_password password)) unprocessable
      (λ db. rethrow bad_token (reset_password sha256_hex hasher token password salt now stamp db))

    module _ (jose : Jose) where
      open jose use {Token}

      -- `/auth/login`
      unfoldable pub login :
          Ring jose → String → String → String → ℕ → ℕ → ℕ → Session (TokenBundle Token)
      login ring email password raw checked granted now = do
        check_credentials email password
        (λ db. rethrow refused_login (
            (do
              who ← authenticate hasher email password checked
              issue_bundle sha256_hex jose ring who.user_id "temis-lab" none raw granted now)
              db))
