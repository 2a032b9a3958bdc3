-- ===== src/Api/Admin.antt =====
-- src/temis_sso/api/admin.py: the routes of the administrators. The bearer is the actor, and the
-- errors of the application become statuses.
pub mod Answers
use temis_sso_lab.Base.{
  ℕ, String, Bool, true, false, not, ◌&&◌, Option, leb, Action, Exception, http_exception,
  admin_required, self_action, user_not_found, ◌>>=◌, ◌>>◌, pure, lift, raise_if, rethrow,
}
use temis_sso_lab.Base.Text.{length}
use temis_sso_lab.Persistence.{User, Session}
use temis_sso_lab.Jose.{Jose}
use temis_sso_lab.KeyRing.{Ring}
use temis_sso_lab.Application.Admin.{approve_user, suspend_user, change_role, revoke_sessions}
use temis_sso_lab.Api.Users.{current_subject}
use temis_sso_lab.Api.Accounts.{unprocessable}

pub record UserResult : Type 0 where
  pub user_id : String
  pub status : String

-- `translate`, for the three errors that the handlers catch.
abbrev pub translate : Exception → Exception
translate admin_required = http_exception 403 "current admin role required"
translate self_action = http_exception 409 "self action is not allowed"
translate user_not_found = http_exception 404 "user not found"
translate e = e

abbrev pub result_of : User → UserResult
result_of u = record { user_id = u.id; status = u.status }

-- `SuspensionInput`
abbrev pub is_reason : String → Bool
unfolding length
is_reason reason = leb 3 (length reason) && leb (length reason) 200

module _ (jose : Jose) (ring : Ring jose) where
  -- `checked` is the reading of the clock for the bearer's token.
  unfoldable pub approve : String → Option String → ℕ → ℕ → ℕ → Session UserResult
  approve target_id authorization checked now audited = do
    actor_id ← lift (current_subject jose ring authorization checked)
    user ← (λ db. rethrow translate (approve_user actor_id target_id false now audited db))
    pure (result_of user)

  unfoldable pub suspend : String → String → Option String → ℕ → ℕ → ℕ → Session UserResult
  suspend target_id reason authorization checked now audited = do
    actor_id ← lift (current_subject jose ring authorization checked)
    raise_if (not (is_reason reason)) unprocessable
    user ← (λ db. rethrow translate (suspend_user actor_id target_id reason now audited db))
    pure (result_of user)

  unfoldable pub grant_role : String → String → Option String → ℕ → ℕ → ℕ → Session (Unit {0})
  grant_role target_id role authorization checked now audited = do
    actor_id ← lift (current_subject jose ring authorization checked)
    (λ db. rethrow translate (change_role actor_id target_id role true now audited db))

  unfoldable pub remove_role : String → String → Option String → ℕ → ℕ → ℕ → Session (Unit {0})
  remove_role target_id role authorization checked now audited = do
    actor_id ← lift (current_subject jose ring authorization checked)
    (λ db. rethrow translate (change_role actor_id target_id role false now audited db))

  unfoldable pub revoke : String → Option String → ℕ → ℕ → ℕ → Session (Unit {0})
  revoke target_id authorization checked now audited = do
    actor_id ← lift (current_subject jose ring authorization checked)
    (λ db. rethrow translate (revoke_sessions actor_id target_id now audited db))
