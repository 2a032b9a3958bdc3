-- ===== src/Persistence/Rows.antt =====
-- The tables' rows of src/temis_sso/persistence.py and of external_idp/external_accounts.py. A
-- time is a number of microseconds. The lengths of the string columns are not modelled.
use temis_sso_lab.Base.{ℕ, String, Option, List}
use temis_sso_lab.Base.Json.{Value}

pub record User : Type 0 where
  pub id : String
  pub email : String
  pub password_hash : Option String
  pub status : String
  pub authz_version : ℕ
  pub failed_logins : ℕ
  pub locked_until : Option ℕ

pub record UserRole : Type 0 where
  pub user_id : String
  pub role : String

pub record RefreshGrant : Type 0 where
  pub digest : String
  pub user_id : String
  pub audience : String
  pub expires_at : ℕ
  pub consumed_at : Option ℕ

pub record OneTimeToken : Type 0 where
  pub digest : String
  pub user_id : String
  pub purpose : String
  pub expires_at : ℕ
  pub consumed_at : Option ℕ

pub record AuditLog : Type 0 where
  pub id : ℕ
  pub actor_id : String
  pub target_id : String
  pub action : String
  pub details : List (String × Value)
  pub created_at : ℕ

pub record ExternalIdentityLink : Type 0 where
  pub provider : String
  pub subject : String
  pub user_id : String
  pub created_at : ℕ
