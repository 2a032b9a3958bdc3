-- ===== src/Api/Admin/Answers.antt =====
-- What the routes of src/temis_sso/api/admin.py answer.
use temis_sso_lab.Base.{
  ℕ, String, true, false, Option, ok, err, ◌≡◌, ◌≢◌, http_exception, arith, eq-false,
}
use temis_sso_lab.Persistence.{Db}
use temis_sso_lab.Jose.{Jose}
use temis_sso_lab.KeyRing.{Ring}
use temis_sso_lab.Application.Admin.{
  is_admin, approve_user, suspend_user, change_role, revoke_sessions,
}
use temis_sso_lab.Api.Users.{current_subject}
use temis_sso_lab.Api.Admin.{is_reason, approve, suspend, grant_role, remove_role, revoke}

module _ (jose : Jose) (ring : Ring jose) where
  -- The five routes answer a bearer who is no active administrator, and not the target, with a 403
  -- that changes nothing.
  pub routes_denied :
      (actor_id target_id reason role : String) (authorization : Option String)
      (checked now audited : ℕ) (db : Db)
      → current_subject jose ring authorization checked ≡ ok actor_id
      → is_reason reason ≡ true
      → is_admin actor_id db ≡ false
      → actor_id ≢ target_id
      → let denied = http_exception 403 "current admin role required" in
        (approve jose ring target_id authorization checked now audited db ≡ (err denied, db))
        × (suspend jose ring target_id reason authorization checked now audited db
            ≡ (err denied, db))
        × (grant_role jose ring target_id role authorization checked now audited db
            ≡ (err denied, db))
        × (remove_role jose ring target_id role authorization checked now audited db
            ≡ (err denied, db))
        × (revoke jose ring target_id authorization checked now audited db ≡ (err denied, db))
  unfolding approve suspend grant_role remove_role revoke approve_user suspend_user change_role
      revoke_sessions
  routes_denied actor_id target_id reason role authorization checked now audited db who reasoned
        denied other =
      let other' = eq-false actor_id target_id other in
      (
        ground (arith, who, denied),
        ground (arith, who, reasoned, other', denied),
        ground (arith, who, denied),
        ground (arith, who, other', denied),
        ground (arith, who, other', denied),
      )
