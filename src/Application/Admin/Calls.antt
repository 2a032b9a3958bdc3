-- ===== src/Application/Admin/Calls.antt =====
-- The administrative operations of src/temis_sso/application/admin.py as calls by an actor on a
-- target, so that what holds of each is stated once.
use temis_sso_lab.Base.{ℕ, String, Bool, true, false, ◌>>◌, pure}
use temis_sso_lab.Persistence.{Session}
use temis_sso_lab.Application.Admin.{approve_user, suspend_user, change_role, revoke_sessions}

pub data Operation : Type 0 where
  approve : Bool → Operation
  suspend : String → Operation
  grant revoke : String → Operation
  end_sessions : Operation

unfoldable pub perform : Operation → String → String → ℕ → ℕ → Session (Unit {0})
perform (approve fail) actor_id target_id now audited =
    approve_user actor_id target_id fail now audited >> pure tt
perform (suspend reason) actor_id target_id now audited =
    suspend_user actor_id target_id reason now audited >> pure tt
perform (grant role) actor_id target_id now audited =
    change_role actor_id target_id role true now audited
perform (revoke role) actor_id target_id now audited =
    change_role actor_id target_id role false now audited
perform end_sessions actor_id target_id now audited = revoke_sessions actor_id target_id now audited
