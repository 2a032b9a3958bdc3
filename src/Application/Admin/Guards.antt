-- ===== src/Application/Admin/Guards.antt =====
-- Who may perform an operation of src/temis_sso/application/admin.py, and what a refusal leaves.
use temis_sso_lab.Base.{
  ℕ, String, false, err, ◌&&◌, ◌==◌, arith, ◌≡◌, Exception, admin_required, self_action, inl, inr,
  ◌⊎◌, Bool-cases, eq_iff,
}
use temis_sso_lab.Persistence.{Db}
use temis_sso_lab.Application.Admin.{
  approve_user, suspend_user, change_role, revoke_sessions, is_admin,
}
use temis_sso_lab.Application.Admin.Calls.{
  Operation, approve, suspend, grant, revoke, end_sessions, perform,
}

-- An operation that raises, whatever the reason, leaves the database as it was.
pub perform_atomic :
    (op : Operation) (actor_id target_id : String) (now audited : ℕ) (db db' : Db) (e : Exception)
    → perform op actor_id target_id now audited db ≡ (err e, db')
    → db' ≡ db
unfolding perform approve_user suspend_user change_role revoke_sessions
perform_atomic (approve fail) actor_id target_id now audited db db' e h = ground arith
perform_atomic (suspend reason) actor_id target_id now audited db db' e h = ground arith
perform_atomic (grant role) actor_id target_id now audited db db' e h = ground arith
perform_atomic (revoke role) actor_id target_id now audited db db' e h = ground arith
perform_atomic end_sessions actor_id target_id now audited db db' e h = ground arith

-- Without an active account and the admin role nothing is changed, and the refusal says so or
-- that the operation is not for oneself.
pub perform_denied :
    (op : Operation) (actor_id target_id : String) (now audited : ℕ) (db : Db)
    → is_admin actor_id db ≡ false
    → (perform op actor_id target_id now audited db ≡ (err admin_required, db))
      ⊎ ((actor_id ≡ target_id)
          × (perform op actor_id target_id now audited db ≡ (err self_action, db)))
unfolding perform approve_user suspend_user change_role revoke_sessions
perform_denied (approve fail) actor_id target_id now audited db h = inl (ground arith)
perform_denied (suspend reason) actor_id target_id now audited db h =
    elim (Bool-cases (actor_id == target_id)) [
      | inl e ↦ inr ((eq_iff actor_id target_id).0 e, ground arith)
      | inr e ↦ inl (ground arith)
    ]
perform_denied (grant role) actor_id target_id now audited db h = inl (ground arith)
perform_denied (revoke role) actor_id target_id now audited db h =
    elim (Bool-cases (actor_id == target_id && role == "admin")) [
      | inl e ↦ inr ((eq_iff actor_id target_id).0 (ground arith), ground arith)
      | inr e ↦ inl (ground arith)
    ]
perform_denied end_sessions actor_id target_id now audited db h =
    elim (Bool-cases (actor_id == target_id)) [
      | inl e ↦ inr ((eq_iff actor_id target_id).0 e, ground arith)
      | inr e ↦ inl (ground arith)
    ]
