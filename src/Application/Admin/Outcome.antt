-- ===== src/Application/Admin/Outcome.antt =====
-- What an operation of src/temis_sso/application/admin.py that succeeds has done: the change of
-- its own, then the invalidation of the target's authorization, then the audit row.
use temis_sso_lab.Base.{
  inr, inl, Option-cases, ℕ, String, true, false, none, some, ok, arith, ◌≡◌, [], ◌∷◌,
}
use temis_sso_lab.Base.Json.{str}
use temis_sso_lab.Persistence.{User, Db, get_user, modify_user, merge_role, delete_role, add_audit}
use temis_sso_lab.Application.Admin.{
  Details, redact, set_status, invalidate_authorization, approve_user, suspend_user, change_role,
  revoke_sessions, is_admin,
}
use temis_sso_lab.Application.Admin.Calls.{
  Operation, approve, suspend, grant, revoke, end_sessions, perform,
}

abbrev pub effect : Operation → String → Db → Db
effect (approve _) target_id db =
    merge_role target_id "user"
      (delete_role target_id "pending" (modify_user target_id (set_status "active") db))
effect (suspend _) target_id db = modify_user target_id (set_status "suspended") db
effect (grant role) target_id db = merge_role target_id role db
effect (revoke role) target_id db = delete_role target_id role db
effect end_sessions target_id db = db

abbrev pub action : Operation → String
action (approve _) = "user.approved"
action (suspend _) = "user.suspended"
action (grant _) = "role.granted"
action (revoke _) = "role.revoked"
action end_sessions = "sessions.revoked"

abbrev pub details : Operation → Details
details (suspend reason) = ("reason", str reason) ∷ []
details (grant role) = ("role", str role) ∷ []
details (revoke role) = ("role", str role) ∷ []
details _ = []

abbrev pub outcome : Operation → String → String → ℕ → ℕ → Db → Db
outcome op actor_id target_id now audited db =
    add_audit actor_id target_id (action op) (redact (details op)) audited
      (invalidate_authorization target_id now (effect op target_id db))

pub record Performed (op : Operation) (actor_id target_id : String) (now audited : ℕ) (db db' : Db)
    : Type 0 where
  pub target : User
  pub found : get_user target_id db ≡ some target
  pub authorized : is_admin actor_id db ≡ true
  pub after : db' ≡ outcome op actor_id target_id now audited db

refused :
    (op : Operation) (actor_id target_id : String) (now audited : ℕ) (db db' : Db)
    → get_user target_id db ≡ none
    → perform op actor_id target_id now audited db ≡ (ok tt, db')
    → ⊥
unfolding perform approve_user suspend_user change_role revoke_sessions
refused (approve false) actor_id target_id now audited db db' missing h = ground arith
refused (approve true) actor_id target_id now audited db db' missing h = ground arith
refused (suspend reason) actor_id target_id now audited db db' missing h = ground arith
refused (grant role) actor_id target_id now audited db db' missing h = ground arith
refused (revoke role) actor_id target_id now audited db db' missing h = ground arith
refused end_sessions actor_id target_id now audited db db' missing h = ground arith

authorized :
    (op : Operation) (actor_id target_id : String) (now audited : ℕ) (db db' : Db)
    → perform op actor_id target_id now audited db ≡ (ok tt, db')
    → is_admin actor_id db ≡ true
unfolding perform approve_user suspend_user change_role revoke_sessions
authorized (approve false) actor_id target_id now audited db db' h = ground arith
authorized (approve true) actor_id target_id now audited db db' h = ground arith
authorized (suspend reason) actor_id target_id now audited db db' h = ground arith
authorized (grant role) actor_id target_id now audited db db' h = ground arith
authorized (revoke role) actor_id target_id now audited db db' h = ground arith
authorized end_sessions actor_id target_id now audited db db' h = ground arith

changed :
    (op : Operation) (actor_id target_id : String) (now audited : ℕ) (db db' : Db) (u : User)
    → get_user target_id db ≡ some u
    → perform op actor_id target_id now audited db ≡ (ok tt, db')
    → db' ≡ outcome op actor_id target_id now audited db
unfolding perform approve_user suspend_user change_role revoke_sessions
changed (approve false) actor_id target_id now audited db db' u e h = ground arith
changed (approve true) actor_id target_id now audited db db' u e h = ground arith
changed (suspend reason) actor_id target_id now audited db db' u e h = ground arith
changed (grant role) actor_id target_id now audited db db' u e h = ground arith
changed (revoke role) actor_id target_id now audited db db' u e h = ground arith
changed end_sessions actor_id target_id now audited db db' u e h = ground arith

pub perform-ok :
    (op : Operation) (actor_id target_id : String) (now audited : ℕ) (db db' : Db)
    → perform op actor_id target_id now audited db ≡ (ok tt, db')
    → Performed op actor_id target_id now audited db db'
perform-ok op actor_id target_id now audited db db' h =
    elim (Option-cases (get_user target_id db)) [
      | inl missing ↦ absurd (refused op actor_id target_id now audited db db' missing h)
      | inr (u, e) ↦ record {
        target = u;
        found = e;
        authorized = authorized op actor_id target_id now audited db db' h;
        after = changed op actor_id target_id now audited db db' u e h;
      }
    ]
