-- ===== src/Application/Admin/Keeps.antt =====
-- Administrators cannot lock themselves out (src/temis_sso/application/admin.py).
use temis_sso_lab.Base.{
  ◌==◌, ap, ◌∙◌, inl, ne_of_eq-false, text_cases, ◌⊎◌, refl, inr, ℕ, String, true, some, ok, arith,
  ◌≡◌, ◌≢◌, eq_iff,
}
use temis_sso_lab.Persistence.{User, Db, get_user, has_role, add_audit, modify_user, delete_role}
use temis_sso_lab.Persistence.Laws.{has_role-merge_role_keeps, has_role-delete_role_ne}
use temis_sso_lab.Application.Admin.{
  set_status, bump, suspend_user, change_role, is_admin, is_active, invalidate_authorization,
}
use temis_sso_lab.Application.Admin.Calls.{
  Operation, approve, suspend, grant, revoke, end_sessions, perform,
}
use temis_sso_lab.Application.Admin.Outcome.{effect, outcome, perform-ok}
use temis_sso_lab.Application.Admin.Revocation.{own_status, get_user-outcome, perform-Invalidated}

roles-outcome :
    (op : Operation) (actor_id target_id : String) (now audited : ℕ) (db : Db)
    → (outcome op actor_id target_id now audited db).roles ≡ (effect op target_id db).roles
unfolding add_audit invalidate_authorization
roles-outcome op actor_id target_id now audited db = refl

suspend_not_self :
    (reason actor_id target_id : String) (now audited : ℕ) (db db' : Db)
    → perform (suspend reason) actor_id target_id now audited db ≡ (ok tt, db')
    → actor_id ≢ target_id
unfolding perform suspend_user
suspend_not_self reason actor_id target_id now audited db db' h =
    ground (arith, eq_iff actor_id target_id)

revoke_not_self :
    (role actor_id target_id : String) (now audited : ℕ) (db db' : Db)
    → perform (revoke role) actor_id target_id now audited db ≡ (ok tt, db')
    → (actor_id ≢ target_id) ⊎ ("admin" ≢ role)
unfolding perform change_role
revoke_not_self role actor_id target_id now audited db db' h =
    elim (text_cases actor_id target_id) [
      | inr e ↦ inl (ne_of_eq-false actor_id target_id e)
      | inl e ↦
          inr (λ same. ground (arith, eq_iff actor_id target_id, eq_iff role "admin", e, same))
    ]

role_kept :
    (op : Operation) (actor_id target_id : String) (now audited : ℕ) (db db' : Db)
    → perform op actor_id target_id now audited db ≡ (ok tt, db')
    → has_role actor_id "admin" db ≡ true
    → has_role actor_id "admin" (effect op target_id db) ≡ true
role_kept (approve fail) actor_id target_id now audited db db' h r =
    let active = modify_user target_id (set_status "active") db in
    has_role-merge_role_keeps target_id "user" actor_id "admin"
      (delete_role target_id "pending" active)
      (has_role-delete_role_ne target_id "pending" actor_id "admin" active
          (inr (ground (arith, eq_iff "admin" "pending")))
        ∙ r)
role_kept (suspend reason) actor_id target_id now audited db db' h r = r
role_kept (grant role) actor_id target_id now audited db db' h r =
    has_role-merge_role_keeps target_id role actor_id "admin" db r
role_kept (revoke role) actor_id target_id now audited db db' h r =
    has_role-delete_role_ne target_id role actor_id "admin" db
      (revoke_not_self role actor_id target_id now audited db db' h)
    ∙ r
role_kept end_sessions actor_id target_id now audited db db' h r = r

status_kept :
    (op : Operation) (actor_id target_id : String) (now audited : ℕ) (db db' : Db) (u : User)
    → perform op actor_id target_id now audited db ≡ (ok tt, db')
    → actor_id ≡ target_id
    → (u.status == "active") ≡ true
    → ((bump (own_status op u)).status == "active") ≡ true
status_kept (approve fail) actor_id target_id now audited db db' u h same a = refl
status_kept (suspend reason) actor_id target_id now audited db db' u h same a =
    absurd (suspend_not_self reason actor_id target_id now audited db db' h same)
status_kept (grant role) actor_id target_id now audited db db' u h same a = a
status_kept (revoke role) actor_id target_id now audited db db' u h same a = a
status_kept end_sessions actor_id target_id now audited db db' u h same a = a

active_kept :
    (op : Operation) (actor_id target_id : String) (now audited : ℕ) (db db' : Db)
    → perform op actor_id target_id now audited db ≡ (ok tt, db')
    → is_active (get_user actor_id db) ≡ true
    → is_active (get_user actor_id db') ≡ true
active_kept op actor_id target_id now audited db db' h a = elim (text_cases actor_id target_id) [
  | inr e ↦
      rw
        ((perform-Invalidated op actor_id target_id now audited db db' h).others actor_id
          (ne_of_eq-false actor_id target_id e))
        a
  | inl same ↦
      let done = perform-ok op actor_id target_id now audited db db' h in
      let target_active : is_active (some done.target) ≡ true = rw done.found at (rw same at a) in
      let at_target =
        ap (get_user target_id) done.after
        ∙ get_user-outcome op actor_id target_id now audited db done.found in
      rw (same, at_target)
        (status_kept op actor_id target_id now audited db db' done.target h same target_active)
]

-- Whoever performs an operation with success is an active administrator before it and after it.
pub perform-is_admin :
    (op : Operation) (actor_id target_id : String) (now audited : ℕ) (db db' : Db)
    → perform op actor_id target_id now audited db ≡ (ok tt, db')
    → (is_admin actor_id db ≡ true) × (is_admin actor_id db' ≡ true)
perform-is_admin op actor_id target_id now audited db db' h =
    let done = perform-ok op actor_id target_id now audited db db' h in
    let active : is_active (get_user actor_id db) ≡ true = ground (arith, done.authorized) in
    let role : has_role actor_id "admin" db ≡ true = ground (arith, done.authorized) in
    let roles : has_role actor_id "admin" db' ≡ true =
      rw (done.after, roles-outcome op actor_id target_id now audited db)
        (role_kept op actor_id target_id now audited db db' h role) in
    (done.authorized, rw (active_kept op actor_id target_id now audited db db' h active) roles)
