-- ===== src/Application/Admin/Revocation.antt =====
-- Every operation of src/temis_sso/application/admin.py that succeeds ends the authorization that
-- the target had: a new version, and no refresh grant left open.
use temis_sso_lab.Persistence.Laws.{get_user-modify_user_self, get_user-modify_user_ne}
use temis_sso_lab.Base.{
  ◌∙◌, Bool, not, ◌==◌, eq_refl, Bool-cases, inl, inr, select_where, select_where-update_where,
  select_where-delete_where, select_where-append_other, any-update_where_self, sym, subst, find,
  update_where-id, ℕ, ◌+◌, String, false, some, ok, arith, ◌≡◌, ◌≢◌, refl, ap,
}
use temis_sso_lab.Persistence.{
  is_user, is_role, has_role, RefreshGrant, UserRole, User, Db, get_user, modify_user, merge_role,
  delete_role, add_audit,
}
use temis_sso_lab.Application.Admin.{
  consume, any, set_status, bump, belongs, invalidate_authorization,
}
use temis_sso_lab.Application.Admin.Calls.{
  Operation, approve, suspend, grant, revoke, end_sessions, perform,
}
use temis_sso_lab.Application.Admin.Outcome.{effect, outcome, perform-ok}

-- The rows of everybody but the target.
abbrev pub is_other_grant : String → RefreshGrant → Bool
is_other_grant target_id g = not (g.user_id == target_id)

abbrev pub is_other_role : String → UserRole → Bool
is_other_role target_id r = not (r.user_id == target_id)

-- The authorization that a user had in `db` is over in `db'`, and nobody else's rows are touched.
pub record Invalidated (target_id : String) (db db' : Db) : Type 0 where
  pub before : User
  pub after : User
  pub found : get_user target_id db ≡ some before
  pub found_after : get_user target_id db' ≡ some after
  pub raised : after.authz_version ≡ before.authz_version + 1
  pub closed : any (belongs target_id) db'.grants ≡ false
  pub others : (j : String) → j ≢ target_id → get_user j db' ≡ get_user j db
  pub other_grants :
      select_where (is_other_grant target_id) db'.grants
      ≡ select_where (is_other_grant target_id) db.grants
  pub other_roles :
      select_where (is_other_role target_id) db'.roles
      ≡ select_where (is_other_role target_id) db.roles
  pub one_time_tokens : db'.one_time_tokens ≡ db.one_time_tokens
  pub links : db'.links ≡ db.links

users-merge_role : (user_id role : String) (db : Db) → (merge_role user_id role db).users ≡ db.users
unfolding merge_role
users-merge_role user_id role db = ground arith

-- The part that an operation has of its own.
abbrev pub own_status : Operation → User → User
own_status (approve _) u = set_status "active" u
own_status (suspend _) u = set_status "suspended" u
own_status _ u = u

users-effect :
    (op : Operation) (target_id : String) (db : Db)
    → (effect op target_id db).users ≡ (modify_user target_id (own_status op) db).users
unfolding merge_role delete_role
users-effect (approve f) target_id db = ground arith
users-effect (suspend reason) target_id db = refl
users-effect (grant role) target_id db =
    ground (arith, update_where-id (is_user target_id) db.users)
users-effect (revoke role) target_id db = sym (update_where-id (is_user target_id) db.users)
users-effect end_sessions target_id db = sym (update_where-id (is_user target_id) db.users)

own_status-id : (op : Operation) (u : User) → (own_status op u).id ≡ u.id
own_status-id (approve _) u = refl
own_status-id _ u = refl

own_status-version : (op : Operation) (u : User) → (own_status op u).authz_version ≡ u.authz_version
own_status-version (approve _) u = refl
own_status-version _ u = refl

get_user-effect :
    (op : Operation) (target_id j : String) (db : Db)
    → get_user j (effect op target_id db) ≡ get_user j (modify_user target_id (own_status op) db)
get_user-effect op target_id j db = ap (find (is_user j)) (users-effect op target_id db)

pub get_user-outcome :
    (op : Operation) (actor_id target_id : String) (now audited : ℕ) (db : Db) {u : User}
    → get_user target_id db ≡ some u
    → get_user target_id (outcome op actor_id target_id now audited db)
      ≡ some (bump (own_status op u))
unfolding add_audit invalidate_authorization
get_user-outcome op actor_id target_id now audited db h =
    get_user-modify_user_self target_id bump (effect op target_id db) (λ x. refl)
      (get_user-effect op target_id target_id db
        ∙ get_user-modify_user_self target_id (own_status op) db (own_status-id op) h)

get_user-outcome_ne :
    (op : Operation) (actor_id target_id : String) (now audited : ℕ) (db : Db) (j : String)
    → j ≢ target_id
    → get_user j (outcome op actor_id target_id now audited db) ≡ get_user j db
unfolding add_audit invalidate_authorization
get_user-outcome_ne op actor_id target_id now audited db j ne =
    get_user-modify_user_ne target_id bump (effect op target_id db) j ne (λ x. refl)
    ∙ get_user-effect op target_id j db
    ∙ get_user-modify_user_ne target_id (own_status op) db j ne (own_status-id op)

closed-outcome :
    (op : Operation) (actor_id target_id : String) (now audited : ℕ) (db : Db)
    → any (belongs target_id) (outcome op actor_id target_id now audited db).grants ≡ false
unfolding add_audit invalidate_authorization
closed-outcome op actor_id target_id now audited db =
    any-update_where_self (belongs target_id) (consume now) (effect op target_id db).grants
      (λ g. ground arith)

grants-effect :
    (op : Operation) (target_id : String) (db : Db) → (effect op target_id db).grants ≡ db.grants
unfolding merge_role delete_role
grants-effect (approve f) target_id db = ground arith
grants-effect (grant role) target_id db = ground arith
grants-effect _ target_id db = refl

one_time_tokens-outcome :
    (op : Operation) (actor_id target_id : String) (now audited : ℕ) (db : Db)
    → (outcome op actor_id target_id now audited db).one_time_tokens ≡ db.one_time_tokens
unfolding add_audit invalidate_authorization merge_role delete_role
one_time_tokens-outcome (approve f) actor_id target_id now audited db = ground arith
one_time_tokens-outcome (grant role) actor_id target_id now audited db = ground arith
one_time_tokens-outcome _ actor_id target_id now audited db = refl

links-outcome :
    (op : Operation) (actor_id target_id : String) (now audited : ℕ) (db : Db)
    → (outcome op actor_id target_id now audited db).links ≡ db.links
unfolding add_audit invalidate_authorization merge_role delete_role
links-outcome (approve f) actor_id target_id now audited db = ground arith
links-outcome (grant role) actor_id target_id now audited db = ground arith
links-outcome _ actor_id target_id now audited db = refl

other_grants-outcome :
    (op : Operation) (actor_id target_id : String) (now audited : ℕ) (db : Db)
    → select_where (is_other_grant target_id) (outcome op actor_id target_id now audited db).grants
      ≡ select_where (is_other_grant target_id) db.grants
unfolding add_audit invalidate_authorization
other_grants-outcome op actor_id target_id now audited db =
    select_where-update_where (belongs target_id) (is_other_grant target_id) (consume now)
      (effect op target_id db).grants (λ g. refl) (λ g h. ground (arith, h))
    ∙ ap (select_where (is_other_grant target_id)) (grants-effect op target_id db)

other_roles-merge_role :
    (target_id role : String) (db : Db)
    → select_where (is_other_role target_id) (merge_role target_id role db).roles
      ≡ select_where (is_other_role target_id) db.roles
unfolding merge_role
other_roles-merge_role target_id role db = elim (Bool-cases (has_role target_id role db)) [
  | inl e ↦ rw e refl
  | inr e ↦ rw e (
      select_where-append_other (is_other_role target_id) db.roles
        (record { user_id = target_id; role = role }) (ground (arith, eq_refl target_id)))
]

other_roles-delete_role :
    (target_id role : String) (db : Db)
    → select_where (is_other_role target_id) (delete_role target_id role db).roles
      ≡ select_where (is_other_role target_id) db.roles
unfolding delete_role
other_roles-delete_role target_id role db =
    select_where-delete_where (is_role target_id role) (is_other_role target_id) db.roles
      (λ r h. ground (arith, h))

other_roles-effect :
    (op : Operation) (target_id : String) (db : Db)
    → select_where (is_other_role target_id) (effect op target_id db).roles
      ≡ select_where (is_other_role target_id) db.roles
other_roles-effect (approve f) target_id db =
    let activated = modify_user target_id (set_status "active") db in
    other_roles-merge_role target_id "user" (delete_role target_id "pending" activated)
    ∙ other_roles-delete_role target_id "pending" activated
other_roles-effect (suspend reason) target_id db = refl
other_roles-effect (grant role) target_id db = other_roles-merge_role target_id role db
other_roles-effect (revoke role) target_id db = other_roles-delete_role target_id role db
other_roles-effect end_sessions target_id db = refl

other_roles-outcome :
    (op : Operation) (actor_id target_id : String) (now audited : ℕ) (db : Db)
    → select_where (is_other_role target_id) (outcome op actor_id target_id now audited db).roles
      ≡ select_where (is_other_role target_id) db.roles
unfolding add_audit invalidate_authorization
other_roles-outcome op actor_id target_id now audited db = other_roles-effect op target_id db

-- Every operation that succeeds raises the target's version by one, leaves no open grant of the
-- target, and touches nobody else: no other account, no grant and no role of another user, no
-- one-time token and no link.
pub perform-Invalidated :
    (op : Operation) (actor_id target_id : String) (now audited : ℕ) (db db' : Db)
    → perform op actor_id target_id now audited db ≡ (ok tt, db')
    → Invalidated target_id db db'
perform-Invalidated op actor_id target_id now audited db db' h =
    let done = perform-ok op actor_id target_id now audited db db' h in
    subst (Invalidated target_id db) (sym done.after) (record {
      before = done.target;
      after = bump (own_status op done.target);
      found = done.found;
      found_after = get_user-outcome op actor_id target_id now audited db done.found;
      raised = ap (λ (n : ℕ). n + 1) (own_status-version op done.target);
      closed = closed-outcome op actor_id target_id now audited db;
      others = get_user-outcome_ne op actor_id target_id now audited db;
      other_grants = other_grants-outcome op actor_id target_id now audited db;
      other_roles = other_roles-outcome op actor_id target_id now audited db;
      one_time_tokens = one_time_tokens-outcome op actor_id target_id now audited db;
      links = links-outcome op actor_id target_id now audited db;
    })
