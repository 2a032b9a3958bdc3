-- ===== src/Persistence/Laws.antt =====
-- What the statements of src/temis_sso/persistence.py leave as it was, and what they find after.
use mathlib.Core.Option
use mathlib.Core.Logic.{◌≢◌, ◌⊎◌}
use temis_sso_lab.Base.{
  any-delete_where, ◌≡◌, ap, ◌∙◌, String, true, false, some, ◌==◌, eq_iff, eq_refl, arith, any,
  find-update_where, find-satisfies, any-append, any-delete_where_self, Bool-cases, Option-cases,
  inl, inr, if◌then◌else◌,
}
use temis_sso_lab.Persistence.{
  User, Db, get_user, by_email, modify_user, is_user, has_email, normal_email, has_role, is_role,
  merge_role, delete_role,
}

module _ (user_id : String) (f : User → User) (db : Db) where
  -- Loading a user after a change to one.
  pub get_user-modify_user :
      (j : String)
      → ((u : User) → (f u).id ≡ u.id)
      → get_user j (modify_user user_id f db)
        ≡ Option.map (λ (u : User). if u.id == user_id then f u else u) (get_user j db)
  get_user-modify_user j keeps =
      find-update_where (is_user user_id) (is_user j) f db.users
        (λ u. ap (λ (s : String). s == j) (keeps u))
      ∙ ground arith

  pub get_user-modify_user_self :
      {u : User}
      → ((u : User) → (f u).id ≡ u.id)
      → get_user user_id db ≡ some u
      → get_user user_id (modify_user user_id f db) ≡ some (f u)
  get_user-modify_user_self {u} keeps h =
      rw (get_user-modify_user user_id keeps, h, find-satisfies (is_user user_id) db.users h)

  pub get_user-modify_user_ne :
      (j : String)
      → j ≢ user_id
      → ((u : User) → (f u).id ≡ u.id)
      → get_user j (modify_user user_id f db) ≡ get_user j db
  get_user-modify_user_ne j ne keeps =
      rw (get_user-modify_user j keeps) (elim (Option-cases (get_user j db)) [
        | inl e ↦ rw e
        | inr (u, e) ↦ rw e (
            ground (
              arith,
              ne,
              eq_iff u.id user_id,
              eq_iff u.id j,
              find-satisfies (is_user j) db.users e,
            ))
      ])

  pub by_email-modify_user :
      (email : String)
      → ((u : User) → (f u).email ≡ u.email)
      → by_email email (modify_user user_id f db)
        ≡ Option.map (λ (u : User). if u.id == user_id then f u else u) (by_email email db)
  by_email-modify_user email keeps =
      find-update_where (is_user user_id) (has_email (normal_email email)) f db.users
        (λ u. ap (λ (s : String). s == normal_email email) (keeps u))
      ∙ ground arith

pub get_user-id :
    (user_id : String) (db : Db) {u : User} → get_user user_id db ≡ some u → u.id ≡ user_id
get_user-id user_id db {u} h = (eq_iff u.id user_id).0 (find-satisfies (is_user user_id) db.users h)

pub by_email-email :
    (email : String) (db : Db) {u : User}
    → by_email email db ≡ some u
    → u.email ≡ normal_email email
by_email-email email db {u} h =
    (eq_iff u.email (normal_email email)).0
      (find-satisfies (has_email (normal_email email)) db.users h)

module _ (user_id role : String) (db : Db) where
  pub has_role-merge_role : has_role user_id role (merge_role user_id role db) ≡ true
  unfolding merge_role any
  has_role-merge_role = elim (Bool-cases (has_role user_id role db)) [
    | inl e ↦ rw e e
    | inr e ↦ rw e (any-append (is_role user_id role) db.roles _ ∙ simp (e, eq_refl))
  ]

  pub has_role-delete_role : has_role user_id role (delete_role user_id role db) ≡ false
  unfolding delete_role
  has_role-delete_role = any-delete_where_self (is_role user_id role) db.roles

-- A role of another user, or another role, stays.
pub has_role-delete_role_ne :
    (user_id role j other : String) (db : Db)
    → (j ≢ user_id) ⊎ (other ≢ role)
    → has_role j other (delete_role user_id role db) ≡ has_role j other db
unfolding delete_role
has_role-delete_role_ne user_id role j other db ne =
    any-delete_where (is_role user_id role) (is_role j other) db.roles (λ r h. ground (
      arith,
      ne,
      h,
      eq_iff r.user_id user_id,
      eq_iff r.user_id j,
      eq_iff r.role role,
      eq_iff r.role other,
    ))

-- Merging a role takes none away.
pub has_role-merge_role_keeps :
    (user_id role j other : String) (db : Db)
    → has_role j other db ≡ true
    → has_role j other (merge_role user_id role db) ≡ true
unfolding merge_role
has_role-merge_role_keeps user_id role j other db h = elim (Bool-cases (has_role user_id role db)) [
  | inl e ↦ rw e h
  | inr e ↦ rw e (any-append (is_role j other) db.roles _ ∙ rw h)
]
