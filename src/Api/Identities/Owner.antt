-- ===== src/Api/Identities/Owner.antt =====
-- The account of an external identity (`_naver_oauth_user`, `_kakao_oauth_user`): whose it is.
use temis_sso_lab.Base.{
  refl, eq_iff, find-append_other, find-none, eq_refl, find-append_none, ap, ◌∙◌, find-any-false,
  ◌∷◌, [], ◌++◌, update_where, ◌++◌, update_where, ℕ, String, false, some, none, ok, ◌≡◌, ◌≢◌, ◌⊎◌,
  arith, Bool-cases, Option-cases, inl, inr, find, any, ◌==◌,
}
use temis_sso_lab.Persistence.Laws.{get_user-modify_user_ne}
use temis_sso_lab.Persistence.{
  conflicts, new_user, is_link, is_user, append_role, has_role, is_user, new_user, conflicts, Db,
  get_user, create, add_role, add_link,
}
use temis_sso_lab.ExternalIdp.Models.{ExternalIdentity}
use temis_sso_lab.ExternalIdp.Stores.{owner_of, owner_of, resolve_link}
use temis_sso_lab.Api.Oauth.{set_active}
use temis_sso_lab.Api.Identities.{
  free_email, link_of, set_active, is_link, free_email, account_user, new_account,
}

-- A sign-in to an account that was linked before, or to a new one of its own.
pub record Owned (identity : ExternalIdentity) (new_id user_id : String) (db db' : Db)
    : Type 0 where
  pub resolved : resolve_link identity.provider identity.subject db' ≡ some user_id
  pub source :
      ((resolve_link identity.provider identity.subject db ≡ some user_id) × (db' ≡ db))
      ⊎ ((resolve_link identity.provider identity.subject db ≡ none)
          × (user_id ≡ new_id)
          × (get_user new_id db ≡ none))
  pub others : (j : String) → j ≢ new_id → get_user j db' ≡ get_user j db

-- What a new account's rows are.
pub record Made (domain : String) (identity : ExternalIdentity) (new_id : String) (now : ℕ)
    (db : Db) (user_id : String) (db' : Db) : Type 0 where
  pub owner : user_id ≡ new_id
  pub fresh :
      any (conflicts (new_user new_id (free_email domain identity db) none)) db.users ≡ false
  pub unlinked : any (is_link identity.provider identity.subject) db.links ≡ false
  pub users :
      db'.users
      ≡ update_where
          (is_user new_id)
          set_active
          (db.users ++ new_user new_id (free_email domain identity db) none ∷ [])
  pub links : db'.links ≡ db.links ++ link_of identity new_id now ∷ []

pub new_account-Made :
    (domain : String) (identity : ExternalIdentity) (new_id : String) (now : ℕ) (db : Db)
    {user_id : String} {db' : Db}
    → new_account domain identity new_id now db ≡ (ok user_id, db')
    → Made domain identity new_id now db user_id db'
unfolding new_account create add_role add_link
new_account-Made domain identity new_id now db {user_id} {db'} h =
    let user = new_user new_id (free_email domain identity db) none in
    let made = record db {
      users = update_where (is_user new_id) set_active (db.users ++ user ∷ []);
    } in
    let given = append_role new_id "user" made in
    elim (Bool-cases (any (conflicts user) db.users)) [
      | inl e ↦ absurd (ground (arith, e, h))
      | inr e ↦ elim (Bool-cases (has_role new_id "user" db)) [
        | inl r ↦ absurd (ground (arith, e, r, h))
        | inr r ↦ elim (Bool-cases (any (is_link identity.provider identity.subject) db.links)) [
          | inl l ↦ absurd (ground (arith, e, r, l, h))
          | inr l ↦ elim (Bool-cases (any (is_user new_id) given.users)) [
            | inr n ↦ absurd (ground (arith, e, r, l, n, h))
            | inl n ↦ record {
              owner = ground (arith, e, r, l, n, h);
              fresh = e;
              unlinked = l;
              users = ground (arith, e, r, l, n, h);
              links = ground (arith, e, r, l, n, h);
            }
          ]
        ]
      ]
    ]

Made-unlinked :
    (domain : String) (identity : ExternalIdentity) (new_id : String) (now : ℕ) (db : Db)
    {user_id : String} {db' : Db}
    → Made domain identity new_id now db user_id db'
    → resolve_link identity.provider identity.subject db ≡ none
unfolding resolve_link
Made-unlinked domain identity new_id now db m =
    ap owner_of (find-any-false (is_link identity.provider identity.subject) db.links m.unlinked)

Made-Owned :
    (domain : String) (identity : ExternalIdentity) (new_id : String) (now : ℕ) (db : Db)
    {user_id : String} {db' : Db}
    → Made domain identity new_id now db user_id db'
    → Owned identity new_id user_id db db'
unfolding resolve_link find
Made-Owned domain identity new_id now db {user_id} {db'} m =
    let row = link_of identity new_id now in
    let user = new_user new_id (free_email domain identity db) none in
    let before = record db { users = db.users ++ user ∷ [] } in
    let here = is_link identity.provider identity.subject in
    let missing = find-any-false here db.links m.unlinked in
    let there = find-append_none here db.links (row ∷ []) missing in
    record {
      resolved =
          rw (m.links, there)
            (rw (find, eq_refl identity.provider, eq_refl identity.subject, m.owner) refl);
      source = inr (
        Made-unlinked domain identity new_id now db m,
        m.owner,
        find-none (is_user new_id) (conflicts user) db.users (λ u same. ground (arith, same))
            m.fresh,
      );
      others = λ j ne.
          ap (find (is_user j)) m.users
          ∙ get_user-modify_user_ne new_id set_active before j ne (λ u. refl)
          ∙ find-append_other (is_user j) db.users (user ∷ [])
              (ground (arith, ne, eq_iff new_id j));
    }

-- A sign-in takes over no account by its email: it returns the account that the identity was linked
-- to, and changes nothing, or, where there was none, a new account; the identity then resolves to
-- it, and no other account is changed.
pub account_user-Owned :
    (domain : String) (identity : ExternalIdentity) (new_id : String) (now : ℕ) (db : Db)
    (user_id : String) (db' : Db)
    → account_user domain identity new_id now db ≡ (ok user_id, db')
    → Owned identity new_id user_id db db'
unfolding account_user
account_user-Owned domain identity new_id now db user_id db' h =
    elim (Option-cases (resolve_link identity.provider identity.subject db)) [
      | inl e ↦
          Made-Owned domain identity new_id now db
            (new_account-Made domain identity new_id now db (rw e at h))
      | inr (known, e) ↦ elim (Bool-cases (known == "")) [
        | inl blank ↦ absurd (
            ground (
              arith,
              e,
              Made-unlinked domain identity new_id now db
                  (new_account-Made domain identity new_id now db (rw (e, blank) at h)),
            ))
        | inr named ↦
            let same : known ≡ user_id = ground (arith, e, named, h) in
            let kept : db' ≡ db = ground (arith, e, named, h) in
            let now_linked : resolve_link identity.provider identity.subject db ≡ some user_id =
              e ∙ ap some same in
            record {
              resolved = ap (resolve_link identity.provider identity.subject) kept ∙ now_linked;
              source = inl (now_linked, kept);
              others = λ j ne. ap (get_user j) kept;
            }
      ]
    ]
