-- ===== src/ExternalIdp/Links.antt =====
-- The links of external identities to accounts (src/temis_sso/external_idp/external_accounts.py).
use temis_sso_lab.Base.{
  ℕ, String, Bool, true, ◌==◌, none, some, ok, ◌≡◌, ◌≢◌, refl, ap, arith, Bool-cases, inl, inr,
  find, any, find-any-false, find-append_none, eq_refl, ne_of_eq-false, ◌++◌, [], ◌∷◌,
}
use temis_sso_lab.Persistence.{ExternalIdentityLink, Db, add_link, is_link, is_user}
use temis_sso_lab.ExternalIdp.Stores.{owner_of, resolve_link, link_account}

-- What a link that was made rests on.
pub record Linked (user_id provider subject : String) (confirmed : Bool) (db db' : Db)
    : Type 0 where
  pub authenticated : user_id ≢ ""
  pub agreed : confirmed ≡ true
  pub free : resolve_link provider subject db ≡ none
  pub resolved : resolve_link provider subject db' ≡ some user_id
  pub users : db'.users ≡ db.users

abbrev link_row : String → String → String → ℕ → ExternalIdentityLink
link_row user_id provider subject now = record {
  provider = provider;
  subject = subject;
  user_id = user_id;
  created_at = now;
}

-- An identity is linked only with the user's confirmation and to no second account: it was linked to
-- none before, from now on it resolves to this user, and no account is changed.
pub link_account-Linked :
    (user_id provider subject : String) (confirmed : Bool) (now : ℕ) (db db' : Db)
    → link_account user_id provider subject confirmed now db ≡ (ok tt, db')
    → Linked user_id provider subject confirmed db db'
unfolding link_account add_link resolve_link find
link_account-Linked user_id provider subject confirmed now db db' h =
    elim (Bool-cases (user_id == "")) [
      | inl e ↦ absurd (ground (arith, e, h))
      | inr e ↦ elim (Bool-cases confirmed) [
        | inr c ↦ absurd (ground (arith, e, c, h))
        | inl c ↦ elim (Bool-cases (any (is_link provider subject) db.links)) [
          | inl taken ↦ absurd (ground (arith, e, c, taken, h))
          | inr free ↦ elim (Bool-cases (any (is_user user_id) db.users)) [
            | inr nobody ↦ absurd (ground (arith, e, c, free, nobody, h))
            | inl somebody ↦
                let row = link_row user_id provider subject now in
                let missing = find-any-false (is_link provider subject) db.links free in
                let after : db'.links ≡ db.links ++ row ∷ [] =
                  ground (arith, e, c, free, somebody, h) in
                record {
                  authenticated = ne_of_eq-false user_id "" e;
                  agreed = c;
                  free = ap owner_of missing;
                  resolved =
                      rw
                        (
                          after,
                          find-append_none (is_link provider subject) db.links (row ∷ []) missing,
                        )
                        (rw (find, eq_refl provider, eq_refl subject) refl);
                  users = ground (arith, e, c, free, somebody, h);
                }
          ]
        ]
      ]
    ]
