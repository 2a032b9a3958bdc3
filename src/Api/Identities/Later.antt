-- ===== src/Api/Identities/Later.antt =====
-- The account of an external identity at a later sign-in, and after its withdrawal.
use temis_sso_lab.Base.{
  ℕ, String, Bool, Result, false, some, none, ok, ◌≡◌, ◌≢◌, refl, arith, inl, inr, ◌==◌, ap, ◌∙◌,
  sym, subst, Action, find,
}
use temis_sso_lab.Persistence.{Db, get_user, User, ExternalIdentityLink, is_user}
use temis_sso_lab.ExternalIdp.Models.{ExternalIdentity}
use temis_sso_lab.ExternalIdp.Stores.{resolve_link}
use temis_sso_lab.Api.Identities.{State, account_user, unlink_account, is_link_of}
use temis_sso_lab.Api.Identities.Owner.{account_user-Owned}
use temis_sso_lab.Api.Identities.Unlink.{Withdrawn, Closed, unlink_account-Closed}

-- A sign-in of an identity that is linked.
pub account_user_linked :
    (domain : String) (identity : ExternalIdentity) (new_id : String) (now : ℕ) (db : Db)
    (user_id : String)
    → resolve_link identity.provider identity.subject db ≡ some user_id
    → (user_id == "") ≡ false
    → account_user domain identity new_id now db ≡ (ok user_id, db)
unfolding account_user
account_user_linked domain identity new_id now db user_id linked named = rw (linked, named) refl

-- An identity that signed in is signed in to the same account from then on, and nothing is changed
-- by it, whatever email it shows then, as long as its link stands.
pub account_user_again :
    (domain domain' : String) (identity identity' : ExternalIdentity) (new_id new_id' : String)
    (now now' : ℕ) (db db' : Db) (user_id : String)
    → account_user domain identity new_id now db ≡ (ok user_id, db')
    → identity'.provider ≡ identity.provider
    → identity'.subject ≡ identity.subject
    → (user_id == "") ≡ false
    → account_user domain' identity' new_id' now' db' ≡ (ok user_id, db')
account_user_again domain domain' identity identity' new_id new_id' now now' db db' user_id h
      provider subject named =
    let owned = account_user-Owned domain identity new_id now db user_id db' h in
    account_user_linked domain' identity' new_id' now' db' user_id
      (rw (provider, subject) owned.resolved) named

module _ (provider user_id : String) (call : Action ℕ Bool) (s : State) where
  pub unlink_account-Withdrawn :
      (missing refused : String) {s' : State}
      → unlink_account provider user_id missing refused call s ≡ (ok tt, s')
      → Withdrawn provider user_id call s s'
  unlink_account-Withdrawn missing refused {s'} h =
      subst (λ (r : Result (Unit {0}) × State). Closed provider user_id call s r.0 r.1) h
        (unlink_account-Closed provider user_id call s missing refused)

  -- An identity whose link was withdrawn signs in to its account no more: a sign-in that succeeds
  -- opens an account that was none before, and the account that withdrew is left as it was.
  pub account_user-unlink_account :
      (missing refused : String) (s' : State) (link : ExternalIdentityLink) (user : User)
      (domain : String) (identity : ExternalIdentity) (new_id : String) (now : ℕ)
      (user_id' : String) (db' : Db)
      → unlink_account provider user_id missing refused call s ≡ (ok tt, s')
      → find (is_link_of provider user_id) s.db.links ≡ some link
      → identity.provider ≡ link.provider
      → identity.subject ≡ link.subject
      → get_user user_id s.db ≡ some user
      → account_user domain identity new_id now s'.db ≡ (ok user_id', db')
      → (user_id' ≢ user_id) × (get_user user_id' s.db ≡ none) × (get_user user_id db' ≡ some user)
  account_user-unlink_account missing refused s' link user domain identity new_id now user_id' db' h
        held provider_same subject_same known signed_in =
      let w = unlink_account-Withdrawn missing refused h in
      let owned = account_user-Owned domain identity new_id now s'.db user_id' db' signed_in in
      let same : w.link ≡ link = ground (arith, w.held, held) in
      let gone : resolve_link identity.provider identity.subject s'.db ≡ none =
        rw (provider_same, subject_same, sym same) w.gone in
      let kept : (j : String) → get_user j s'.db ≡ get_user j s.db =
        λ j. ap (find (is_user j)) w.users in
      elim owned.source [
        | inl (linked, unchanged) ↦ absurd (ground (arith, gone, linked))
        | inr (unlinked, is_new, free) ↦
            let free_before : get_user user_id' s.db ≡ none =
              sym (kept user_id') ∙ ap (λ j. get_user j s'.db) is_new ∙ free in
            let other : user_id' ≢ user_id = λ e. absurd (
              let clash = sym free_before ∙ ap (λ j. get_user j s.db) e ∙ known in
              ground (arith, clash)) in
            (
              other,
              free_before,
              owned.others user_id (λ e. other (is_new ∙ sym e)) ∙ kept user_id ∙ known,
            )
      ]
