-- ===== src/Api/Identities/Unlink.antt =====
-- The withdrawal of a link (`naver_revoke`, `kakao_revoke`): fail-closed.
use temis_sso_lab.Base.{
  ℕ, String, Bool, true, false, some, none, ok, err, Result, ◌≡◌, ◌≢◌, ◌⊎◌, refl, ap, arith,
  Option-cases, Result-cases, inl, inr, find, Action, find-delete_where, find-delete_where_self,
  eq_iff,
}
use temis_sso_lab.Persistence.{ExternalIdentityLink, is_link}
use temis_sso_lab.ExternalIdp.Stores.{resolve_link, owner_of}
use temis_sso_lab.Api.Identities.{State, is_link_of, unlink_account, delete_link}

module _ (provider user_id : String) (call : Action ℕ Bool) (s : State) where
  -- What a link that was withdrawn rests on, and what is left.
  pub record Withdrawn (s' : State) : Type 0 where
    pub link : ExternalIdentityLink
    pub held : find (is_link_of provider user_id) s.db.links ≡ some link
    pub agreed : (call s.requests).0 ≡ ok true
    pub gone : resolve_link link.provider link.subject s'.db ≡ none
    pub others :
        (p q : String)
        → (p ≢ link.provider) ⊎ (q ≢ link.subject)
        → resolve_link p q s'.db ≡ resolve_link p q s.db
    pub users : s'.db.users ≡ s.db.users

  abbrev pub Closed : Result (Unit {0}) → State → Type 0
  Closed (ok tt) s' = Withdrawn s'
  Closed (err e) s' = s'.db ≡ s.db

  delete_link-Withdrawn :
      (link : ExternalIdentityLink)
      → find (is_link_of provider user_id) s.db.links ≡ some link
      → (call s.requests).0 ≡ ok true
      → Withdrawn (delete_link link (record s { requests = (call s.requests).1 }))
  unfolding resolve_link
  delete_link-Withdrawn link held agreed = record {
    link = link;
    held = held;
    agreed = agreed;
    gone = ap owner_of (find-delete_where_self (is_link link.provider link.subject) s.db.links);
    others = λ p q ne. ap owner_of (
        find-delete_where (is_link link.provider link.subject) (is_link p q) s.db.links (λ l h.
          ground (
            arith,
            ne,
            h,
            eq_iff l.provider p,
            eq_iff l.provider link.provider,
            eq_iff l.subject q,
            eq_iff l.subject link.subject,
          )));
    users = refl;
  }

  -- A link is withdrawn only where the provider has agreed: then the identity resolves to nobody, and
  -- no other link and no account is touched. Where the call fails or the provider refuses, the
  -- database is as it was.
  pub unlink_account-Closed :
      (missing refused : String)
      → Closed
          (unlink_account provider user_id missing refused call s).0
          (unlink_account provider user_id missing refused call s).1
  unfolding unlink_account
  unlink_account-Closed missing refused =
      elim (Option-cases (find (is_link_of provider user_id) s.db.links)) [
        | inl e ↦ rw e refl
        | inr (link, e) ↦ elim (Result-cases (call s.requests).0) [
          | inr (x, c) ↦ rw (e, c) refl
          | inl (false, c) ↦ rw (e, c) refl
          | inl (true, c) ↦ rw (e, c) (delete_link-Withdrawn link e c)
        ]
      ]
