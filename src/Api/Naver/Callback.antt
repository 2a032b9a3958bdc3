-- ===== src/Api/Naver/Callback.antt =====
-- What the callback of src/temis_sso/api/naver_oauth.py rests on where it logs a browser in.
use temis_sso_lab.Base.{
  find, none, Result-cases, inl, inr, arith, ℕ, String, Option, some, ok, ◌≡◌, refl,
}
use temis_sso_lab.Jose.{Jose}
use temis_sso_lab.KeyRing.{Ring}
use temis_sso_lab.Persistence.{Db}
use temis_sso_lab.ExternalIdp.Flows.{has_state, ExternalFlow, consume, Consumed, consume-Consumed}
use temis_sso_lab.ExternalIdp.Models.{ExternalIdentity}
use temis_sso_lab.ExternalIdp.Naver.{NaverAdapter, exchange_code, fetch_identity}
use temis_sso_lab.Api.Tokens.{TokenBundle, issue_bundle}
use temis_sso_lab.Api.Tokens.Issue.{Issued, issue_bundle-ok}
use temis_sso_lab.Api.Identities.{require_cookie-some, State, TokenRedirect, require_cookie}
use temis_sso_lab.Api.Identities.Owner.{Owned, account_user-Owned}
use temis_sso_lab.Api.Naver.{ttl_seconds, naver_user, naver_session, naver_callback}

module _ (adapter : NaverAdapter) where
  -- The answers of the provider, and the account that they lead to.
  pub record Asserted (state code new_id : String) (requests : ℕ) (db : Db) (user_id : String)
      (db' : Db) : Type 0 where
    pub access_token : String
    pub exchanged : (exchange_code adapter code state requests).0 ≡ ok access_token
    pub identity : ExternalIdentity
    pub fetched :
        (fetch_identity adapter access_token (exchange_code adapter code state requests).1).0
        ≡ ok identity
    pub owned : Owned identity new_id user_id db db'

  naver_user-Asserted :
      (state code new_id : String) (linked_at : ℕ) (s : State) {user_id : String} {s' : State}
      → naver_user adapter state code new_id linked_at s ≡ (ok user_id, s')
      → Asserted state code new_id s.requests s.db user_id s'.db
  unfolding naver_user
  naver_user-Asserted state code new_id linked_at s {user_id} {s'} h =
      let r = exchange_code adapter code state s.requests in
      elim (Result-cases r.0) [
        | inr (x, e) ↦ absurd (ground (arith, e, h))
        | inl (token, e) ↦ elim (Result-cases (fetch_identity adapter token r.1).0) [
          | inr (x, f) ↦ absurd (ground (arith, e, f, h))
          | inl (identity, f) ↦ record {
            access_token = token;
            exchanged = e;
            identity = identity;
            fetched = f;
            owned =
                account_user-Owned "@naver.lab.invalid" identity new_id linked_at s.db user_id s'.db
                  (ground (arith, e, f, h));
          }
        ]
      ]

  pub flows-naver_user :
      (state code new_id : String) (linked_at : ℕ) (s : State)
      → (naver_user adapter state code new_id linked_at s).1.flows ≡ s.flows
  unfolding naver_user
  flows-naver_user state code new_id linked_at s =
      let r = exchange_code adapter code state s.requests in
      elim (Result-cases r.0) [
        | inr (x, e) ↦ rw e refl
        | inl (token, e) ↦ elim (Result-cases (fetch_identity adapter token r.1).0) [
          | inr (x, f) ↦ rw (e, f) refl
          | inl (identity, f) ↦ rw (e, f) refl
        ]
      ]

  -- A flow that this browser began, used up, and the identity that the provider then vouched for.
  pub record Entered (state code binding : String) (now : ℕ) (new_id : String) (s : State)
      (user_id : String) (s' : State) : Type 0 where
    pub flow : ExternalFlow
    pub consumed : Consumed ttl_seconds state now binding s.flows flow s'.flows
    pub asserted : Asserted state code new_id s.requests s.db user_id s'.db

  naver_session-Entered :
      (state code binding : String) (now : ℕ) (new_id : String) (linked_at : ℕ) (s : State)
      {user_id : String} {s' : State}
      → naver_session adapter state code binding now new_id linked_at s ≡ (ok user_id, s')
      → Entered state code binding now new_id s user_id s'
  unfolding naver_session
  naver_session-Entered state code binding now new_id linked_at s {user_id} {s'} h =
      let r = consume ttl_seconds state now binding s.flows in
      elim (Result-cases r.0) [
        | inr (x, e) ↦ absurd (ground (arith, e, h))
        | inl (flow, e) ↦
            let t = record s { flows = r.1 } in
            let u = naver_user adapter state code new_id linked_at t in
            elim (Result-cases u.0) [
              | inr (x, f) ↦ absurd (ground (arith, e, f, h))
              | inl (owner, f) ↦
                  let same : u ≡ (ok user_id, s') = ground (arith, e, f, h) in
                  record {
                    flow = flow;
                    consumed =
                        consume-Consumed ttl_seconds state now binding s.flows flow s'.flows
                          (ground (arith, e, same, flows-naver_user state code new_id linked_at t));
                    asserted = naver_user-Asserted state code new_id linked_at t same;
                  }
            ]
      ]

  -- The whole of a login: the cookie, the flow, the identity and the bundle.
  pub record LoggedIn (sha256_hex : String → String) (jose : Jose) (ring : Ring jose)
      (state code : String) (cookie : Option String) (now : ℕ) (new_id : String) (signed : ℕ)
      (s s' : State) : Type 0 where
    pub binding : String
    pub shown : cookie ≡ some binding
    pub user_id : String
    pub after : State
    pub entered : Entered state code binding now new_id s user_id after
    pub made : TokenBundle jose.Token
    pub issued : Issued sha256_hex jose ring user_id "lab-client" signed after.db made s'.db
    pub used : find (has_state state) s'.flows ≡ none

  module _ (sha256_hex : String → String) (jose : Jose) (ring : Ring jose) where
    -- A browser is logged in by Naver only if it shows the cookie of a flow in progress with this
    -- state, in its time; if the provider has exchanged the code and named an identity; and if the
    -- account is active that the identity was linked to before or that is made for it now. The flow
    -- is used up, and no other account is changed.
    pub naver_callback-LoggedIn :
        (state code : String) (cookie : Option String) (now : ℕ) (new_id : String) (linked_at : ℕ)
        (raw : String) (granted signed : ℕ) (s s' : State) (answer : TokenRedirect jose.Token)
        → naver_callback adapter sha256_hex jose ring state code cookie now new_id linked_at raw
            granted signed s
          ≡ (ok answer, s')
        → LoggedIn sha256_hex jose ring state code cookie now new_id signed s s'
    unfolding naver_callback
    naver_callback-LoggedIn state code cookie now new_id linked_at raw granted signed s s' answer
          h =
        elim (Result-cases (require_cookie cookie)) [
          | inr (x, e) ↦ absurd (ground (arith, e, h))
          | inl (binding, e) ↦
              let r = naver_session adapter state code binding now new_id linked_at s in
              elim (Result-cases r.0) [
                | inr (x, f) ↦ absurd (ground (arith, e, f, h))
                | inl (user_id, f) ↦
                    let b =
                      issue_bundle sha256_hex jose ring user_id "lab-client" none raw granted signed
                        r.1.db in
                    elim (Result-cases b.0) [
                      | inr (x, g) ↦ absurd (ground (arith, e, f, g, h))
                      | inl (bundle, g) ↦
                          let entered : Entered state code binding now new_id s user_id r.1 =
                            naver_session-Entered state code binding now new_id linked_at s
                              (ground (arith, f)) in
                          record {
                            binding = binding;
                            shown = require_cookie-some cookie binding e;
                            user_id = user_id;
                            after = r.1;
                            entered = entered;
                            made = bundle;
                            issued =
                                issue_bundle-ok sha256_hex jose ring user_id "lab-client" raw none
                                  granted signed r.1.db bundle s'.db (ground (arith, e, f, g, h));
                            used = ground (arith, e, f, g, h, entered.consumed.used);
                          }
                    ]
              ]
        ]
