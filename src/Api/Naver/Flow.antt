-- ===== src/Api/Naver/Flow.antt =====
-- A login of src/temis_sso/api/naver_oauth.py and its callback, one after the other.
use temis_sso_lab.Base.{
  subst, ℕ, ◌+◌, ◌≤◌, String, Bool, false, some, none, ok, ◌≡◌, refl, arith, inl, inr, ◌==◌, ap,
  ◌∙◌, sym, find, Result-cases, delete_where,
}
use temis_sso_lab.Jose.{Jose}
use temis_sso_lab.KeyRing.{Ring}
use temis_sso_lab.Persistence.{Db}
use temis_sso_lab.ExternalIdp.Flows.{
  Drawn, ExternalFlow, issue, consume, is_binding-named, has_state,
}
use temis_sso_lab.ExternalIdp.Flows.RoundTrip.{Begun, issue-Begun, consume-issue}
use temis_sso_lab.ExternalIdp.Models.{ExternalIdentity}
use temis_sso_lab.ExternalIdp.Naver.{
  NaverAdapter, authorization_request, exchange_code, fetch_identity,
}
use temis_sso_lab.ExternalIdp.Stores.{resolve_link}
use temis_sso_lab.Api.Tokens.{TokenBundle, issue_bundle}
use temis_sso_lab.Api.Identities.{State, LoginRedirect, login_redirect, token_redirect}
use temis_sso_lab.Api.Identities.Later.{account_user_linked}
use temis_sso_lab.Api.Naver.{Option, naver_login, naver_user, naver_session, naver_callback}

abbrev naver_redirect_uri : String
naver_redirect_uri = "http://localhost:8000/oauth/naver/callback"

-- `request.query_params[key]` of the redirect.
abbrev pub is_param : String → String × String → Bool
is_param key p = p.0 == key

module _ (adapter : NaverAdapter) where
  -- What a login has left: its flow, and a redirect that shows its state and its cookie.
  record Started (s256 : String → String) (binding : String) (now : ℕ) (drawn : Drawn) (s : State)
      (login : LoginRedirect) (s' : State) : Type 0 where
    flow : ExternalFlow
    begun : Begun s256 naver_redirect_uri now binding drawn flow s'.flows
    cookie : login.browser_binding ≡ binding
    state : find (is_param "state") login.query ≡ some ("state", drawn.state)
    db : s'.db ≡ s.db
    requests : s'.requests ≡ s.requests

  naver_login-Started :
      (s256 : String → String) (binding : String) (now : ℕ) (drawn : Drawn) (s : State)
      {login : LoginRedirect} {s' : State}
      → naver_login adapter s256 binding now drawn s ≡ (ok login, s')
      → Started s256 binding now drawn s login s'
  unfolding naver_login authorization_request find
  naver_login-Started s256 binding now drawn s {login} {s'} h =
      let r = issue s256 naver_redirect_uri now binding drawn s.flows in
      elim (Result-cases r.0) [
        | inr (x, e) ↦ absurd (ground (arith, e, h))
        | inl (flow, e) ↦
            let begun : Begun s256 naver_redirect_uri now binding drawn flow r.1 =
              issue-Begun s256 naver_redirect_uri now binding drawn s.flows (ground (arith, e)) in
            let shown : login_redirect "naver_browser_binding" binding
                  (authorization_request adapter flow)
                ≡ login =
              ground (arith, e, h) in
            let left : record s { flows = r.1 } ≡ s' = ground (arith, e, h) in
            record {
              flow = flow;
              begun =
                  subst
                    (λ (t : State). Begun s256 naver_redirect_uri now binding drawn flow t.flows)
                    left begun;
              cookie = ap (λ (l : LoginRedirect). l.browser_binding) (sym shown);
              state =
                  ap (λ (l : LoginRedirect). find (is_param "state") l.query) (sym shown)
                  ∙ ap (λ (f : ExternalFlow). some ("state", f.state)) begun.made;
              db = ap (λ (t : State). t.db) (sym left);
              requests = ap (λ (t : State). t.requests) (sym left);
            }
      ]

  module _ (sha256_hex : String → String) (jose : Jose) (ring : Ring jose) where
    -- A login leads to a bundle: the callback that brings back the state and the cookie of a login, not
    -- later than 300 seconds after it, gives the tokens of the account to which the identity is linked
    -- that Naver names, where Naver answers both requests and a bundle can be made for the account.
    pub naver_callback-naver_login :
        (s256 : String → String) (binding : String) (now : ℕ) (drawn : Drawn) (s : State)
        (login : LoginRedirect) (s₁ : State) (state code : String) (later : ℕ)
        (access_token : String) (identity : ExternalIdentity) (user_id new_id : String)
        (linked_at : ℕ) (raw : String) (granted signed : ℕ) (bundle : TokenBundle jose.Token)
        (db' : Db)
        → naver_login adapter s256 binding now drawn s ≡ (ok login, s₁)
        → find (is_param "state") login.query ≡ some ("state", state)
        → later ≤ now + 300
        → (exchange_code adapter code state s₁.requests).0 ≡ ok access_token
        → (fetch_identity adapter access_token (exchange_code adapter code state s₁.requests).1).0
          ≡ ok identity
        → resolve_link identity.provider identity.subject s₁.db ≡ some user_id
        → (user_id == "") ≡ false
        → issue_bundle sha256_hex jose ring user_id "lab-client" none raw granted signed s₁.db
          ≡ (ok bundle, db')
        → let r =
            naver_callback adapter sha256_hex jose ring state code
              (some login.browser_binding)
              later
              new_id
              linked_at
              raw
              granted
              signed
              s₁ in
          (r.0 ≡ ok (token_redirect bundle)) × (r.1.db ≡ db')
    unfolding naver_callback naver_session naver_user
    naver_callback-naver_login s256 binding now drawn s login s₁ state code later access_token
          identity user_id new_id linked_at raw granted signed bundle db' h shown timely exchanged
          fetched linked named made =
        let started = naver_login-Started s256 binding now drawn s h in
        let same : drawn.state ≡ state =
          ap (λ (o : Option (String × String)). elim o [ none ↦ "" | some p ↦ p.1 ])
            (sym started.state ∙ shown) in
        let consumed : consume 300 state later binding s₁.flows
            ≡ (ok started.flow, delete_where (has_state state) s₁.flows) =
          subst
            (λ x.
              consume 300 x later binding s₁.flows
              ≡ (ok started.flow, delete_where (has_state x) s₁.flows))
            same
            (consume-issue s256 naver_redirect_uri now binding drawn started.flow s₁.flows 300 later
              started.begun timely) in
        let signed_in =
          account_user_linked "@naver.lab.invalid" identity new_id linked_at s₁.db user_id linked
            named in
        rw
          (
            started.cookie,
            is_binding-named binding started.begun.formed,
            consumed,
            exchanged,
            fetched,
            signed_in,
            made,
          )
          (refl, refl)
