-- ===== src/Api/Oauth/Flow.antt =====
-- The whole authorization code flow of src/temis_sso/api/oauth.py, from `authorize` to `token`.
use temis_sso_lab.Api.Oauth.Code.{token-step}
use temis_sso_lab.Base.{
  ℕ, ◌<◌, ◌+◌, ◌*◌, String, true, none, some, ok, ◌≡◌, refl, ◌∙◌, [], ◌∷◌, eq_refl,
}
use temis_sso_lab.Persistence.{Db}
use temis_sso_lab.Jose.{Jose}
use temis_sso_lab.KeyRing.{Ring}
use temis_sso_lab.ClientPolicy.{require_client, client_by_id, temis_web}
use temis_sso_lab.OauthState.{Dict, Digests, as_dict, item, peek, set, store_key, pkce_challenge}
use temis_sso_lab.OauthState.Laws.{peek-set, peek-set_ne, provider-oauth}
use temis_sso_lab.FakeProvider.{account_of, code_value, ProviderIdentity}
use temis_sso_lab.Api.Tokens.{issue_bundle}
use temis_sso_lab.Api.Oauth.{
  State, token_request, authorize, fake_authorize, provider_callback, token, oauth_user,
  grant_value, is_within,
}
use temis_sso_lab.Api.Oauth.Steps.{
  asked, provider_callback-ok, authorize-ok, fake_authorize-ok, provider-account_of,
}
use temis_sso_lab.Jose.{Jose}
use temis_sso_lab.KeyRing.{Ring}

module _ (digests : Digests) (jose : Jose) (ring : Ring jose) where
  -- A held grant, presented by its client with the verifier of its challenge.
  token-held :
      (form : Dict) (redirect_uri state verifier code raw user_id : String) (taken granted now : ℕ)
      (s : State)
      → token_request form
        ≡ ok (record {
          grant_type = "authorization_code";
          client_id = "temis-web";
          redirect_uri = redirect_uri;
          code = code;
          code_verifier = verifier;
        })
      → peek (store_key digests "authorization-code" code) taken s.redis
        ≡ some (
            grant_value user_id temis_web
              (asked digests redirect_uri state (pkce_challenge digests verifier)))
      → (token digests jose ring form raw taken granted now s).0
        ≡ (issue_bundle digests.sha256_hex jose ring user_id "temis-lab" none raw granted now
            s.db).0
  unfolding item client_by_id
  token-held form redirect_uri state verifier code raw user_id taken granted now s parsed held =
      rw
        (
          token-step digests jose ring form _ raw taken granted now s parsed,
          held,
          eq_refl redirect_uri,
          eq_refl (pkce_challenge digests verifier),
        )
        refl

  -- The authorization code flow succeeds: for a registered redirect URI, a state and a challenge of
  -- the lengths that are asked for, an account of the provider, and steps in their times, the
  -- callback sends the code and the client's state to the redirect URI, and the code, with the
  -- verifier of the challenge, buys what `issue_bundle` gives the user of that account.
  pub token-authorize :
      (redirect_uri state verifier account pending given code new_id user_id raw : String)
      (identity : ProviderIdentity) (form : Dict) (begun chosen called taken granted now : ℕ)
      (s : State) (db' : Db)
      → is_within 16 256 state ≡ true
      → is_within 43 128 (pkce_challenge digests verifier) ≡ true
      → require_client "temis-web" redirect_uri ≡ ok temis_web
      → account_of account ≡ some identity
      → called < begun + 300 * 1000000
      → called < chosen + 60 * 1000000
      → taken < called + 60 * 1000000
      → oauth_user identity.provider_subject "user" new_id s.db ≡ (ok user_id, db')
      → token_request form
        ≡ ok (record {
          grant_type = "authorization_code";
          client_id = "temis-web";
          redirect_uri = redirect_uri;
          code = code;
          code_verifier = verifier;
        })
      → let challenge = pkce_challenge digests verifier in
        let s₁ =
          (authorize digests "temis-web" redirect_uri state "code" challenge "S256" pending begun
            s).1 in
        let s₂ = (fake_authorize digests pending account given chosen s₁).1 in
        let (redirect, s₃) = provider_callback digests pending given new_id code called s₂ in
        (redirect
          ≡ ok (record { url = redirect_uri; query = ("code", code) ∷ ("state", state) ∷ [] }))
        × ((token digests jose ring form raw taken granted now s₃).0
            ≡ (issue_bundle digests.sha256_hex jose ring user_id "temis-lab" none raw granted now
                db').0)
  token-authorize redirect_uri state verifier account pending given code new_id user_id raw identity
        form begun chosen called taken granted now s db' wide long allowed known soon swift prompt
        made parsed =
      let challenge = pkce_challenge digests verifier in
      let t = asked digests redirect_uri state challenge in
      let first =
        authorize-ok digests redirect_uri state challenge pending begun s wide long allowed in
      let redis₁ = set (store_key digests "oauth" pending) (as_dict t) 300 begun s.redis in
      let second =
        fake_authorize-ok digests pending account given chosen identity
          (record s { redis = redis₁ }) known in
      let redis₂ =
        set (store_key digests "provider-code" given) (code_value pending identity) 60 chosen
          redis₁ in
      let held =
        peek-set_ne (store_key digests "oauth" pending) (store_key digests "provider-code" given)
          (code_value pending identity) 60 chosen called redis₁
          (provider-oauth digests pending given)
        ∙ peek-set (store_key digests "oauth" pending) (as_dict t) 300 begun called s.redis soon in
      let kept =
        peek-set (store_key digests "provider-code" given) (code_value pending identity) 60 chosen
          called redis₁ swift in
      let third =
        provider_callback-ok digests pending given new_id code user_id called t identity temis_web
          (record s { redis = redis₂ }) db' held kept
          (provider-account_of digests account identity known) allowed made in
      rw (first, second, third)
        (
          refl,
          token-held form redirect_uri state verifier code raw user_id taken granted now _ parsed
              (peek-set _ _ 60 called taken _ prompt),
        )
