-- ===== src/Api/Oauth/Steps.antt =====
-- The steps of the authorization code flow of src/temis_sso/api/oauth.py where they succeed.
use temis_sso_lab.Api.Oauth.{in_redis}
use temis_sso_lab.Base.{
  resume, pure, ℕ, String, true, some, Result, ok, ◌≡◌, refl, ap, ◌∙◌, arith, [], ◌∷◌, eq_refl,
}
use temis_sso_lab.Persistence.{Db}
use temis_sso_lab.ClientPolicy.{Policy, require_client, temis_web}
use temis_sso_lab.OauthState.{
  begin, Redis, Dict, Digests, OAuthTransaction, as_dict, item, peek, remove, set, store_key, take,
  transaction_of, consume_oauth, begin,
}
use temis_sso_lab.OauthState.Laws.{peek-remove_ne, put-set, oauth-provider}
use temis_sso_lab.FakeProvider.{
  authorize_account, exchange, authorize_account, account_of, code_value, ProviderIdentity,
}
use temis_sso_lab.Api.Oauth.{
  State, authorize, fake_authorize, provider_callback, oauth_user, grant_value, is_within,
}

module _ (digests : Digests) where
  -- What `authorize` keeps.
  abbrev pub asked : String → String → String → OAuthTransaction
  asked redirect_uri state challenge = record {
    client_id = "temis-web";
    redirect_uri = redirect_uri;
    code_challenge = challenge;
    provider = "lab-provider";
    client_state = state;
  }

  -- The callback with a held transaction and a held provider code that names the same state.
  pub provider_callback-ok :
      (state code new_id raw user_id : String) (now : ℕ) (t : OAuthTransaction)
      (identity : ProviderIdentity) (policy : Policy) (s : State) (db' : Db)
      → peek (store_key digests "oauth" state) now s.redis ≡ some (as_dict t)
      → peek (store_key digests "provider-code" code) now s.redis ≡ some (code_value state identity)
      → identity.provider ≡ t.provider
      → require_client t.client_id t.redirect_uri ≡ ok policy
      → oauth_user identity.provider_subject policy.default_role new_id s.db ≡ (ok user_id, db')
      → provider_callback digests state code new_id raw now s ≡ (
        ok (record {
          url = t.redirect_uri;
          query = ("code", raw) ∷ ("state", t.client_state) ∷ [];
        }),
        record {
          db = db';
          redis =
              set
                (store_key digests "authorization-code" raw)
                (grant_value user_id policy t)
                60
                now
                (remove
                  (store_key digests "provider-code" code)
                  (remove (store_key digests "oauth" state) s.redis));
        },
      )
  unfolding provider_callback consume_oauth exchange take transaction_of item
  provider_callback-ok state code new_id raw user_id now t identity policy s db' held given same
        allowed made =
      let kept : peek (store_key digests "provider-code" code) now
            (remove (store_key digests "oauth" state) s.redis)
          ≡ some (code_value state identity) =
        peek-remove_ne (store_key digests "provider-code" code) (store_key digests "oauth" state)
          now s.redis (oauth-provider digests state code)
        ∙ given in
      rw (held, kept, same, eq_refl state, eq_refl t.provider, allowed, made, put-set) refl

  begin-set :
      (t : OAuthTransaction) (raw : String) (now : ℕ) (redis : Redis Dict)
      → begin digests t raw now redis
        ≡ (ok raw, set (store_key digests "oauth" raw) (as_dict t) 300 now redis)
  unfolding begin
  begin-set t raw now redis = put-set digests "oauth" (as_dict t) 300 raw now redis

  authorize_account-set :
      (state account raw : String) (now : ℕ) (identity : ProviderIdentity) (redis : Redis Dict)
      → account_of account ≡ some identity
      → authorize_account digests state account raw now redis ≡ (
        ok raw,
        set (store_key digests "provider-code" raw) (code_value state identity) 60 now redis,
      )
  unfolding authorize_account
  authorize_account-set state account raw now identity redis known =
      rw
        (
          authorize_account,
          known,
          put-set digests "provider-code" (code_value state identity) 60 raw now redis,
        )
        refl

  pub authorize-ok :
      (redirect_uri state challenge raw : String) (now : ℕ) (s : State)
      → is_within 16 256 state ≡ true
      → is_within 43 128 challenge ≡ true
      → require_client "temis-web" redirect_uri ≡ ok temis_web
      → authorize digests "temis-web" redirect_uri state "code" challenge "S256" raw now s ≡ (
        ok (record { url = "/oauth/fake-provider/authorize"; query = ("state", raw) ∷ [] }),
        record s {
          redis =
              set
                (store_key digests "oauth" raw)
                (as_dict (asked redirect_uri state challenge))
                300
                now
                s.redis;
        },
      )
  unfolding authorize
  authorize-ok redirect_uri state challenge raw now s wide long allowed =
      rw (wide, long, allowed)
        (ap
          (λ (r : Result String × Redis Dict). resume (in_redis s r) (λ provider_state.
            pure (record {
              url = "/oauth/fake-provider/authorize";
              query = ("state", provider_state) ∷ [];
            })))
          (begin-set (asked redirect_uri state challenge) raw now s.redis))

  pub fake_authorize-ok :
      (state account raw : String) (now : ℕ) (identity : ProviderIdentity) (s : State)
      → account_of account ≡ some identity
      → fake_authorize digests state account raw now s ≡ (
        ok (record {
          url = "/oauth/provider/callback";
          query = ("state", state) ∷ ("code", raw) ∷ [];
        }),
        record s {
          redis =
              set
                (store_key digests "provider-code" raw)
                (code_value state identity)
                60
                now
                s.redis;
        },
      )
  unfolding fake_authorize
  fake_authorize-ok state account raw now identity s known =
      rw (authorize_account-set state account raw now identity s.redis known) refl

  -- Every account of the lab's provider is the lab's.
  pub provider-account_of :
      (account : String) (identity : ProviderIdentity)
      → account_of account ≡ some identity
      → identity.provider ≡ "lab-provider"
  unfolding account_of
  provider-account_of account identity h = ground arith
