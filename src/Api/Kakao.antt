-- ===== src/Api/Kakao.antt =====
-- src/temis_sso/api/kakao_oauth.py: login, callback and withdrawal of a Kakao account.
pub mod Callback
use temis_sso_lab.Base.{
  ℕ, String, Option, none, name_error, Action, ◌>>=◌, lift, pure, raise, rethrow,
}
use temis_sso_lab.Persistence.{Session}
use temis_sso_lab.Jose.{Jose}
use temis_sso_lab.KeyRing.{Ring}
use temis_sso_lab.ExternalIdp.Flows.{Drawn, issue, consume}
use temis_sso_lab.ExternalIdp.Models.{ExternalIdentity}
use temis_sso_lab.Http.{Http}
use temis_sso_lab.ExternalIdp.Kakao.{KakaoAdapter, authorization_request, unlink}
use temis_sso_lab.Api.Tokens.{issue_bundle}
use temis_sso_lab.Api.Users.{current_subject}
use temis_sso_lab.Api.Identities.{
  State, on_db, on_flows, in_session, value_error_401, callback_error, LoginRedirect, TokenRedirect,
  login_redirect, token_redirect, require_cookie, account_user, unlink_account,
}

-- The settings `kakao_rest_api_key` and `kakao_client_secret`.
pub record Settings : Type 0 where
  pub rest_api_key : String
  pub client_secret : Option String

abbrev pub ttl_seconds : ℕ
ttl_seconds = 300

-- `_kakao_oauth_user`
abbrev pub kakao_oauth_user : ExternalIdentity → String → ℕ → Session String
kakao_oauth_user = account_user "@kakao.lab.invalid"

module _ (settings : Settings) (http : Http) where
  -- The adapter of `kakao_login` has the secret where the client should be, and the client where the
  -- secret should be.
  abbrev pub login_adapter : KakaoAdapter (Option String) Http
  login_adapter = record {
    client_id = settings.rest_api_key;
    http = settings.client_secret;
    client_secret = http;
  }

  abbrev pub adapter : KakaoAdapter Http (Option String)
  adapter = record {
    client_id = settings.rest_api_key;
    http = http;
    client_secret = settings.client_secret;
  }

  -- `/oauth/kakao/login`
  unfoldable pub kakao_login : (String → String) → String → ℕ → Drawn → Action State LoginRedirect
  kakao_login s256 browser_binding now drawn = do
    flow ←
        on_flows (issue s256 "http://localhost:8000/oauth/kakao/callback" now browser_binding drawn)
    pure (
        login_redirect "kakao_browser_binding" browser_binding
          (authorization_request login_adapter flow))

  -- The second `try` of the callback: `flow_data` is no name of the module, so the first line raises
  -- when it evaluates its arguments, and the others are not reached.
  abbrev pub kakao_user : Action State String
  kakao_user = raise name_error

  unfoldable pub kakao_session : String → String → ℕ → Action State String
  kakao_session state binding now = in_session (do
    flow ← (λ s. rethrow value_error_401 (on_flows (consume ttl_seconds state now binding) s))
    (λ s.
        rethrow (callback_error http "OAuth callback processing failed internally: ")
          (kakao_user s)))

  module _ (sha256_hex : String → String) (jose : Jose) (ring : Ring jose) where
    open jose use {Token}

    -- `/oauth/kakao/callback`
    unfoldable pub kakao_callback :
        String → Option String → ℕ → String → ℕ → ℕ → Action State (TokenRedirect Token)
    kakao_callback state cookie now raw granted signed = do
      binding ← lift (require_cookie cookie)
      user_id ← kakao_session state binding now
      bundle ←
          on_db (issue_bundle sha256_hex jose ring user_id "lab-client" none raw granted signed)
      pure (token_redirect bundle)

  module _ (jose : Jose) where
    -- `/oauth/kakao/revoke`
    unfoldable pub kakao_revoke : Ring jose → Option String → ℕ → String → Action State (Unit {0})
    kakao_revoke ring authorization now access_token = do
      user_id ← lift (current_subject jose ring authorization now)
      unlink_account "kakao" user_id "Linked Kakao account identity not found for this user."
          "Fail-closed: Kakao identity provider rejected the revocation request."
          (unlink adapter access_token)
