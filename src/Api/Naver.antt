-- ===== src/Api/Naver.antt =====
-- src/temis_sso/api/naver_oauth.py: login, callback and withdrawal of a Naver account.
pub mod Callback
pub mod Once
pub mod Flow
use temis_sso_lab.Base.{ℕ, String, Option, none, Action, ◌>>=◌, lift, pure, rethrow}
use temis_sso_lab.Persistence.{Session}
use temis_sso_lab.Jose.{Jose}
use temis_sso_lab.KeyRing.{Ring}
use temis_sso_lab.ExternalIdp.Flows.{Drawn, issue, consume}
use temis_sso_lab.ExternalIdp.Models.{ExternalIdentity}
use temis_sso_lab.ExternalIdp.Naver.{
  NaverAdapter, authorization_request, exchange_code, fetch_identity, revoke,
}
use temis_sso_lab.Api.Tokens.{issue_bundle}
use temis_sso_lab.Api.Users.{current_subject}
use temis_sso_lab.Api.Identities.{
  State, on_db, on_flows, on_requests, in_session, value_error_401, callback_error, LoginRedirect,
  TokenRedirect, login_redirect, token_redirect, require_cookie, account_user, unlink_account,
}

abbrev pub ttl_seconds : ℕ
ttl_seconds = 300

-- `_naver_oauth_user`
abbrev pub naver_oauth_user : ExternalIdentity → String → ℕ → Session String
naver_oauth_user = account_user "@naver.lab.invalid"

module _ (adapter : NaverAdapter) where
  open adapter use {http}

  -- `/oauth/naver/login`; the binding and the flow's values are drawn.
  unfoldable pub naver_login : (String → String) → String → ℕ → Drawn → Action State LoginRedirect
  naver_login s256 browser_binding now drawn = do
    flow ←
        on_flows (issue s256 "http://localhost:8000/oauth/naver/callback" now browser_binding drawn)
    pure (
        login_redirect "naver_browser_binding" browser_binding (authorization_request adapter flow))

  -- The second `try` of the callback.
  unfoldable pub naver_user : String → String → String → ℕ → Action State String
  naver_user state code new_id linked_at = do
    access_token ← on_requests (exchange_code adapter code state)
    identity ← on_requests (fetch_identity adapter access_token)
    on_db (naver_oauth_user identity new_id linked_at)

  -- The session of the callback, whose flow is consumed and then forgotten.
  unfoldable pub naver_session : String → String → String → ℕ → String → ℕ → Action State String
  naver_session state code binding now new_id linked_at = in_session (do
    flow ← (λ s. rethrow value_error_401 (on_flows (consume ttl_seconds state now binding) s))
    (λ s.
        rethrow (callback_error http "OAuth callback processing failed internally: ")
          (naver_user state code new_id linked_at s)))

  module _ (sha256_hex : String → String) (jose : Jose) (ring : Ring jose) where
    open jose use {Token}

    -- `/oauth/naver/callback`; `raw`, `granted` and `signed` are the token and the times of the
    -- bundle.
    unfoldable pub naver_callback :
        String
        → String
        → Option String
        → ℕ
        → String
        → ℕ
        → String
        → ℕ
        → ℕ
        → Action State (TokenRedirect Token)
    naver_callback state code cookie now new_id linked_at raw granted signed = do
      binding ← lift (require_cookie cookie)
      user_id ← naver_session state code binding now new_id linked_at
      bundle ←
          on_db (issue_bundle sha256_hex jose ring user_id "lab-client" none raw granted signed)
      pure (token_redirect bundle)

  module _ (jose : Jose) where
    -- `/oauth/naver/revoke`
    unfoldable pub naver_revoke : Ring jose → Option String → ℕ → String → Action State (Unit {0})
    naver_revoke ring authorization now access_token = do
      user_id ← lift (current_subject jose ring authorization now)
      unlink_account "naver" user_id "Linked Naver account identity not found for this user."
          "Fail-closed: Naver identity provider rejected the revocation request."
          (revoke adapter access_token)
