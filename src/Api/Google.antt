-- ===== src/Api/Google.antt =====
-- The Google login and callback of src/temis_sso/api/oauth.py.
pub mod Callback
use temis_sso_lab.Base.{
  ℕ, ◌+◌, String, Option, none, some, find, delete_where, if◌then◌else◌, Result, ok, err, Exception,
  value_error, http_exception, attribute_error, Action, ◌>>=◌, ◌>>◌, lift, pure, raise, modify,
}
use temis_sso_lab.Base.Text.{has_text}
use temis_sso_lab.Persistence.{Session, Db}
use temis_sso_lab.KeyRing.{Ring}
use temis_sso_lab.ExternalIdp.Flows.{ExternalFlow, Drawn, issue, has_state}
use temis_sso_lab.ExternalIdp.Models.{ExternalIdentity}
use temis_sso_lab.ExternalIdp.Stores.{resolve_session}
use temis_sso_lab.ExternalIdp.Google.{
  GoogleOidcAdapter, discover, exchange_code, authorization_request,
}
use temis_sso_lab.ExternalIdp.Callback.{
  State, on_flows, on_keys, on_requests, IdTokens, verify_google_id_token, finish_callback,
}
use temis_sso_lab.Api.Tokens.{TokenBundle, issue_bundle}
use temis_sso_lab.Api.Identities.{
  message_of, callback_error, LoginRedirect, TokenRedirect, login_redirect, token_redirect,
  require_cookie,
}

abbrev pub ttl_seconds : ℕ
ttl_seconds = 300

abbrev in_db : {A : Type 0} → State → Result A × Db → Result A × State
in_db s (r, db) = (r, record s { db = db })

abbrev pub on_db : {A : Type 0} → Session A → Action State A
on_db m s = in_db s (m s.db)

abbrev pub roll_back : {A : Type 0} → Db → Result A × State → Result A × State
roll_back before (ok a, s) = (ok a, s)
roll_back before (err e, s) = (err e, record s { db = before })

-- `async with session_scope() as session`
abbrev pub in_session : {A : Type 0} → Action State A → Action State A
in_session m s = roll_back s.db (m s)

-- `_google_oauth_user`: its first call is of `links_repo.get`, which there is not, so the rest is not
-- reached.
abbrev pub google_oauth_user : ExternalIdentity → Session String
google_oauth_user identity = raise attribute_error

-- The session store's own user.
abbrev pub resolved : String → State → Option String
resolved session_id s = resolve_session session_id s.sessions

module _ (adapter : GoogleOidcAdapter) where
  open adapter use {http}

  -- `/oauth/google/login`
  unfoldable pub google_login : (String → String) → String → ℕ → Drawn → Action State LoginRedirect
  google_login s256 browser_binding now drawn = do
    metadata ← on_requests (discover adapter)
    flow ←
        on_flows
          (issue s256 "http://localhost:8000/oauth/google/callback" now browser_binding drawn)
    pure (
        login_redirect "idp_browser_binding" browser_binding
          (authorization_request adapter metadata flow))

  module _ (tokens : IdTokens) where
    open tokens use {jose}

    -- `flow_store._flows.pop(state, None)`
    abbrev pub drop_flow : String → State → State
    drop_flow state s = record s { flows = delete_where (has_state state) s.flows }

    -- The part of `except ValueError` for an identity that is not linked; `again` is the clock's
    -- time there.
    abbrev pub link_unknown :
        String → String → ℕ → ℕ → Option ExternalFlow → Action State (Option String)
    link_unknown state code again clock none = raise (http_exception 401 "Invalid state token")
    link_unknown state code again clock (some flow) = do
      metadata ← on_requests (discover adapter)
      encoded ← on_requests (exchange_code adapter metadata code flow)
      identity ← on_keys (
          verify_google_id_token tokens http encoded metadata adapter.client_id flow.nonce
            (again + 60) clock)
      user_id ← on_db (google_oauth_user identity)
      modify (drop_flow state)
      pure (some user_id)

    abbrev pub handle_value_error : String → String → ℕ → ℕ → String → Action State (Option String)
    handle_value_error state code again clock message s =
        if has_text message "not linked"
        then link_unknown state code again clock (find (has_state state) s.flows) s
        else (err (http_exception 401 message), s)

    -- The two `except` clauses.
    abbrev pub handle : String → String → ℕ → ℕ → Exception → Action State (Option String)
    handle state code again clock e s = elim (message_of e) [
      | none ↦ (err (callback_error http "OAuth callback processing failed: " e), s)
      | some message ↦ handle_value_error state code again clock message s
    ]

    abbrev pub after_finish :
        String → String → ℕ → ℕ → Result String × State → Result (Option String) × State
    after_finish state code again clock (ok session_id, s) = (ok (resolved session_id s), s)
    after_finish state code again clock (err e, s) = handle state code again clock e s

    unfoldable pub google_session :
        String → String → String → ℕ → ℕ → String → ℕ → ℕ → Action State (Option String)
    google_session state code binding now read session_id again clock = in_session (λ s.
        after_finish state code again clock (
          finish_callback tokens adapter http ttl_seconds state code now binding read session_id s))

    module _ (sha256_hex : String → String) (ring : Ring jose) where
      -- `issue_bundle`, which finds no user under `None`.
      abbrev pub bundle_for : Option String → String → ℕ → ℕ → Session (TokenBundle jose.Token)
      bundle_for none raw granted signed = raise (http_exception 401 "active user required")
      bundle_for (some user_id) raw granted signed =
          issue_bundle sha256_hex jose ring user_id "lab-client" none raw granted signed

      -- `/oauth/google/callback`
      unfoldable pub google_callback :
          String
          → String
          → Option String
          → ℕ
          → ℕ
          → String
          → ℕ
          → ℕ
          → String
          → ℕ
          → ℕ
          → Action State (TokenRedirect jose.Token)
      google_callback state code cookie now read session_id again clock raw granted signed = do
        binding ← lift (require_cookie cookie)
        user_id ← google_session state code binding now read session_id again clock
        bundle ← on_db (bundle_for user_id raw granted signed)
        pure (token_redirect bundle)
