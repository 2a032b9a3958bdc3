-- ===== src/Api/Oauth.antt =====
-- The authorization code flow of the lab in src/temis_sso/api/oauth.py. What `parse_qs` makes of a
-- body is the list of its first values; a redirect is its target with the query's pairs.
pub mod Code
pub mod Callback
pub mod Steps
pub mod Flow
use Prim.Native.String.{◌++◌ as append_text}
use temis_sso_lab.Base.{
  ℕ, String, Bool, false, Option, none, some, [], ◌∷◌, ◌&&◌, ◌||◌, not, ◌==◌, leb, if◌then◌else◌,
  Result, ok, err, Exception, http_exception, value_error, Action, ◌>>=◌, ◌>>◌, pure, raise, lift,
  modify, raise_if,
}
use temis_sso_lab.Base.Text.{length}
use temis_sso_lab.Persistence.{
  User, Db, Session, session_scope, by_email, create, modify_user, add_role,
}
use temis_sso_lab.Jose.{Jose}
use temis_sso_lab.KeyRing.{Ring}
use temis_sso_lab.ClientPolicy.{Policy, require_client, client_by_id}
use temis_sso_lab.OauthState.{
  Redis, Dict, Digests, OAuthTransaction, item, with_item, pkce_challenge, begin, put, take,
  consume_oauth,
}
use temis_sso_lab.FakeProvider.{authorize_account, exchange}
use temis_sso_lab.Api.Tokens.{TokenBundle, issue_bundle}

-- The two stores that the handlers share.
pub record State : Type 0 where
  pub db : Db
  pub redis : Redis Dict

abbrev in_db : {A : Type 0} → State → Result A × Db → Result A × State
in_db s (r, db) = (r, record s { db = db })

abbrev pub on_db : {A : Type 0} → Session A → Action State A
on_db m s = in_db s (m s.db)

abbrev in_redis : {A : Type 0} → State → Result A × Redis Dict → Result A × State
in_redis s (r, redis) = (r, record s { redis = redis })

abbrev pub on_redis : {A : Type 0} → Action (Redis Dict) A → Action State A
on_redis m s = in_redis s (m s.redis)

pub record Redirect : Type 0 where
  pub url : String
  pub query : Dict

pub record TokenRequest : Type 0 where
  pub grant_type : String
  pub client_id : String
  pub redirect_uri : String
  pub code : String
  pub code_verifier : String

-- `Field(min_length=..., max_length=...)`
abbrev pub is_within : ℕ → ℕ → String → Bool
is_within least most text = leb least (length text) && leb (length text) most

-- `TokenRequest(**...)`: pydantic wants every field, and the length of the verifier.
unfoldable pub token_request : Dict → Result TokenRequest
unfolding length
token_request form = with_item form "grant_type" (λ grant_type.
    with_item form "client_id" (λ client_id. with_item form "redirect_uri" (λ redirect_uri.
      with_item form "code" (λ code. with_item form "code_verifier" (λ code_verifier.
        if is_within 43 128 code_verifier
        then ok (record {
          grant_type = grant_type;
          client_id = client_id;
          redirect_uri = redirect_uri;
          code = code;
          code_verifier = code_verifier;
        })
        else err (value_error "code_verifier"))))))

abbrev pub as_bad_request : {A : Type 0} → Result A → Result A
as_bad_request (ok a) = ok a
as_bad_request (err e) = err (http_exception 400 "invalid token request")

-- `except ValueError as error: raise HTTPException(400, str(error))`
abbrev pub value_error_400 : Exception → Exception
value_error_400 (value_error message) = http_exception 400 message
value_error_400 e = e

abbrev pub catch_400 : {A S : Type 0} → Result A × S → Result A × S
catch_400 (ok a, s) = (ok a, s)
catch_400 (err e, s) = (err (value_error_400 e), s)

abbrev pub provider_email : String → String
provider_email subject = append_text subject "@oauth.lab.invalid"

abbrev pub set_active : User → User
set_active u = record u { status = "active" }

-- `_oauth_user`; `user_id` is the id that a new account gets.
unfoldable pub oauth_user : String → String → String → Session String
oauth_user subject default_role user_id = session_scope (λ db.
    elim (by_email (provider_email subject) db) [
      | some u ↦ (ok u.id, db)
      | none ↦
          (do
            user ← create user_id (provider_email subject) none
            modify (modify_user user.id set_active)
            added ← add_role user.id default_role
            pure user.id)
            db
    ])

abbrev pub grant_value : String → Policy → OAuthTransaction → Dict
grant_value user_id policy transaction =
    ("user_id", user_id)
    ∷ ("client_id", policy.client_id)
    ∷ ("redirect_uri", transaction.redirect_uri)
    ∷ ("code_challenge", transaction.code_challenge)
    ∷ []

module _ (digests : Digests) where
  open digests use {sha256_hex}

  -- `/oauth/authorize`, behind the checks of the lengths of `state` and `code_challenge`.
  unfoldable pub authorize :
      String → String → String → String → String → String → String → ℕ → Action State Redirect
  authorize client_id redirect_uri state response_type code_challenge method raw now s =
      if not (is_within 16 256 state) || not (is_within 43 128 code_challenge)
      then (err (http_exception 422 "validation"), s)
      else if not (response_type == "code") || not (method == "S256")
      then (err (http_exception 400 "authorization code with S256 required"), s)
      else (do
        checked ← (λ s. catch_400 (require_client client_id redirect_uri, s))
        provider_state ← on_redis (
            begin digests
              (record {
                client_id = client_id;
                redirect_uri = redirect_uri;
                code_challenge = code_challenge;
                provider = "lab-provider";
                client_state = state;
              })
              raw now)
        pure (record {
          url = "/oauth/fake-provider/authorize";
          query = ("state", provider_state) ∷ [];
        }))
          s

  -- `/oauth/fake-provider/authorize`
  unfoldable pub fake_authorize : String → String → String → ℕ → Action State Redirect
  fake_authorize state account raw now = do
    code ← (λ s. catch_400 (on_redis (authorize_account digests state account raw now) s))
    pure (record {
      url = "/oauth/provider/callback";
      query = ("state", state) ∷ ("code", code) ∷ [];
    })

  -- The condition of `provider_callback`, negated, and the subject.
  abbrev pub agreed : String → OAuthTransaction → Dict → Result Bool
  agreed state transaction result = with_item result "state" (λ saved.
      if saved == state
      then with_item result "provider" (λ provider. ok (provider == transaction.provider))
      else ok false)

  abbrev pub finish_callback :
      String → String → String → ℕ → OAuthTransaction → Dict → Action State Redirect
  finish_callback state new_id raw now transaction result = do
    same ← lift (agreed state transaction result)
    raise_if (not same) (http_exception 400 "invalid oauth transaction")
    policy ← lift (require_client transaction.client_id transaction.redirect_uri)
    subject ← lift (item result "provider_subject")
    user_id ← on_db (oauth_user subject policy.default_role new_id)
    auth_code ←
        on_redis
          (put digests "authorization-code" (grant_value user_id policy transaction) 60 raw now)
    pure (record {
      url = transaction.redirect_uri;
      query = ("code", auth_code) ∷ ("state", transaction.client_state) ∷ [];
    })

  abbrev pub callback_with :
      String → String → String → ℕ → Option OAuthTransaction → Option Dict → Action State Redirect
  callback_with state new_id raw now none result =
      raise (http_exception 400 "invalid oauth transaction")
  callback_with state new_id raw now (some transaction) none =
      raise (http_exception 400 "invalid oauth transaction")
  callback_with state new_id raw now (some transaction) (some result) =
      finish_callback state new_id raw now transaction result

  -- `/oauth/provider/callback`
  unfoldable pub provider_callback : String → String → String → String → ℕ → Action State Redirect
  unfolding consume_oauth exchange
  provider_callback state code new_id raw now = do
    transaction ← on_redis (consume_oauth digests state now)
    result ← on_redis (exchange digests code now)
    callback_with state new_id raw now transaction result

  -- `valid` of `token`, for a grant that was found.
  abbrev pub is_valid : TokenRequest → Dict → Result Bool
  is_valid payload grant =
      if not (payload.grant_type == "authorization_code")
      then ok false
      else with_item grant "client_id" (λ client_id.
        if not (client_id == payload.client_id)
        then ok false
        else with_item grant "redirect_uri" (λ redirect_uri.
          if not (redirect_uri == payload.redirect_uri)
          then ok false
          else with_item grant "code_challenge"
              (λ challenge. ok (pkce_challenge digests payload.code_verifier == challenge))))

  module _ (jose : Jose) where
    open jose use {Token}

    abbrev pub token_with :
        Ring jose → TokenRequest → String → ℕ → ℕ → Option Dict → Action State (TokenBundle Token)
    token_with ring payload raw granted now none =
        raise (http_exception 401 "invalid authorization code")
    token_with ring payload raw granted now (some grant) = do
      valid ← lift (is_valid payload grant)
      raise_if (not valid) (http_exception 401 "invalid authorization code")
      policy ← lift (client_by_id payload.client_id)
      user_id ← lift (item grant "user_id")
      on_db (issue_bundle sha256_hex jose ring user_id policy.audience none raw granted now)

    -- `/oauth/token`
    unfoldable pub token : Ring jose → Dict → String → ℕ → ℕ → ℕ → Action State (TokenBundle Token)
    unfolding take pkce_challenge
    token ring form raw taken granted now = do
      payload ← lift (as_bad_request (token_request form))
      grant ← on_redis (take digests "authorization-code" payload.code taken)
      token_with ring payload raw granted now grant
