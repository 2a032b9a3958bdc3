-- ===== src/ExternalIdp/Callback.antt =====
-- `verify_google_id_token` and `GoogleCallbackService` of src/temis_sso/external_idp/callback.py.
pub mod Verified
pub mod Finished
use temis_sso_lab.Base.{
  ℕ, String, Bool, false, not, ◌==◌, Option, none, some, [], ◌∷◌, List, if◌then◌else◌, Result, ok,
  err, Exception, value_error, invalid_token, Action, ◌>>=◌, lift, pure, or_raise,
}
use temis_sso_lab.Base.Json.{Value, Fields, arr, get, as_str, is_true}
use temis_sso_lab.Jose.{Jose, Header, Checks, is_text}
use temis_sso_lab.Persistence.{Db}
use temis_sso_lab.ExternalIdp.Flows.{Flows, consume}
use temis_sso_lab.ExternalIdp.Stores.{Entry, resolve_link, issue_session}
use temis_sso_lab.ExternalIdp.Models.{ProviderMetadata, ExternalIdentity}
use temis_sso_lab.Http.{Http, post_of, send_only, is_success, as_name}
use temis_sso_lab.ExternalIdp.Google.{GoogleOidcAdapter, discover, exchange_code}
use temis_sso_lab.ExternalIdp.Jwks.{on_requests as keys_requests, Keys, key}

-- Which of the errors `jwt.decode` raises.
pub data Refusal : Type 0 where
  invalid_issuer invalid_audience invalid_otherwise : Refusal

abbrev pub refused : Refusal → Exception
refused invalid_issuer = value_error "ID token issuer mismatch"
refused invalid_audience = value_error "ID token audience mismatch"
refused invalid_otherwise = value_error "invalid ID token"

abbrev pub signed_by : String → Option String → Result String
signed_by alg none = err (value_error "ID token algorithm or kid is invalid")
signed_by alg (some kid) =
    if alg == "RS256" then ok kid else err (value_error "ID token algorithm or kid is invalid")

abbrev pub kid_of : Option Header → Result String
kid_of none = err (invalid_token "header")
kid_of (some header) = signed_by header.alg header.kid

abbrev pub checks : String → String → Checks
checks issuer audience = record {
  issuer = some issuer;
  audience = audience;
  required = "exp" ∷ "iat" ∷ "iss" ∷ "aud" ∷ "sub" ∷ "nonce" ∷ [];
}

-- `isinstance(claims.get("aud"), list) and claims.get("azp") != audience`
abbrev pub is_unauthorized : String → Value → Value → Bool
is_unauthorized audience (arr _) azp = not (is_text azp audience)
is_unauthorized audience _ azp = false

abbrev pub google_subject : Fields → String → ExternalIdentity
google_subject claims subject = record {
  provider = "google";
  subject = subject;
  email = as_str (get claims "email");
  email_verified = is_true (get claims "email_verified");
}

-- The checks after `jwt.decode`.
abbrev pub identity_of : String → String → Fields → Result ExternalIdentity
identity_of audience expected_nonce claims =
    if not (is_text (get claims "nonce") expected_nonce)
    then err (value_error "ID token nonce mismatch")
    else if is_unauthorized audience (get claims "aud") (get claims "azp")
    then err (value_error "ID token authorized party mismatch")
    else elim (as_name (get claims "sub")) [
      | none ↦ err (value_error "ID token subject is missing")
      | some subject ↦ ok (google_subject claims subject)
    ]

-- What a callback uses: the flows, the sessions, the key sets with the number of requests, and the
-- database.
pub record State : Type 0 where
  pub flows : Flows
  pub sessions : List (Entry String)
  pub keys : Keys
  pub db : Db

abbrev in_flows : {A : Type 0} → State → Result A × Flows → Result A × State
in_flows s (r, flows) = (r, record s { flows = flows })

abbrev pub on_flows : {A : Type 0} → Action Flows A → Action State A
on_flows m s = in_flows s (m s.flows)

abbrev in_sessions : {A : Type 0} → State → Result A × List (Entry String) → Result A × State
in_sessions s (r, sessions) = (r, record s { sessions = sessions })

abbrev pub on_sessions : {A : Type 0} → Action (List (Entry String)) A → Action State A
on_sessions m s = in_sessions s (m s.sessions)

abbrev in_keys : {A : Type 0} → State → Result A × Keys → Result A × State
in_keys s (r, keys) = (r, record s { keys = keys })

abbrev pub on_keys : {A : Type 0} → Action Keys A → Action State A
on_keys m s = in_keys s (m s.keys)

abbrev pub on_requests : {A : Type 0} → Action ℕ A → Action State A
on_requests m = on_keys (keys_requests m)

abbrev pub resolve_identity : ExternalIdentity → Action State (Option String)
resolve_identity identity s = (ok (resolve_link identity.provider identity.subject s.db), s)

-- What a callback takes of PyJWT: a JWK as a key, and which error a decoding raises.
pub record IdTokens : Type 1 where
  pub jose : Jose
  pub from_jwk : Fields → Result jose.PublicKey
  pub refusal : String → jose.PublicKey → Checks → ℕ → Refusal

module _ (tokens : IdTokens) where
  open tokens use {jose, from_jwk, refusal}

  abbrev pub decoded : String → jose.PublicKey → Checks → ℕ → Option Fields → Result Fields
  decoded encoded key checks clock none = err (refused (refusal encoded key checks clock))
  decoded encoded key checks clock (some claims) = ok claims

  -- `verify_google_id_token`; `clock` is the time that `jwt.decode` reads.
  unfoldable pub verify_google_id_token :
      Http → String → ProviderMetadata → String → String → ℕ → ℕ → Action Keys ExternalIdentity
  verify_google_id_token http encoded metadata audience expected_nonce now clock = do
    kid ← lift (kid_of (jose.header (jose.read encoded)))
    jwk ← key http metadata now kid
    public_key ← lift (from_jwk jwk)
    claims ← lift (
        decoded encoded public_key (checks metadata.issuer audience) clock
          (jose.decode (jose.read encoded) public_key (checks metadata.issuer audience) clock))
    lift (identity_of audience expected_nonce claims)

  module _ (adapter : GoogleOidcAdapter) (http : Http) (ttl_seconds : ℕ) where
    -- `finish_callback`; `session_id` is the id that the session store draws.
    unfoldable pub finish_callback : String → String → ℕ → String → ℕ → String → Action State String
    finish_callback state code now browser_binding clock session_id = do
      flow ← on_flows (consume ttl_seconds state now browser_binding)
      metadata ← on_requests (discover adapter)
      encoded ← on_requests (exchange_code adapter metadata code flow)
      identity ←
          on_keys
            (verify_google_id_token http encoded metadata adapter.client_id flow.nonce now clock)
      owner ← resolve_identity identity
      user_id ← or_raise owner (value_error "external identity is not linked")
      on_sessions (issue_session user_id session_id)

-- `revoke`: a status that is no success is not an error here.
unfoldable pub revoke : Http → ProviderMetadata → String → Action ℕ Bool
revoke http metadata provider_token = do
  response ←
      send_only http (post_of metadata.revocation_endpoint (("token", provider_token) ∷ []) [])
  pure (is_success response)
