-- ===== src/ExternalIdp/Google.antt =====
-- `GoogleOidcAdapter` of src/temis_sso/external_idp/google.py. An action's state is the number of
-- requests that were sent.
use temis_sso_lab.Base.{
  ℕ, String, ◌==◌, none, some, [], ◌∷◌, if◌then◌else◌, Result, ok, err, value_error, Action, ◌>>=◌,
  lift,
}
use temis_sso_lab.Base.Json.{Fields, get, has_key}
use temis_sso_lab.Base.Text.{has_text, lower}
use temis_sso_lab.ExternalIdp.Flows.{ExternalFlow}
use temis_sso_lab.ExternalIdp.Models.{ProviderMetadata, AuthorizationRequest, require_https}
use temis_sso_lab.Http.{
  accept_json, Http, Response, get_of, post_of, send, text_of, as_dict, as_name,
}

pub record GoogleOidcAdapter : Type 0 where
  pub client_id : String
  pub client_secret : String
  pub http : Http

abbrev pub discovery_url : String
discovery_url = "https://accounts.google.com/.well-known/openid-configuration"

abbrev pub expected_issuer : String
expected_issuer = "https://accounts.google.com"

module _ (adapter : GoogleOidcAdapter) where
  open adapter use {client_id, client_secret, http}

  -- `str(raw_json.get(key, ""))`
  abbrev pub entry : Fields → String → String
  entry raw_json key = if has_key raw_json key then text_of http (get raw_json key) else ""

  abbrev pub metadata_of : Fields → ProviderMetadata
  metadata_of raw_json = record {
    issuer = entry raw_json "issuer";
    authorization_endpoint = entry raw_json "authorization_endpoint";
    token_endpoint = entry raw_json "token_endpoint";
    userinfo_endpoint = entry raw_json "userinfo_endpoint";
    revocation_endpoint = entry raw_json "revocation_endpoint";
    jwks_uri = entry raw_json "jwks_uri";
  }

  -- `if metadata.issuer != self.expected_issuer`
  abbrev pub check_issuer : ProviderMetadata → Result ProviderMetadata
  check_issuer metadata =
      if metadata.issuer == expected_issuer
      then ok metadata
      else err (value_error "discovery issuer mismatch")

  unfoldable pub discover : Action ℕ ProviderMetadata
  discover = do
    response ← send http (get_of discovery_url [])
    payload ← lift response.json
    raw_json ← lift (as_dict payload)
    metadata ← lift (require_https (metadata_of raw_json))
    lift (check_issuer metadata)

  unfoldable pub authorization_request : ProviderMetadata → ExternalFlow → AuthorizationRequest
  authorization_request metadata flow = record {
    url = metadata.authorization_endpoint;
    parameters =
        ("client_id", client_id)
        ∷ ("redirect_uri", flow.redirect_uri)
        ∷ ("response_type", "code")
        ∷ ("scope", "openid email profile")
        ∷ ("state", flow.state)
        ∷ ("nonce", flow.nonce)
        ∷ ("code_challenge", flow.code_challenge)
        ∷ ("code_challenge_method", "S256")
        ∷ [];
  }

  abbrev pub id_token_of : Fields → Result String
  id_token_of payload = elim (as_name (get payload "id_token")) [
    | none ↦ err (value_error "token response is missing id_token")
    | some token ↦ ok token
  ]

  -- `"no-store" not in response.headers.get("Cache-Control", "").lower()`
  abbrev pub check_no_store : Response → Result (Unit {0})
  check_no_store response =
      if has_text (lower response.cache_control) "no-store"
      then ok tt
      else err (value_error "token response must be marked no-store")

  unfoldable pub exchange_code : ProviderMetadata → String → ExternalFlow → Action ℕ String
  exchange_code metadata code flow = do
    response ← send http (
        post_of metadata.token_endpoint
          (("grant_type", "authorization_code")
            ∷ ("code", code)
            ∷ ("redirect_uri", flow.redirect_uri)
            ∷ ("client_id", client_id)
            ∷ ("client_secret", client_secret)
            ∷ ("code_verifier", flow.code_verifier)
            ∷ [])
          accept_json)
    marked ← lift (check_no_store response)
    payload ← lift response.json
    fields ← lift (as_dict payload)
    lift (id_token_of fields)
