-- ===== src/ExternalIdp/Naver.antt =====
-- `NaverAdapter` of src/temis_sso/external_idp/naver.py. An action's state is the number of requests
-- that were sent.
use temis_sso_lab.Base.{
  ℕ, String, Bool, false, not, ◌||◌, ◌==◌, nat_eq, none, some, [], ◌∷◌, if◌then◌else◌, Result, ok,
  err, value_error, Action, ◌>>=◌, lift, pure,
}
use temis_sso_lab.Base.Json.{Value, Fields, get, has_key, as_str}
use temis_sso_lab.Base.Text.{append, strip}
use temis_sso_lab.Jose.{is_text}
use temis_sso_lab.ExternalIdp.Flows.{ExternalFlow}
use temis_sso_lab.ExternalIdp.Models.{AuthorizationRequest, ExternalIdentity}
use temis_sso_lab.Http.{
  bearer, accept_json, Http, get_of, post_of, send, text_of, as_dict, as_payload, dict_or_empty,
  is_truthy, as_name,
}

pub record NaverAdapter : Type 0 where
  pub client_id : String
  pub client_secret : String
  pub http : Http

abbrev pub authorize_url : String
authorize_url = "https://nid.naver.com/oauth2.0/authorize"

abbrev pub token_url : String
token_url = "https://nid.naver.com/oauth2.0/token"

abbrev pub profile_url : String
profile_url = "https://openapi.naver.com/v1/nid/me"

abbrev pub revoke_url : String
revoke_url = "https://nid.naver.com/oauth2.0/revoke"

module _ (adapter : NaverAdapter) where
  open adapter use {client_id, client_secret, http}

  unfoldable pub authorization_request : ExternalFlow → AuthorizationRequest
  authorization_request flow = record {
    url = authorize_url;
    parameters =
        ("client_id", client_id)
        ∷ ("redirect_uri", flow.redirect_uri)
        ∷ ("response_type", "code")
        ∷ ("scope", "email profile")
        ∷ ("state", flow.state)
        ∷ [];
  }

  -- What the token endpoint's answer is taken for.
  abbrev pub token_of : Fields → Result String
  token_of payload =
      if has_key payload "error"
      then err (
          value_error
            (append "Naver token endpoint rejected: " (text_of http (get payload "error"))))
      else elim (as_name (get payload "access_token")) [
        | none ↦ err (value_error "Token response is missing access_token")
        | some token ↦ ok token
      ]

  unfoldable pub exchange_code : String → String → Action ℕ String
  exchange_code code state = do
    response ← send http (
        post_of token_url
          (("grant_type", "authorization_code")
            ∷ ("client_id", client_id)
            ∷ ("client_secret", client_secret)
            ∷ ("code", code)
            ∷ ("state", state)
            ∷ [])
          accept_json)
    payload ← lift response.json
    fields ← lift (as_payload payload)
    lift (token_of fields)

  abbrev pub naver_identity : Value → Value → Result ExternalIdentity
  naver_identity subject email =
      if not (is_truthy subject) || strip (text_of http subject) == ""
      then err (value_error "response.id")
      else ok (record {
        provider = "naver";
        subject = text_of http subject;
        email = as_str email;
        email_verified = false;
      })

  abbrev pub profile_identity : Fields → Result ExternalIdentity
  profile_identity profile = naver_identity (get profile "id") (get profile "email")

  -- What the profile endpoint's answer is taken for.
  abbrev pub identity_of : Fields → Result ExternalIdentity
  identity_of payload =
      if is_text (get payload "resultcode") "00"
      then profile_identity (dict_or_empty (get payload "response"))
      else err (
          value_error (
            append "Naver provider rejected: resultcode="
              (text_of http (get payload "resultcode"))))

  unfoldable pub fetch_identity : String → Action ℕ ExternalIdentity
  fetch_identity access_token = do
    response ← send http (get_of profile_url (bearer access_token))
    payload ← lift response.json
    fields ← lift (as_dict payload)
    lift (identity_of fields)

  unfoldable pub revoke : String → Action ℕ Bool
  revoke access_token = do
    response ← send http (
        post_of revoke_url
          (("client_id", client_id)
            ∷ ("client_secret", client_secret)
            ∷ ("token", access_token)
            ∷ ("token_type_hint", "access_token")
            ∷ [])
          [])
    pure (nat_eq response.status_code 200)
