-- ===== src/ExternalIdp/Kakao.antt =====
-- src/temis_sso/external_idp/kakao.py: `KakaoAdapter`, and the ID tokens of `KakaoOidcAdapter`. An
-- action's state is the number of requests that were sent.
pub mod Oidc
use temis_sso_lab.Base.{
  ℕ, String, Bool, true, not, ◌&&◌, ◌==◌, nat_eq, Option, none, some, List, [], ◌∷◌, ◌++◌,
  if◌then◌else◌, Result, ok, err, value_error, attribute_error, invalid_token, Action, ◌>>=◌, lift,
  pure, or_raise,
}
use temis_sso_lab.Base.Json.{
  Value, Fields, Items, nil, cons, obj, int, get, has_key, as_str, as_int, is_true, is_false,
}
use temis_sso_lab.Base.Text.{append}
use temis_sso_lab.Jose.{Jose, Header, Checks, is_text}
use temis_sso_lab.ExternalIdp.Flows.{ExternalFlow}
use temis_sso_lab.ExternalIdp.Models.{AuthorizationRequest, ExternalIdentity}
use temis_sso_lab.Http.{
  bearer, accept_json, Http, get_of, post_of, send, text_of, as_dict, as_payload, dict_or_empty,
  items_of, as_name,
}

-- The types of the last two arguments are left open, since Python does not check them.
pub record KakaoAdapter (H S : Type 0) : Type 0 where
  pub client_id : String
  pub http : H
  pub client_secret : S

abbrev pub authorization_endpoint : String
authorization_endpoint = "https://kauth.kakao.com/oauth/authorize"

abbrev pub token_endpoint : String
token_endpoint = "https://kauth.kakao.com/oauth/token"

abbrev pub profile_endpoint : String
profile_endpoint = "https://kapi.kakao.com/v2/user/me"

abbrev pub logout_endpoint : String
logout_endpoint = "https://kapi.kakao.com/v1/user/logout"

abbrev pub unlink_endpoint : String
unlink_endpoint = "https://kapi.kakao.com/v1/user/unlink"

unfoldable pub authorization_request :
    {H S : Type 0} → KakaoAdapter H S → ExternalFlow → AuthorizationRequest
authorization_request adapter flow = record {
  url = authorization_endpoint;
  parameters =
      ("client_id", adapter.client_id)
      ∷ ("redirect_uri", flow.redirect_uri)
      ∷ ("response_type", "code")
      ∷ ("state", flow.state)
      ∷ ("code_challenge", flow.code_challenge)
      ∷ ("code_challenge_method", "S256")
      ∷ [];
}

module _ (adapter : KakaoAdapter Http (Option String)) where
  open adapter use {client_id, client_secret, http}

  -- `if self.client_secret`
  abbrev pub secret_field : Option String → List (String × String)
  secret_field none = []
  secret_field (some secret) = if secret == "" then [] else ("client_secret", secret) ∷ []

  abbrev pub token_of : Fields → Result String
  token_of payload =
      if has_key payload "error"
      then err (
          value_error
            (append "Kakao token endpoint rejected: " (text_of http (get payload "error"))))
      else elim (as_name (get payload "access_token")) [
        | none ↦ err (value_error "Kakao token response is missing access_token")
        | some token ↦ ok token
      ]

  unfoldable pub exchange_code : String → ExternalFlow → Action ℕ String
  exchange_code code flow = do
    response ← send http (
        post_of token_endpoint
          ((("grant_type", "authorization_code")
              ∷ ("client_id", client_id)
              ∷ ("redirect_uri", flow.redirect_uri)
              ∷ ("code", code)
              ∷ ("code_verifier", flow.code_verifier)
              ∷ [])
            ++ secret_field client_secret)
          accept_json)
    payload ← lift response.json
    fields ← lift (as_payload payload)
    lift (token_of fields)

  abbrev pub is_usable : Fields → Bool
  is_usable account =
      is_false (get account "email_needs_agreement")
      && is_true (get account "is_email_valid")
      && is_true (get account "is_email_verified")
      && (elim (as_str (get account "email")) [ none ↦ Bool.false | some _ ↦ true ])

  abbrev pub identity_with : ℕ → Fields → ExternalIdentity
  identity_with raw_subject account = record {
    provider = "kakao";
    subject = text_of http (int raw_subject);
    email = if is_usable account then as_str (get account "email") else none;
    email_verified = is_usable account;
  }

  abbrev pub identity_of : Fields → Result ExternalIdentity
  identity_of payload = elim (as_int (get payload "id")) [
    | none ↦ err (value_error "Kakao REST id is missing")
    | some raw_subject ↦
        ok (identity_with raw_subject (dict_or_empty (get payload "kakao_account")))
  ]

  unfoldable pub fetch_identity : String → Action ℕ ExternalIdentity
  fetch_identity access_token = do
    response ← send http (get_of profile_endpoint (bearer access_token))
    payload ← lift response.json
    fields ← lift (as_dict payload)
    lift (identity_of fields)

  -- `_account_operation`
  abbrev pub account_operation : String → String → Action ℕ Bool
  account_operation endpoint access_token = do
    response ← send http (post_of endpoint [] (bearer access_token))
    pure (nat_eq response.status_code 200)

  unfoldable pub logout : String → Action ℕ Bool
  logout access_token = account_operation logout_endpoint access_token

  unfoldable pub unlink : String → Action ℕ Bool
  unlink access_token = account_operation unlink_endpoint access_token
