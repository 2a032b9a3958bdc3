-- ===== src/Bff/TokenClient.antt =====
-- `OAuthTokenClient` of src/temis_bff/oauth.py, the client of the token endpoint that
-- `BffOAuthFlow.complete` is given. An action's state is the number of requests that were sent.
use temis_sso_lab.Base.{
  ℕ, String, not, nat_eq, Option, none, some, [], ◌∷◌, oauth_failed, Action, ◌>>=◌, ◌>>◌, lift,
  raise_if, or_raise,
}
use temis_sso_lab.Base.Json.{Value, Fields, str, obj, field, end}
use temis_sso_lab.Http.{Http, post_of, send_only}
use temis_sso_lab.OauthState.{Dict}

pub record TokenClient : Type 0 where
  pub endpoint : String
  pub client_id : String
  pub redirect_uri : String

-- The payload as a dictionary of texts, if every value is one.
unfoldable pub all_texts : Fields → Option Dict
all_texts end = some []
all_texts (field key (str s) fields) = elim (all_texts fields) [
  | none ↦ none
  | some rest ↦ some ((key, s) ∷ rest)
]
all_texts (field key _ fields) = none

abbrev pub texts_of : Value → Option Dict
texts_of (obj fields) = all_texts fields
texts_of _ = none

-- `exchange`
unfoldable pub exchange : Http → TokenClient → String → String → Action ℕ Dict
exchange http client code verifier = do
  response ← send_only http (
      post_of client.endpoint
        (("grant_type", "authorization_code")
          ∷ ("client_id", client.client_id)
          ∷ ("redirect_uri", client.redirect_uri)
          ∷ ("code", code)
          ∷ ("code_verifier", verifier)
          ∷ [])
        [])
  raise_if (not (nat_eq response.status_code 200))
      (oauth_failed "token endpoint rejected authorization code")
  payload ← lift response.json
  or_raise (texts_of payload) (oauth_failed "token response is invalid")
