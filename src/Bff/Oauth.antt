-- ===== src/Bff/Oauth.antt =====
-- src/temis_bff/oauth.py: the login of a browser, with one transaction for each state.
use temis_sso_lab.Base.{
  ℕ, String, Bool, ◌&&◌, ◌==◌, Option, none, some, [], ◌∷◌, any, if◌then◌else◌, Result, ok, err,
  Exception, oauth_failed, Action, ◌>>=◌, ◌>>◌, pure, raise, lift, rethrow, modify,
}
use temis_sso_lab.Base.Text.{append}
use temis_sso_lab.OauthState.{Redis, Dict, Digests, set, getdel}
use temis_sso_lab.Bff.Security.{Urls, safe_return_path}

pub record LoginTransaction : Type 0 where
  pub verifier : String
  pub return_to : String

pub record Flow : Type 0 where
  pub authorize_endpoint : String
  pub client_id : String
  pub redirect_uri : String

-- `{...} <= tokens.keys()`
abbrev pub has_name : Dict → String → Bool
has_name tokens name = any (λ (e : String × String). e.0 == name) tokens

abbrev pub is_complete : Dict → Bool
is_complete tokens =
    has_name tokens "user_id" && has_name tokens "access_token" && has_name tokens "refresh_token"

-- An error of the exchange that is not of the flow's own.
abbrev pub as_failed : Exception → Exception
as_failed (oauth_failed reason) = oauth_failed reason
as_failed e = oauth_failed "token exchange failed"

module _ (digests : Digests) where
  open digests use {sha256_hex, sha256_b64url}

  abbrev pub login_key : String → String
  unfolding append
  login_key state = append "temis-bff:oauth:" (sha256_hex state)

  abbrev pub authorize_query : Flow → String → String → Dict
  authorize_query flow state verifier =
      ("client_id", flow.client_id)
      ∷ ("redirect_uri", flow.redirect_uri)
      ∷ ("response_type", "code")
      ∷ ("code_challenge", sha256_b64url verifier)
      ∷ ("code_challenge_method", "S256")
      ∷ ("state", state)
      ∷ []

  -- `begin`, with the state and the verifier that are drawn: the state, and the endpoint with its
  -- query.
  unfoldable pub begin_login :
      Urls
      → Flow
      → String
      → String
      → String
      → ℕ
      → Action (Redis LoginTransaction) (String × String × Dict)
  begin_login urls flow return_to state verifier now = do
    path ← lift (safe_return_path urls return_to)
    modify (set (login_key state) (record { verifier = verifier; return_to = path }) 300 now)
    pure (state, flow.authorize_endpoint, authorize_query flow state verifier)

  abbrev pub check_complete : Result Dict → Result Dict
  check_complete (err e) = err e
  check_complete (ok tokens) =
      if is_complete tokens then ok tokens else err (oauth_failed "token response is incomplete")

  abbrev pub complete_with :
      String
      → (String → String → Result Dict)
      → Option LoginTransaction
      → Action (Redis LoginTransaction) (Dict × String)
  complete_with code exchange none = raise (oauth_failed "invalid or reused state")
  complete_with code exchange (some t) = do
    tokens ← (λ redis. rethrow as_failed (check_complete (exchange code t.verifier), redis))
    pure (tokens, t.return_to)

  -- `complete`
  unfoldable pub complete :
      String
      → String
      → (String → String → Result Dict)
      → ℕ
      → Action (Redis LoginTransaction) (Dict × String)
  complete state code exchange now = do
    found ← getdel (login_key state) now
    complete_with code exchange found
