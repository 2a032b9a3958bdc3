-- ===== src/Tests/Flows.antt =====
-- The authorization code flow at concrete inputs.
use temis_sso_lab.Base.Text.{append, length, lower, strip}
use temis_sso_lab.Tokens.Access.{issue_access}
use temis_sso_lab.Tokens.Refresh.{issue_refresh}
use temis_sso_lab.KeyRing.{sign_claims}
use temis_sso_lab.Persistence.{add_grant, Db, create, add_role}
use temis_sso_lab.ClientPolicy.{client_by_id, client_of, require_client}
use temis_sso_lab.OauthState.{
  put, set, peek, remove, getdel, store_key, take, pkce_challenge, Digests, Dict, item,
}
use temis_sso_lab.Api.Tokens.{TokenBundle, issue_bundle}
use temis_sso_lab.Api.Oauth.Code.{Granted, token-Granted, token_once}
use temis_sso_lab.Tests.Bundles.{bundle_or, ring}
use temis_sso_lab.Tests.Fixtures.{SignedClaims, toy_jose, toy_sha, small_db}
use temis_sso_lab.Base.{
  select_where, delete_where, find, any, ok, err, none, http_exception, ◌≡◌, refl, [], ◌∷◌, arith,
  String,
}
use temis_sso_lab.FakeProvider.{account_of}
use temis_sso_lab.Api.Oauth.{
  State, TokenRequest, token_request, token, oauth_user, authorize, fake_authorize,
  provider_callback,
}
use temis_sso_lab.Api.Oauth.Flow.{token-authorize}
use temis_sso_lab.Api.Oauth.Callback.{provider_callback_once}

abbrev pub digests : Digests
digests = record { sha256_hex = toy_sha; sha256_b64url = λ s. s }

abbrev long_verifier : String
long_verifier = "abcdefghijklmnopqrstuvwxyz0123456789abcdefghij"

abbrev request : TokenRequest
request = record {
  grant_type = "authorization_code";
  client_id = "temis-web";
  redirect_uri = "http://localhost:3000/auth/callback";
  code = "c1";
  code_verifier = long_verifier;
}

abbrev form : Dict
form =
    ("grant_type", "authorization_code")
    ∷ ("client_id", "temis-web")
    ∷ ("redirect_uri", "http://localhost:3000/auth/callback")
    ∷ ("code", "c1")
    ∷ ("code_verifier", long_verifier)
    ∷ []

abbrev before : State
before = record { db = small_db; redis = [] }

abbrev new_db : Db
new_db = (oauth_user "learner-001" "user" "u9" small_db).1

form-parsed : token_request form ≡ ok request
unfolding token_request item length
form-parsed = refl

abbrev pending : State
pending =
    (authorize digests "temis-web" "http://localhost:3000/auth/callback" "sixteen-letters-" "code"
      long_verifier "S256" "p1" 1 before).1

abbrev chosen : State
chosen = (fake_authorize digests "p1" "learner" "g1" 2 pending).1

abbrev called : State
called = (provider_callback digests "p1" "g1" "u9" "c1" 3 chosen).1

token-authorize_example :
    ((provider_callback digests "p1" "g1" "u9" "c1" 3 chosen).0
      ≡ ok (record {
        url = "http://localhost:3000/auth/callback";
        query = ("code", "c1") ∷ ("state", "sixteen-letters-") ∷ [];
      }))
    × ((token digests toy_jose ring form "r1" 4 5 6 called).0
        ≡ (issue_bundle toy_sha toy_jose ring "u9" "temis-lab" none "r1" 5 6 new_db).0)
unfolding oauth_user create add_role any find lower strip require_client account_of length item
    pkce_challenge
token-authorize_example =
    token-authorize digests toy_jose ring "http://localhost:3000/auth/callback" "sixteen-letters-"
      long_verifier "learner" "p1" "g1" "c1" "u9" "u9" "r1"
      (record { provider = "lab-provider"; provider_subject = "learner-001" }) form 1 2 3 4 5 6
      before new_db refl refl refl refl (omega arith) (omega arith) (omega arith) refl form-parsed

provider_callback_once_example :
    (provider_callback digests "p1" "g2" "u9" "c2" 4 called).0
    ≡ err (http_exception 400 "invalid oauth transaction")
provider_callback_once_example =
    provider_callback_once digests "p1" "g1" "u9" "c1" 3 "g2" "u9" "c2" 4 chosen

abbrev bought : State
bought = (token digests toy_jose ring form "r1" 4 5 6 called).1

token_once_example :
    token digests toy_jose ring form "r2" 7 8 9 bought
    ≡ (err (http_exception 401 "invalid authorization code"), bought)
token_once_example =
    token_once digests toy_jose ring form form request request "r1" "r2" 4 5 6 7 8 9 called
      form-parsed form-parsed refl

abbrev ann_grant : Dict
ann_grant =
    ("user_id", "ann")
    ∷ ("client_id", "temis-web")
    ∷ ("redirect_uri", "http://localhost:3000/auth/callback")
    ∷ ("code_challenge", long_verifier)
    ∷ []

abbrev held : State
held = record { db = small_db; redis = (put digests "authorization-code" ann_grant 60 "c1" 3 []).1 }

abbrev ann_bundle : TokenBundle SignedClaims
ann_bundle = elim (token digests toy_jose ring form "r1" 4 5 6 held).0 [
  | ok b ↦ b
  | err e ↦ bundle_or
]

abbrev ann_state : State
ann_state = (token digests toy_jose ring form "r1" 4 5 6 held).1

token-Granted_example : Granted digests toy_jose ring request 4 6 held ann_bundle ann_state
unfolding token token_request item length take put set peek remove getdel store_key append
    pkce_challenge client_by_id client_of issue_bundle find any select_where delete_where add_grant
    issue_access sign_claims issue_refresh
token-Granted_example =
    token-Granted digests toy_jose ring form request "r1" 4 5 6 held ann_bundle ann_state
      form-parsed refl
