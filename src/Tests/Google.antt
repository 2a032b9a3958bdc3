-- ===== src/Tests/Google.antt =====
-- A login with Google, and a key set, at concrete inputs.
use temis_sso_lab.Base.{
  none, some, ok, err, [], ◌∷◌, refl, ◌≡◌, ◌==◌, if◌then◌else◌, http_exception, find, any, all,
  delete_where, select_where, Result,
}
use temis_sso_lab.Base.Text.{remove_prefix, length, lower, has_text, starts_with}
use temis_sso_lab.Base.Json.{Value, str, int, obj, arr, nil, cons, field, end, get, has_key}
use temis_sso_lab.Jose.{Jose, agrees, is_timely, is_plain}
use temis_sso_lab.Persistence.{add_grant, add_link}
use temis_sso_lab.KeyRing.{sign_claims}
use temis_sso_lab.Tokens.Access.{issue_access}
use temis_sso_lab.Tokens.Refresh.{issue_refresh}
use temis_sso_lab.ExternalIdp.Flows.{has_token_chars, consume}
use temis_sso_lab.ExternalIdp.Models.{ProviderMetadata, require_https, is_https}
use temis_sso_lab.ExternalIdp.Stores.{resolve_link, link_account, issue_session, resolve_session}
use temis_sso_lab.Http.{Request, Response}
use temis_sso_lab.ExternalIdp.Google.{GoogleOidcAdapter, discovery_url, discover, exchange_code}
use temis_sso_lab.ExternalIdp.Jwks.{key, refresh, dicts_of, max_age}
use temis_sso_lab.ExternalIdp.Callback.{
  State, IdTokens, invalid_otherwise, verify_google_id_token, finish_callback,
}
use temis_sso_lab.Api.Tokens.{issue_bundle}
use temis_sso_lab.Api.Identities.{TokenRedirect}
use temis_sso_lab.Api.Google.{google_session, google_callback}
use temis_sso_lab.Api.Google.Callback.{LoggedIn, google_callback-LoggedIn, google_callback_unlinked}
use temis_sso_lab.Base.{none, find}
use temis_sso_lab.ExternalIdp.Flows.{has_state}
use temis_sso_lab.Tests.Fixtures.{SignedClaims, toy_jose, toy_sha, small_db}
use temis_sso_lab.KeyRing.{active, Ring, write}
use temis_sso_lab.Tests.Externals.{flow, linked_db}
use temis_sso_lab.Tests.Providers.{page, http_of}

abbrev id_token : SignedClaims
id_token = record {
  claims = field "iss" (str "https://accounts.google.com") (
      field "aud" (str "gc") (
        field "sub" (str "g-1")
          (field "nonce" (str "n1") (field "exp" (int 1000) (field "iat" (int 0) end)))));
  key = 1;
  kid = "k1";
}

abbrev google_jose : Jose
google_jose = record toy_jose { read = λ s. id_token }

abbrev tokens : IdTokens
tokens = record {
  jose = google_jose;
  from_jwk = λ fields. ok 1;
  refusal = λ token key checks clock. invalid_otherwise;
}

abbrev ring : Ring google_jose
ring = record {
  records =
      (record {
        kid = "k1";
        state = active;
        published_at = 0;
        activated_at = some 0;
        retiring_at = none;
      })
      ∷ [];
  private_pem = write "k1" 1 (λ name. none);
  public_pem = write "k1" 1 (λ name. none);
}

abbrev provider : Value
provider = obj (
    field "issuer" (str "https://accounts.google.com") (
      field "authorization_endpoint" (str "https://g/a") (
        field "token_endpoint" (str "https://g/t") (
          field "userinfo_endpoint" (str "https://g/u") (
            field "revocation_endpoint" (str "https://g/r")
              (field "jwks_uri" (str "https://g/k") end))))))

abbrev google_answer : Request → Result Response
google_answer r =
    if r.url == discovery_url
    then ok (page provider)
    else if r.url == "https://g/t"
    then ok (page (obj (field "id_token" (str "id-token") end)))
    else ok (page (obj (field "keys" (arr (cons (obj (field "kid" (str "k1") end)) nil)) end)))

abbrev google : GoogleOidcAdapter
google = record { client_id = "gc"; client_secret = "s"; http = http_of google_answer }

abbrev started : State
started = record {
  flows = flow ∷ [];
  sessions = [];
  keys = record { entries = []; requests = 0 };
  db = linked_db;
}

abbrev done : Result (TokenRedirect SignedClaims) × State
done =
    google_callback google tokens toy_sha ring "s1" "code" (some "browser-binding-1") 200 200
      "session-1" 201 201 "r9" 202 203 started

abbrev answer_or : Result (TokenRedirect SignedClaims) → TokenRedirect SignedClaims
answer_or (ok r) = r
answer_or (err e) = record {
  url = "";
  access_token = id_token;
  refresh_token = "";
  token_type = "";
}

google_callback-LoggedIn_example :
    LoggedIn google tokens "s1" "code" 200 200 toy_sha ring
      (some "browser-binding-1")
      203
      started
      done.1
unfolding google_callback google_session finish_callback consume has_token_chars length find
    discover require_https all is_https starts_with lower has_key get exchange_code has_text
    verify_google_id_token key refresh issue_bundle any delete_where select_where remove_prefix
    dicts_of max_age issue_session resolve_link resolve_session sign_claims add_grant issue_access
    issue_refresh agrees is_timely is_plain link_account add_link
google_callback-LoggedIn_example =
    google_callback-LoggedIn google tokens "s1" "code" 200 200 toy_sha ring
      (some "browser-binding-1") "session-1" 201 201 "r9" 202 203 started done.1 (answer_or done.0)
      refl

abbrev refused : Result (TokenRedirect SignedClaims) × State
refused =
    google_callback google tokens toy_sha ring "s1" "code" (some "browser-binding-1") 200 200
      "session-1" 201 201 "r9" 202 203 (record started { db = small_db })

google_callback_unlinked_example :
    (refused.0 ≡ err (http_exception 401 "Invalid state token"))
    × (refused.1.db ≡ small_db)
    × (find (has_state "s1") refused.1.flows ≡ none)
unfolding finish_callback consume has_token_chars length find discover require_https all is_https
    starts_with lower has_key get exchange_code has_text verify_google_id_token key refresh
    delete_where remove_prefix dicts_of max_age issue_session resolve_link agrees is_timely is_plain
google_callback_unlinked_example =
    google_callback_unlinked google tokens "s1" "code" 200 200 toy_sha ring "browser-binding-1"
      "session-1" 201 201 "r9" 202 203 (record started { db = small_db }) flow refl refl

abbrev metadata : ProviderMetadata
metadata = record {
  issuer = "https://accounts.google.com";
  authorization_endpoint = "https://g/a";
  token_endpoint = "https://g/t";
  userinfo_endpoint = "https://g/u";
  revocation_endpoint = "https://g/r";
  jwks_uri = "https://g/k";
}

max_age_test :
    (max_age "public, max-age=3600, must-revalidate" ≡ 3600)
    × (max_age "no-store" ≡ 0)
    × (max_age "s-max-age=7" ≡ 0)
unfolding max_age starts_with remove_prefix
max_age_test = (refl, refl, refl)
