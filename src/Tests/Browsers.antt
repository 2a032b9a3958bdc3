-- ===== src/Tests/Browsers.antt =====
-- The backend for the browser at concrete inputs.
use temis_sso_lab.Base.{
  List, ℕ, ok, err, some, true, http_exception, ◌≡◌, refl, [], ◌∷◌, arith, String, Result, find,
  any, delete_where,
}
use temis_sso_lab.Base.Text.{starts_with, has_text, append}
use temis_sso_lab.OauthState.{Digests, Dict, item, set, getdel, peek, remove}
use temis_sso_lab.Bff.Security.{
  Urls, has_control, is_ascii, is_origin, require_csrf, safe_return_path,
}
use temis_sso_lab.Bff.Sessions.{BffSession, create_session, get_session}
use temis_sso_lab.Bff.Oauth.{Flow, begin_login, complete}
use temis_sso_lab.Bff.App.{State, login, callback, session_info, logout}
use temis_sso_lab.Bff.Lifecycle.{session_info-logout}
use temis_sso_lab.Bff.Redirects.{
  IsSitePath, Request, logs_in, run_request, run_requests, callback-run_requests,
}
use temis_sso_lab.Bff.Login.{session_info-login}
use temis_sso_lab.Tests.Fixtures.{toy_sha}

abbrev digests : Digests
digests = record { sha256_hex = toy_sha; sha256_b64url = λ s. s }

abbrev urls : Urls
urls = record { unquote = λ s. s; scheme = λ s. ""; netloc = λ s. "" }

abbrev flow : Flow
flow = record {
  authorize_endpoint = "http://localhost:8000/oauth/authorize";
  client_id = "temis-web";
  redirect_uri = "http://localhost:3000/auth/callback";
}

abbrev tokens : Dict
tokens = ("user_id", "ann") ∷ ("access_token", "a1") ∷ ("refresh_token", "r1") ∷ []

abbrev exchange : String → String → Result Dict
exchange code verifier = ok tokens

abbrev revoke : String → Result (Unit {0})
revoke token = ok tt

abbrev fresh : State
fresh = record { logins = []; sessions = [] }

abbrev begun : State
begun = (login digests urls flow "/reports" "s1" "v1" 1 fresh).1

abbrev signed_in : State
signed_in = (callback digests 3600 exchange "c1" "s1" "id1" "csrf1" 2 3 begun).1

session_info-login_example :
    ((callback digests 3600 exchange "c1" "s1" "id1" "csrf1" 2 3 begun).0 ≡ ok ("/reports", "id1"))
    × ((session_info digests (some "id1") 4 signed_in).0 ≡ ok ("ann", "csrf1"))
unfolding safe_return_path starts_with has_text has_control item any
session_info-login_example =
    session_info-login digests urls flow 3600 exchange "/reports" "/reports" "s1" "v1" "c1" "id1"
      "csrf1" "ann" "a1" "r1" tokens 1 2 3 4 fresh refl (omega arith) refl refl refl refl refl
      (omega arith)

abbrev ann_session : BffSession
ann_session = record {
  user_id = "ann";
  access_token = "a1";
  refresh_token = "r1";
  csrf_token = "csrf1";
}

abbrev open_state : State
open_state = record {
  logins = [];
  sessions = (create_session toy_sha 3600 "ann" "a1" "r1" "id1" "csrf1" 3 []).1;
}

abbrev left_state : State
left_state =
    (logout digests "http://localhost:3000" revoke (some "http://localhost:3000") (some "csrf1")
      (some "id1") 4 open_state).1

session_info-logout_example :
    (session : BffSession) × (get_session toy_sha "id1" 4 open_state.sessions ≡ some session)
    × (is_origin (some "http://localhost:3000") "http://localhost:3000" ≡ true)
    × (some "csrf1" ≡ some session.csrf_token)
    × (session_info digests (some "id1") 5 left_state
        ≡ (err (http_exception 401 "session required"), left_state))
unfolding logout require_csrf is_ascii get_session create_session set peek find delete_where append
session_info-logout_example =
    session_info-logout digests "http://localhost:3000" revoke (some "http://localhost:3000")
      (some "csrf1") "id1" 4 5 open_state left_state refl

abbrev requests : List (ℕ × Request urls digests exchange flow 3600 "http://localhost:3000" revoke)
requests = (1, logs_in "//evil.invalid" "s0" "v0") ∷ (1, logs_in "/reports" "s1" "v1") ∷ []

abbrev ready : State
ready = run_requests urls digests exchange flow 3600 "http://localhost:3000" revoke requests fresh

callback-run_requests_example : IsSitePath urls "/reports"
unfolding run_requests run_request login begin_login safe_return_path starts_with has_text
    has_control callback complete getdel set peek remove find delete_where item any create_session
    append
callback-run_requests_example =
    callback-run_requests urls digests exchange flow 3600 "http://localhost:3000" revoke requests
      "c1" "s1" "id1" "csrf1" 2 3 fresh
      (callback digests 3600 exchange "c1" "s1" "id1" "csrf1" 2 3 ready).1 "/reports" "id1" refl
      refl
