-- ===== src/Bff/Login.antt =====
-- A login of src/temis_bff from its begin to the session.
use temis_sso_lab.Base.{ℕ, ◌+◌, ◌*◌, ◌<◌, String, true, some, Result, ok, ◌≡◌, refl}
use temis_sso_lab.OauthState.{Dict, Digests, item, getdel}
use temis_sso_lab.OauthState.Laws.{peek-set}
use temis_sso_lab.Bff.Security.{Urls, safe_return_path}
use temis_sso_lab.Bff.Sessions.{BffSession, session_key, create_session, get_session}
use temis_sso_lab.Bff.Oauth.{LoginTransaction, Flow, login_key, is_complete, complete, begin_login}
use temis_sso_lab.Bff.App.{State, login, callback, session_info}

-- A login begins with a safe path; the callback comes within five minutes, and the token endpoint
-- answers its code and the verifier of the login with complete tokens. Then the browser is sent to
-- that path, and its cookie names the session of the user until the session expires.
pub session_info-login :
    (digests : Digests) (urls : Urls) (flow : Flow) (ttl_seconds : ℕ)
    (exchange : String → String → Result Dict)
    (return_to path state verifier code session_id csrf_token user_id access refresh : String)
    (tokens : Dict) (begun now created later : ℕ) (s : State)
    → safe_return_path urls return_to ≡ ok path
    → now < begun + 300 * 1000000
    → exchange code verifier ≡ ok tokens
    → is_complete tokens ≡ true
    → item tokens "user_id" ≡ ok user_id
    → item tokens "access_token" ≡ ok access
    → item tokens "refresh_token" ≡ ok refresh
    → later < created + ttl_seconds * 1000000
    → let s₁ = (login digests urls flow return_to state verifier begun s).1 in
      let (answer, s₂) =
        callback digests ttl_seconds exchange code state session_id csrf_token now created s₁ in
      (answer ≡ ok (path, session_id))
      × ((session_info digests (some session_id) later s₂).0 ≡ ok (user_id, csrf_token))
unfolding login begin_login callback complete getdel create_session session_info get_session
session_info-login digests urls flow ttl_seconds exchange return_to path state verifier code
      session_id csrf_token user_id access refresh tokens begun now created later s safe soon given
      full u a r live =
    let key = login_key digests state in
    let t : LoginTransaction = record { verifier = verifier; return_to = path } in
    let held = peek-set key t 300 begun now s.logins soon in
    let session : BffSession = record {
      user_id = user_id;
      access_token = access;
      refresh_token = refresh;
      csrf_token = csrf_token;
    } in
    let kept =
      peek-set (session_key digests.sha256_hex session_id) session ttl_seconds created later
        s.sessions live in
    rw (safe, held, given, full, u, a, r) (refl, rw kept refl)
