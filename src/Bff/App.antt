-- ===== src/Bff/App.antt =====
-- src/temis_bff/app.py: the handlers. A handler's state is the two stores; the answer's cookie is
-- part of its result. `exchange` and `revoke` are the calls of the service, and what the second
-- does there is not modelled.
use temis_sso_lab.Base.{
  ℕ, String, Option, none, some, Result, ok, err, Exception, http_exception, request_rejected,
  oauth_failed, Action, ◌>>=◌, pure, raise, lift, rethrow,
}
use temis_sso_lab.Observability.Middleware.{Response, set_header}
use temis_sso_lab.Base.{◌==◌, if◌then◌else◌}
use temis_sso_lab.OauthState.{Redis, Dict, Digests, item}
use temis_sso_lab.Bff.Security.{Urls, require_csrf}
use temis_sso_lab.Bff.Sessions.{BffSession, create_session, get_session, delete_session}
use temis_sso_lab.Bff.Oauth.{LoginTransaction, Flow, begin_login, complete}

pub record State : Type 0 where
  pub logins : Redis LoginTransaction
  pub sessions : Redis BffSession

abbrev in_logins : {A : Type 0} → State → Result A × Redis LoginTransaction → Result A × State
in_logins s (r, logins) = (r, record s { logins = logins })

abbrev pub on_logins : {A : Type 0} → Action (Redis LoginTransaction) A → Action State A
on_logins m s = in_logins s (m s.logins)

abbrev in_sessions : {A : Type 0} → State → Result A × Redis BffSession → Result A × State
in_sessions s (r, sessions) = (r, record s { sessions = sessions })

abbrev pub on_sessions : {A : Type 0} → Action (Redis BffSession) A → Action State A
on_sessions m s = in_sessions s (m s.sessions)

abbrev pub bad_request : Exception → Exception
bad_request (request_rejected reason) = http_exception 400 reason
bad_request e = e

abbrev pub unauthorized : Exception → Exception
unauthorized (oauth_failed reason) = http_exception 401 reason
unauthorized e = e

abbrev pub forbidden : Exception → Exception
forbidden (request_rejected reason) = http_exception 403 reason
forbidden e = e

module _ (digests : Digests) where
  open digests use {sha256_hex}

  -- `/login`: where the browser is sent.
  unfoldable pub login : Urls → Flow → String → String → String → ℕ → Action State (String × Dict)
  login urls flow return_to state verifier now = do
    begun ← (λ s.
        rethrow bad_request
          (on_logins (begin_login digests urls flow return_to state verifier now) s))
    pure (begun.1, begun.2)

  -- `/auth/callback` behind the login: the return path, and the session id of the cookie.
  abbrev pub finish_callback :
      ℕ → String → String → ℕ → Result (Dict × String) × State → Result (String × String) × State
  finish_callback ttl_seconds session_id csrf_token created (err e, s) = (err e, s)
  finish_callback ttl_seconds session_id csrf_token created (ok (tokens, path), s) =
      (do
        user_id ← lift (item tokens "user_id")
        access ← lift (item tokens "access_token")
        refresh ← lift (item tokens "refresh_token")
        id ← on_sessions (
            create_session sha256_hex ttl_seconds user_id access refresh session_id csrf_token
              created)
        pure (path, id))
        s

  -- `/auth/callback`
  unfoldable pub callback :
      ℕ
      → (String → String → Result Dict)
      → String
      → String
      → String
      → String
      → ℕ
      → ℕ
      → Action State (String × String)
  callback ttl_seconds exchange code state session_id csrf_token now created s =
      finish_callback ttl_seconds session_id csrf_token created
        (rethrow unauthorized (on_logins (complete digests state code exchange now) s))

  -- The session that a request's cookie names.
  abbrev pub session_of : Option String → ℕ → State → Option BffSession
  session_of none now s = none
  session_of (some session_id) now s = get_session sha256_hex session_id now s.sessions

  abbrev pub info_of : Option BffSession → Result (String × String)
  info_of none = err (http_exception 401 "session required")
  info_of (some session) = ok (session.user_id, session.csrf_token)

  -- `/bff/session`
  unfoldable pub session_info : Option String → ℕ → Action State (String × String)
  session_info cookie now s = (info_of (session_of cookie now s), s)

  abbrev pub logout_with :
      String
      → (String → Result (Unit {0}))
      → Option String
      → Option String
      → String
      → Option BffSession
      → Action State (Unit {0})
  logout_with public_origin revoke origin csrf session_id none =
      raise (http_exception 401 "session required")
  logout_with public_origin revoke origin csrf session_id (some session) = do
    checked ←
        (λ s. rethrow forbidden (require_csrf origin public_origin csrf session.csrf_token, s))
    revoked ← lift (revoke session.refresh_token)
    (λ s. (ok tt, record s { sessions = delete_session sha256_hex session_id s.sessions }))

  -- `/logout`
  unfoldable pub logout :
      String
      → (String → Result (Unit {0}))
      → Option String
      → Option String
      → Option String
      → ℕ
      → Action State (Unit {0})
  logout public_origin revoke origin csrf none now s =
      (err (http_exception 401 "session required"), s)
  logout public_origin revoke origin csrf (some session_id) now s =
      logout_with public_origin revoke origin csrf session_id
        (get_session sha256_hex session_id now s.sessions) s

-- The middleware `protect_session_cache`.
unfoldable pub protect_session_cache : String → Result Response → Result Response
protect_session_cache path (err e) = err e
protect_session_cache path (ok response) =
    if path == "/bff/session"
    then ok (set_header "Cache-Control" "no-store, private" response)
    else ok response
