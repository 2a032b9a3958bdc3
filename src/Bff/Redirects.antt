-- ===== src/Bff/Redirects.antt =====
-- Where src/temis_bff sends a browser after a login: to paths of the site, whatever it was asked.
use temis_sso_lab.Bff.Sessions.{get_session, create_session}
use temis_sso_lab.Bff.Security.{has_control}
use temis_sso_lab.Base.Text.{starts_with, has_text}
use temis_sso_lab.Base.{
  true, ◌==◌, List, [], ◌∷◌, subst, sym, Option, some, none, ok, Result, find, ℕ, String, false,
  err, ◌≡◌, refl, ap, arith, Result-cases, Bool-cases, inl, inr, rethrow, All, delete_where,
}
use temis_sso_lab.OauthState.{
  getdel, set, peek, remove, Entry, Redis, Dict, Digests, item, has_key, is_held,
}
use temis_sso_lab.Bff.Security.{Urls, is_unsafe, safe_return_path}
use temis_sso_lab.Bff.Oauth.{
  LoginTransaction, Flow, login_key, check_complete, complete_with, complete, begin_login,
}
use temis_sso_lab.Bff.App.{State, login, callback, finish_callback, logout, unauthorized}
use temis_sso_lab.Bff.Lifecycle.{logins-logout_with, logins-callback}

module _ (urls : Urls) where
  abbrev IsLocal : Entry LoginTransaction → Type 0
  IsLocal e = is_unsafe urls e.value.return_to ≡ false

  -- Every login that is held returns to a path of the site.
  abbrev pub AreLocal : Redis LoginTransaction → Type 0
  AreLocal redis = All IsLocal redis

  -- A path of the site: absolute, and neither another site's address nor a text that a browser could
  -- take for one.
  pub record IsSitePath (path : String) : Type 0 where
    pub absolute : starts_with path "/" ≡ true
    pub single : starts_with path "//" ≡ false
    pub no_scheme : (urls.scheme path == "") ≡ true
    pub no_host : (urls.netloc path == "") ≡ true
    pub no_backslash : has_text path "\\" ≡ false
    pub no_control : has_control path ≡ false

  IsSitePath-safe : (path : String) → is_unsafe urls path ≡ false → IsSitePath path
  IsSitePath-safe path h = record {
    absolute = ground (arith, h);
    single = ground (arith, h);
    no_scheme = ground (arith, h);
    no_host = ground (arith, h);
    no_backslash = ground (arith, h);
    no_control = ground (arith, h);
  }

  AreLocal-remove :
      (key : String) (redis : Redis LoginTransaction) → AreLocal redis → AreLocal (remove key redis)
  unfolding remove delete_where
  AreLocal-remove key [] h = h
  AreLocal-remove key (e ∷ redis) (now, later) = elim (Bool-cases (has_key key e)) [
    | inl same ↦ rw same (AreLocal-remove key redis later)
    | inr differ ↦ rw differ (now, AreLocal-remove key redis later)
  ]

  peek-local :
      (key : String) (now : ℕ) (redis : Redis LoginTransaction) {t : LoginTransaction}
      → AreLocal redis
      → peek key now redis ≡ some t
      → is_unsafe urls t.return_to ≡ false
  unfolding peek find
  peek-local key now [] h found = absurd (ground arith)
  peek-local key now (e ∷ redis) {t} (here, later) found = elim (Bool-cases (is_held key now e)) [
    | inl held ↦ ground (arith, held, found, here)
    | inr not_held ↦
        let tail : peek key now redis ≡ some t = ground (arith, not_held, found) in
        peek-local key now redis later tail
  ]

  safe_return_path-local :
      (value path : String) → safe_return_path urls value ≡ ok path → is_unsafe urls path ≡ false
  unfolding safe_return_path
  safe_return_path-local value path h = elim (Bool-cases (is_unsafe urls (urls.unquote value))) [
    | inl bad ↦ absurd (ground (arith, bad, h))
    | inr fine ↦ subst (λ p. is_unsafe urls p ≡ false) (ground (arith, fine, h)) fine
  ]

  module _ (digests : Digests) (exchange : String → String → Result Dict) where
    complete_with-local :
        (code : String) (t : Option LoginTransaction) (redis redis' : Redis LoginTransaction)
        (tokens : Dict) (path : String)
        → ((u : LoginTransaction) → t ≡ some u → is_unsafe urls u.return_to ≡ false)
        → complete_with digests code exchange t redis ≡ (ok (tokens, path), redis')
        → is_unsafe urls path ≡ false
    complete_with-local code none redis redis' tokens path h e = absurd (ground arith)
    complete_with-local code (some t) redis redis' tokens path h e =
        elim (Result-cases (check_complete digests (exchange code t.verifier))) [
          | inr (x, c) ↦ absurd (ground (arith, c, e))
          | inl (x, c) ↦ subst (λ p. is_unsafe urls p ≡ false) (ground (arith, c, e)) (h t refl)
        ]

    complete-local :
        (state code : String) (now : ℕ) (redis redis' : Redis LoginTransaction) (tokens : Dict)
        (path : String)
        → AreLocal redis
        → complete digests state code exchange now redis ≡ (ok (tokens, path), redis')
        → is_unsafe urls path ≡ false
    unfolding complete getdel
    complete-local state code now redis redis' tokens path h e =
        complete_with-local code (peek (login_key digests state) now redis) _ redis' tokens path
          (λ u found. peek-local (login_key digests state) now redis h found) e

    finish-path :
        (ttl_seconds created : ℕ) (session_id csrf_token : String) (r : Result (Dict × String))
        (s s' : State) (path id : String)
        → finish_callback digests ttl_seconds session_id csrf_token created
            (rethrow unauthorized (r, s))
          ≡ (ok (path, id), s')
        → (tokens : Dict) × (r ≡ ok (tokens, path))
    unfolding create_session
    finish-path ttl_seconds created session_id csrf_token (err e) s s' path id h =
        absurd (ground arith)
    finish-path ttl_seconds created session_id csrf_token (ok (tokens, q)) s s' path id h =
        elim (Result-cases (item tokens "user_id")) [
          | inr (e, i) ↦ absurd (ground (arith, i, h))
          | inl (user_id, i) ↦ elim (Result-cases (item tokens "access_token")) [
            | inr (e, a) ↦ absurd (ground (arith, i, a, h))
            | inl (access, a) ↦ elim (Result-cases (item tokens "refresh_token")) [
              | inr (e, r) ↦ absurd (ground (arith, i, a, r, h))
              | inl (refresh, r) ↦ (tokens, ground (arith, i, a, r, h))
            ]
          ]
        ]

    pub callback-local :
        (ttl_seconds : ℕ) (code state session_id csrf_token : String) (now created : ℕ)
        (s s' : State) (path id : String)
        → AreLocal s.logins
        → callback digests ttl_seconds exchange code state session_id csrf_token now created s
          ≡ (ok (path, id), s')
        → is_unsafe urls path ≡ false
    unfolding callback
    callback-local ttl_seconds code state session_id csrf_token now created s s' path id local h =
        let (r, logins) = complete digests state code exchange now s.logins in
        let (tokens, e) =
          finish-path ttl_seconds created session_id csrf_token r (record s { logins = logins }) s'
            path id h in
        complete-local state code now s.logins logins tokens path local (ap (λ x. (x, logins)) e)

    -- The requests of browsers, each with the values that it draws.
    module _ (flow : Flow) (ttl_seconds : ℕ) (public_origin : String)
        (revoke : String → Result (Unit {0})) where
      pub data Request : Type 0 where
        logs_in : (return_to state verifier : String) → Request
        returns : (code state session_id csrf_token : String) → Request
        leaves : (origin csrf cookie : Option String) → Request

      unfoldable pub run_request : ℕ → Request → State → State
      run_request now (logs_in return_to state verifier) s =
          (login digests urls flow return_to state verifier now s).1
      run_request now (returns code state session_id csrf_token) s =
          (callback digests ttl_seconds exchange code state session_id csrf_token now now s).1
      run_request now (leaves origin csrf cookie) s =
          (logout digests public_origin revoke origin csrf cookie now s).1

      unfoldable pub run_requests : List (ℕ × Request) → State → State
      run_requests [] s = s
      run_requests ((now, r) ∷ rs) s = run_requests rs (run_request now r s)

      login-AreLocal :
          (return_to state verifier : String) (now : ℕ) (s : State)
          → AreLocal s.logins
          → AreLocal (login digests urls flow return_to state verifier now s).1.logins
      unfolding login begin_login set remove
      login-AreLocal return_to state verifier now s h =
          elim (Result-cases (safe_return_path urls return_to)) [
            | inr (e, p) ↦ rw p h
            | inl (path, p) ↦ rw p (
              safe_return_path-local return_to path p,
              AreLocal-remove (login_key digests state) s.logins h,
            )
          ]

      logins-logout :
          (origin csrf cookie : Option String) (now : ℕ) (s : State)
          → (logout digests public_origin revoke origin csrf cookie now s).1.logins ≡ s.logins
      unfolding logout
      logins-logout origin csrf none now s = refl
      logins-logout origin csrf (some id) now s =
          logins-logout_with digests public_origin revoke origin csrf id
            (get_session digests.sha256_hex id now s.sessions) s

      run_requests-AreLocal :
          (rs : List (ℕ × Request)) (s : State)
          → AreLocal s.logins
          → AreLocal (run_requests rs s).logins
      unfolding run_requests run_request
      run_requests-AreLocal [] s h = h
      run_requests-AreLocal ((now, logs_in return_to state verifier) ∷ rs) s h =
          run_requests-AreLocal rs _ (login-AreLocal return_to state verifier now s h)
      run_requests-AreLocal ((now, returns code state session_id csrf_token) ∷ rs) s h =
          run_requests-AreLocal rs _ (
            subst AreLocal
              (sym (
                logins-callback digests ttl_seconds exchange code state session_id csrf_token now
                  now s))
              (AreLocal-remove (login_key digests state) s.logins h))
      run_requests-AreLocal ((now, leaves origin csrf cookie) ∷ rs) s h =
          run_requests-AreLocal rs _
            (subst AreLocal (sym (logins-logout origin csrf cookie now s)) h)

      -- After any requests to a service that started without pending logins, a callback that succeeds
      -- sends the browser to a path of the site, whatever the logins were asked for.
      pub callback-run_requests :
          (rs : List (ℕ × Request)) (code state session_id csrf_token : String) (now created : ℕ)
          (s s' : State) (path id : String)
          → s.logins ≡ []
          → callback digests ttl_seconds exchange code state session_id csrf_token now created
              (run_requests rs s)
            ≡ (ok (path, id), s')
          → IsSitePath path
      callback-run_requests rs code state session_id csrf_token now created s s' path id start h =
          IsSitePath-safe path (
            callback-local ttl_seconds code state session_id csrf_token now created
              (run_requests rs s) s' path id
              (run_requests-AreLocal rs s (subst AreLocal (sym start) tt)) h)
