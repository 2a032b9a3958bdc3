-- ===== src/Bff/Lifecycle.antt =====
-- The life of a browser's session in src/temis_bff: one login for each state, a session that ends
-- with the logout.
use temis_sso_lab.Base.{
  rethrow, eq_iff, ℕ, String, true, Option, none, some, Result, ok, err, ◌≡◌, refl, sym, ap, ◌∙◌,
  arith, http_exception, Result-cases, Option-cases, inl, inr,
}
use temis_sso_lab.OauthState.{getdel, item, remove, peek, Redis, Dict, Digests}
use temis_sso_lab.OauthState.Laws.{remove_idem, peek-remove}
use temis_sso_lab.Bff.Security.{is_origin, require_csrf}
use temis_sso_lab.Bff.Sessions.{
  create_session, delete_session, get_session, BffSession, session_key,
}
use temis_sso_lab.Bff.Oauth.{complete, login_key, LoginTransaction, check_complete, complete_with}
use temis_sso_lab.Bff.App.{
  finish_callback, callback, unauthorized, session_info, logout_with, State, logout,
}

require_csrf-ok :
    (origin supplied : Option String) (expected saved : String) {u : Unit {0}}
    → require_csrf origin expected supplied saved ≡ ok u
    → (is_origin origin expected ≡ true) × (supplied ≡ some saved)
unfolding require_csrf
require_csrf-ok origin none expected saved h = absurd (ground arith)
require_csrf-ok origin (some c) expected saved h =
    (ground (arith, h), ap some ((eq_iff c saved).0 (ground (arith, h))))

module _ (digests : Digests) where
  open digests use {sha256_hex}

  logins-complete_with :
      (code : String) (exchange : String → String → Result Dict) (t : Option LoginTransaction)
      (redis : Redis LoginTransaction)
      → (complete_with digests code exchange t redis).1 ≡ redis
  logins-complete_with code exchange none redis = refl
  logins-complete_with code exchange (some t) redis =
      elim (Result-cases (check_complete digests (exchange code t.verifier))) [
        | inl (tokens, e) ↦ rw e refl
        | inr (x, e) ↦ rw e refl
      ]

  logins-complete :
      (state code : String) (exchange : String → String → Result Dict) (now : ℕ)
      (redis : Redis LoginTransaction)
      → (complete digests state code exchange now redis).1 ≡ remove (login_key digests state) redis
  unfolding complete getdel
  logins-complete state code exchange now redis =
      logins-complete_with code exchange (peek (login_key digests state) now redis)
        (remove (login_key digests state) redis)

  logout_with-ok :
      (public_origin : String) (revoke : String → Result (Unit {0})) (origin csrf : Option String)
      (session_id : String) (session : BffSession) (s s' : State)
      → logout_with digests public_origin revoke origin csrf session_id (some session) s
        ≡ (ok tt, s')
      → (is_origin origin public_origin ≡ true)
        × (csrf ≡ some session.csrf_token)
        × (s'.sessions ≡ delete_session sha256_hex session_id s.sessions)
  logout_with-ok public_origin revoke origin csrf session_id session s s' h =
      elim (Result-cases (require_csrf origin public_origin csrf session.csrf_token)) [
        | inr (e, c) ↦ absurd (ground (arith, c, h))
        | inl (u, c) ↦ elim (Result-cases (revoke session.refresh_token)) [
          | inr (e, r) ↦ absurd (ground (arith, c, r, h))
          | inl (v, r) ↦
              let (same, token) = require_csrf-ok origin csrf public_origin session.csrf_token c in
              (same, token, ground (arith, c, r, h))
        ]
      ]

  pub logins-logout_with :
      (public_origin : String) (revoke : String → Result (Unit {0})) (origin csrf : Option String)
      (session_id : String) (session : Option BffSession) (s : State)
      → (logout_with digests public_origin revoke origin csrf session_id session s).1.logins
        ≡ s.logins
  logins-logout_with public_origin revoke origin csrf session_id none s = refl
  logins-logout_with public_origin revoke origin csrf session_id (some session) s =
      elim (Result-cases (require_csrf origin public_origin csrf session.csrf_token)) [
        | inr (e, c) ↦ rw c refl
        | inl (u, c) ↦ elim (Result-cases (revoke session.refresh_token)) [
          | inr (e, r) ↦ rw (c, r) refl
          | inl (v, r) ↦ rw (c, r) refl
        ]
      ]

  logout-found :
      (public_origin : String) (revoke : String → Result (Unit {0})) (origin csrf : Option String)
      (session_id : String) (now : ℕ) (s : State) (session : BffSession)
      → get_session sha256_hex session_id now s.sessions ≡ some session
      → logout digests public_origin revoke origin csrf (some session_id) now s
        ≡ logout_with digests public_origin revoke origin csrf session_id (some session) s
  unfolding logout
  logout-found public_origin revoke origin csrf session_id now s session found =
      ap (λ x. logout_with digests public_origin revoke origin csrf session_id x s) found

  -- A logout that succeeds came from the site's origin, with the token of the session that the
  -- cookie names; after it the cookie names no session, at any time.
  pub session_info-logout :
      (public_origin : String) (revoke : String → Result (Unit {0})) (origin csrf : Option String)
      (session_id : String) (now later : ℕ) (s s' : State)
      → logout digests public_origin revoke origin csrf (some session_id) now s ≡ (ok tt, s')
      → (session : BffSession) × (get_session sha256_hex session_id now s.sessions ≡ some session)
        × (is_origin origin public_origin ≡ true)
        × (csrf ≡ some session.csrf_token)
        × (session_info digests (some session_id) later s'
            ≡ (err (http_exception 401 "session required"), s'))
  unfolding logout session_info delete_session get_session
  session_info-logout public_origin revoke origin csrf session_id now later s s' h =
      elim (Option-cases (get_session sha256_hex session_id now s.sessions)) [
        | inl missing ↦ absurd (ground (arith, missing, h))
        | inr (session, found) ↦
            let (same, token, rest) =
              logout_with-ok public_origin revoke origin csrf session_id session s s' (
                sym (logout-found public_origin revoke origin csrf session_id now s session found)
                ∙ h) in
            (
              session,
              found,
              same,
              token,
              rw (rest, peek-remove (session_key sha256_hex session_id) later s.sessions) refl,
            )
      ]

  -- The steps of a callback behind the login leave the logins alone.
  logins-after :
      (ttl_seconds created : ℕ) (session_id csrf_token : String) (r : Result (Dict × String))
      (s : State)
      → (finish_callback digests ttl_seconds session_id csrf_token created
          (rethrow unauthorized (r, s))).1.logins
        ≡ s.logins
  unfolding create_session
  logins-after ttl_seconds created session_id csrf_token (err e) s = refl
  logins-after ttl_seconds created session_id csrf_token (ok (tokens, path)) s =
      elim (Result-cases (item tokens "user_id")) [
        | inr (e, i) ↦ rw i refl
        | inl (user_id, i) ↦ elim (Result-cases (item tokens "access_token")) [
          | inr (e, a) ↦ rw (i, a) refl
          | inl (access, a) ↦ elim (Result-cases (item tokens "refresh_token")) [
            | inr (e, r) ↦ rw (i, a, r) refl
            | inl (refresh, r) ↦ rw (i, a, r) refl
          ]
        ]
      ]

  pub logins-callback :
      (ttl_seconds : ℕ) (exchange : String → String → Result Dict)
      (code state session_id csrf_token : String) (now created : ℕ) (s : State)
      → (callback digests ttl_seconds exchange code state session_id csrf_token now created
          s).1.logins
        ≡ remove (login_key digests state) s.logins
  unfolding callback
  logins-callback ttl_seconds exchange code state session_id csrf_token now created s =
      let (r, logins) = complete digests state code exchange now s.logins in
      logins-after ttl_seconds created session_id csrf_token r (record s { logins = logins })
      ∙ logins-complete state code exchange now s.logins

  callback-missing :
      (ttl_seconds : ℕ) (exchange : String → String → Result Dict)
      (code state session_id csrf_token : String) (now created : ℕ) (s : State)
      → peek (login_key digests state) now s.logins ≡ none
      → remove (login_key digests state) s.logins ≡ s.logins
      → callback digests ttl_seconds exchange code state session_id csrf_token now created s
        ≡ (err (http_exception 401 "invalid or reused state"), s)
  unfolding callback complete getdel
  callback-missing ttl_seconds exchange code state session_id csrf_token now created s missing
        same =
      rw (missing, same) refl

  -- A login's state is used once: after any callback with it, whatever its outcome, every further
  -- callback with the same state is a 401 that changes nothing.
  pub callback_once :
      (ttl_seconds : ℕ) (exchange second : String → String → Result Dict)
      (code state session_id csrf_token code' session_id' csrf_token' : String)
      (now created now' created' : ℕ) (s : State)
      → let s' =
          (callback digests ttl_seconds exchange code state session_id csrf_token now created
            s).1 in
        callback digests ttl_seconds second code' state session_id' csrf_token' now' created' s'
        ≡ (err (http_exception 401 "invalid or reused state"), s')
  callback_once ttl_seconds exchange second code state session_id csrf_token code' session_id'
        csrf_token' now created now' created' s =
      let key = login_key digests state in
      let left =
        logins-callback ttl_seconds exchange code state session_id csrf_token now created s in
      callback-missing ttl_seconds second code' state session_id' csrf_token' now' created' _
        (ap (peek key now') left ∙ peek-remove key now' s.logins)
        (ap (remove key) left ∙ remove_idem key s.logins ∙ sym left)
