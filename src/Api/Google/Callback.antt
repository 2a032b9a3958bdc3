-- ===== src/Api/Google/Callback.antt =====
-- What the Google callback of src/temis_sso/api/oauth.py rests on where it logs a browser in, and what
-- it does with an identity that is not linked.
use temis_sso_lab.Base.{
  ◌+◌, ℕ, String, Option, none, some, ok, err, Result, Exception, value_error, http_exception, ◌≡◌,
  refl, arith, Result-cases, Bool-cases, Option-cases, inl, inr, ap, ◌∙◌, find,
}
use temis_sso_lab.Base.Text.{has_text}
use temis_sso_lab.KeyRing.{Ring}
use temis_sso_lab.ExternalIdp.Flows.{
  ExternalFlow, has_state, consume, Consumed, consume-Consumed, consume-is_binding,
  is_binding-named,
}
use temis_sso_lab.ExternalIdp.Google.{GoogleOidcAdapter, discover, exchange_code}
use temis_sso_lab.ExternalIdp.Callback.{State, IdTokens, verify_google_id_token, finish_callback}
use temis_sso_lab.ExternalIdp.Callback.Finished.{
  Finished, finish_callback-Finished, flows-finish_callback,
}
use temis_sso_lab.Api.Tokens.{TokenBundle, issue_bundle}
use temis_sso_lab.Api.Tokens.Issue.{Issued, issue_bundle-ok}
use temis_sso_lab.Api.Identities.{TokenRedirect, require_cookie, require_cookie-some, message_of}
use temis_sso_lab.Api.Google.{ttl_seconds, link_unknown, handle, google_session, google_callback}

module _ (adapter : GoogleOidcAdapter) (tokens : IdTokens) where
  open adapter use {http}
  open tokens use {jose}

  abbrev IsError : Result (Option String) → Type 0
  IsError r = (e : Exception) × (r ≡ err e)

  link_unknown-IsError :
      (state code : String) (again clock : ℕ) (flow : Option ExternalFlow) (s : State)
      → IsError (link_unknown adapter tokens state code again clock flow s).0
  link_unknown-IsError state code again clock none s = (_, refl)
  link_unknown-IsError state code again clock (some flow) s =
      let d = discover adapter s.keys.requests in
      elim (Result-cases d.0) [
        | inr (x, f) ↦ rw f (x, refl)
        | inl (metadata, f) ↦
            let t = exchange_code adapter metadata code flow d.1 in
            elim (Result-cases t.0) [
              | inr (x, g) ↦ rw (f, g) (x, refl)
              | inl (encoded, g) ↦
                  let v =
                    verify_google_id_token tokens http encoded metadata adapter.client_id flow.nonce
                      (again + 60) clock (record s.keys { requests = t.1 }) in
                  elim (Result-cases v.0) [
                    | inr (x, k) ↦ rw (f, g, k) (x, refl)
                    | inl (identity, k) ↦ rw (f, g, k) (_, refl)
                  ]
            ]
      ]

  -- The `except` clauses find no user.
  handle-IsError :
      (state code : String) (again clock : ℕ) (e : Exception) (s : State)
      → IsError (handle adapter tokens state code again clock e s).0
  handle-IsError state code again clock e s = elim (Option-cases (message_of e)) [
    | inl m ↦ rw (handle, m) (_, refl)
    | inr (message, m) ↦ elim (Bool-cases (has_text message "not linked")) [
      | inr b ↦ rw (handle, m, b) (_, refl)
      | inl b ↦
          rw (handle, m, b)
            (link_unknown-IsError state code again clock (find (has_state state) s.flows) s)
    ]
  ]

  module _ (state code : String) (now clock : ℕ) where
    -- A session of the callback that found a user.
    google_session-Finished :
        (binding session_id : String) (again clock' : ℕ) (s : State) {user_id : Option String}
        {s' : State}
        → google_session adapter tokens state code binding now clock session_id again clock' s
          ≡ (ok user_id, s')
        → (owner : String) × (user_id ≡ some owner)
          × Finished tokens adapter http ttl_seconds state code now binding clock s owner s'
    unfolding google_session
    google_session-Finished binding session_id again clock' s {user_id} {s'} h =
        let r =
          finish_callback tokens adapter http ttl_seconds state code now binding clock session_id
            s in
        elim (Result-cases r.0) [
          | inl (found, e) ↦
              let (owner, held, finished) =
                finish_callback-Finished tokens adapter http ttl_seconds state code now binding
                  clock session_id s {found = found} {s' = s'} (ground (arith, e, h)) in
              (owner, ground (arith, e, held, h), finished)
          | inr (x, e) ↦
              let (y, f) = handle-IsError state code again clock' x r.1 in
              absurd (ground (arith, e, f, h))
        ]

    -- The whole of a login: the cookie, the linked account and the bundle.
    pub record LoggedIn (sha256_hex : String → String) (ring : Ring jose) (cookie : Option String)
        (signed : ℕ) (s s' : State) : Type 0 where
      pub binding : String
      pub shown : cookie ≡ some binding
      pub user_id : String
      pub after : State
      pub finished :
          Finished tokens adapter http ttl_seconds state code now binding clock s user_id after
      pub made : TokenBundle jose.Token
      pub issued : Issued sha256_hex jose ring user_id "lab-client" signed after.db made s'.db
      pub rest : s' ≡ record after { db = s'.db }
      pub used : find (has_state state) s'.flows ≡ none

    -- A browser is logged in by Google only if it shows the cookie of a flow in progress with this
    -- state, in its time, which is used up; if a current key of the discovered provider has signed
    -- the ID token, with RS256, for this client and with the nonce of the flow; and if the identity
    -- that it names was linked before to an account, which is active.
    pub google_callback-LoggedIn :
        (sha256_hex : String → String) (ring : Ring jose) (cookie : Option String)
        (session_id : String) (again clock' : ℕ) (raw : String) (granted signed : ℕ) (s s' : State)
        (answer : TokenRedirect jose.Token)
        → google_callback adapter tokens sha256_hex ring state code cookie now clock session_id
            again clock' raw granted signed s
          ≡ (ok answer, s')
        → LoggedIn sha256_hex ring cookie signed s s'
    unfolding google_callback
    google_callback-LoggedIn sha256_hex ring cookie session_id again clock' raw granted signed s s'
          answer h =
        elim (Result-cases (require_cookie cookie)) [
          | inr (x, e) ↦ absurd (ground (arith, e, h))
          | inl (binding, e) ↦
              let r =
                google_session adapter tokens state code binding now clock session_id again clock'
                  s in
              elim (Result-cases r.0) [
                | inr (x, f) ↦ absurd (ground (arith, e, f, h))
                | inl (found, f) ↦
                    let (user_id, one, finished) =
                      google_session-Finished binding session_id again clock' s {user_id = found}
                        {s' = r.1} (ground (arith, f)) in
                    let b =
                      issue_bundle sha256_hex jose ring user_id "lab-client" none raw granted signed
                        r.1.db in
                    elim (Result-cases b.0) [
                      | inr (x, g) ↦ absurd (ground (arith, e, f, one, g, h))
                      | inl (bundle, g) ↦ record {
                        binding = binding;
                        shown = require_cookie-some cookie binding e;
                        user_id = user_id;
                        after = r.1;
                        finished = finished;
                        made = bundle;
                        issued =
                            issue_bundle-ok sha256_hex jose ring user_id "lab-client" raw none
                              granted signed r.1.db bundle s'.db (ground (arith, e, f, one, g, h));
                        rest = ground (arith, e, f, one, g, h);
                        used =
                            (let kept : s'.flows ≡ r.1.flows = ground (arith, e, f, one, g, h) in
                              ap (find (has_state state)) kept ∙ finished.consumed.used);
                      }
                    ]
              ]
        ]

    -- The Google callback links no identity: where it has consumed the flow and found no link, the
    -- answer is the 401 of an invalid state, since the flow is gone, and the database is as it
    -- was: no link is made.
    pub google_callback_unlinked :
        (sha256_hex : String → String) (ring : Ring jose) (binding session_id : String)
        (again clock' : ℕ) (raw : String) (granted signed : ℕ) (s : State) (flow : ExternalFlow)
        → (consume ttl_seconds state now binding s.flows).0 ≡ ok flow
        → (finish_callback tokens adapter http ttl_seconds state code now binding clock session_id
            s).0
          ≡ err (value_error "external identity is not linked")
        → let r =
            google_callback adapter tokens sha256_hex ring state code
              (some binding)
              now
              clock
              session_id
              again
              clock'
              raw
              granted
              signed
              s in
          (r.0 ≡ err (http_exception 401 "Invalid state token"))
          × (r.1.db ≡ s.db)
          × (find (has_state state) r.1.flows ≡ none)
    unfolding google_callback google_session has_text
    google_callback_unlinked sha256_hex ring binding session_id again clock' raw granted signed s
          flow c e =
        let named =
          is_binding-named binding (consume-is_binding ttl_seconds state now binding s.flows c) in
        let t = (consume ttl_seconds state now binding s.flows).1 in
        let used : Consumed ttl_seconds state now binding s.flows flow t =
          consume-Consumed ttl_seconds state now binding s.flows flow t (ground (arith, c)) in
        let gone =
          ap (find (has_state state)) (
            flows-finish_callback tokens adapter http ttl_seconds state code now binding clock
              session_id s c)
          ∙ used.used in
        rw (named, e, handle, gone) (refl, refl, gone)
