-- ===== src/Api/Naver/Once.antt =====
-- A state of src/temis_sso/api/naver_oauth.py is used once, whatever comes of its callback.
use temis_sso_lab.Base.{
  ℕ, String, none, some, true, false, ok, err, http_exception, ◌≡◌, ◌==◌, refl, arith, Result-cases,
  inl, inr, find, ◌∙◌, ap,
}
use temis_sso_lab.Jose.{Jose}
use temis_sso_lab.KeyRing.{Ring}
use temis_sso_lab.ExternalIdp.Flows.{
  ExternalFlow, consume, consume-Consumed, Consumed, consume_unknown, has_state, is_binding,
  consume-is_binding, is_binding-named,
}
use temis_sso_lab.ExternalIdp.Naver.{NaverAdapter}
use temis_sso_lab.Api.Tokens.{issue_bundle}
use temis_sso_lab.Api.Identities.{State}
use temis_sso_lab.Api.Naver.{ttl_seconds, naver_user, naver_session, naver_callback}
use temis_sso_lab.Api.Naver.Callback.{flows-naver_user}

module _ (adapter : NaverAdapter) where
  flows-naver_session :
      (state code binding : String) (now : ℕ) (new_id : String) (linked_at : ℕ) (s : State)
      {flow : ExternalFlow}
      → (consume ttl_seconds state now binding s.flows).0 ≡ ok flow
      → (naver_session adapter state code binding now new_id linked_at s).1.flows
        ≡ (consume ttl_seconds state now binding s.flows).1
  unfolding naver_session
  flows-naver_session state code binding now new_id linked_at s h =
      let t = record s { flows = (consume ttl_seconds state now binding s.flows).1 } in
      let kept = flows-naver_user adapter state code new_id linked_at t in
      elim (Result-cases (naver_user adapter state code new_id linked_at t).0) [
        | inr (x, f) ↦ rw (h, f) kept
        | inl (u, f) ↦ rw (h, f) kept
      ]

  module _ (sha256_hex : String → String) (jose : Jose) (ring : Ring jose) where
    flows-naver_callback :
        (state code binding : String) (now : ℕ) (new_id : String) (linked_at : ℕ) (raw : String)
        (granted signed : ℕ) (s : State)
        → (binding == "") ≡ false
        → (naver_callback adapter sha256_hex jose ring state code
            (some binding)
            now
            new_id
            linked_at
            raw
            granted
            signed
            s).1.flows
          ≡ (naver_session adapter state code binding now new_id linked_at s).1.flows
    unfolding naver_callback
    flows-naver_callback state code binding now new_id linked_at raw granted signed s named =
        let r = naver_session adapter state code binding now new_id linked_at s in
        elim (Result-cases r.0) [
          | inr (x, f) ↦ rw (named, f) refl
          | inl (user_id, f) ↦
              elim (Result-cases
                (issue_bundle sha256_hex jose ring user_id "lab-client" none raw granted signed
                  r.1.db).0) [
                    | inr (x, g) ↦ rw (named, f, g) refl
                    | inl (b, g) ↦ rw (named, f, g) refl
                  ]
        ]

    -- Nothing but the 401 comes of a state without a flow.
    naver_callback_unknown :
        (state code binding : String) (now : ℕ) (new_id : String) (linked_at : ℕ) (raw : String)
        (granted signed : ℕ) (s : State)
        → is_binding binding ≡ true
        → find (has_state state) s.flows ≡ none
        → naver_callback adapter sha256_hex jose ring state code
            (some binding)
            now
            new_id
            linked_at
            raw
            granted
            signed
            s
          ≡ (err (http_exception 401 "unknown or already used state"), s)
    unfolding naver_callback naver_session
    naver_callback_unknown state code binding now new_id linked_at raw granted signed s b
          none_left =
        rw
          (
            is_binding-named binding b,
            consume_unknown ttl_seconds state now binding s.flows b none_left,
          )
          refl

    -- A state is consumed by the callback in which its flow is found, whatever the provider answers
    -- then: every further callback with it is a 401 that changes nothing.
    pub naver_callback_once :
        (state code binding : String) (now : ℕ) (new_id : String) (linked_at : ℕ) (raw : String)
        (granted signed : ℕ) (s : State) (flow : ExternalFlow) (code' binding' : String) (now' : ℕ)
        (new_id' : String) (linked_at' : ℕ) (raw' : String) (granted' signed' : ℕ)
        → (consume ttl_seconds state now binding s.flows).0 ≡ ok flow
        → is_binding binding' ≡ true
        → let s' =
            (naver_callback adapter sha256_hex jose ring state code
              (some binding)
              now
              new_id
              linked_at
              raw
              granted
              signed
              s).1 in
          naver_callback adapter sha256_hex jose ring state code'
            (some binding')
            now'
            new_id'
            linked_at'
            raw'
            granted'
            signed'
            s'
          ≡ (err (http_exception 401 "unknown or already used state"), s')
    naver_callback_once state code binding now new_id linked_at raw granted signed s flow code'
          binding' now' new_id' linked_at' raw' granted' signed' h b =
        let c = consume ttl_seconds state now binding s.flows in
        let named =
          is_binding-named binding (consume-is_binding ttl_seconds state now binding s.flows h) in
        let s' =
          (naver_callback adapter sha256_hex jose ring state code (some binding) now new_id
            linked_at raw granted signed s).1 in
        let used : Consumed ttl_seconds state now binding s.flows flow c.1 =
          consume-Consumed ttl_seconds state now binding s.flows flow c.1 (ground (arith, h)) in
        naver_callback_unknown state code' binding' now' new_id' linked_at' raw' granted' signed' s'
          b
          (ap (find (has_state state)) (
              flows-naver_callback state code binding now new_id linked_at raw granted signed s
                named
              ∙ flows-naver_session state code binding now new_id linked_at s h)
            ∙ used.used)
