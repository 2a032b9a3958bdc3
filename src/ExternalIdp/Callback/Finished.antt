-- ===== src/ExternalIdp/Callback/Finished.antt =====
-- What a session rests on that `GoogleCallbackService.finish_callback`
-- (src/temis_sso/external_idp/callback.py) issues.
use temis_sso_lab.Base.{
  refl, ℕ, String, some, ok, ◌≡◌, arith, Result-cases, Option-cases, inl, inr, find, eq_refl,
}
use temis_sso_lab.Http.{Http}
use temis_sso_lab.ExternalIdp.Models.{ProviderMetadata, ExternalIdentity}
use temis_sso_lab.ExternalIdp.Flows.{ExternalFlow, consume, Consumed, consume-Consumed}
use temis_sso_lab.ExternalIdp.Stores.{resolve_link, resolve_session, issue_session}
use temis_sso_lab.ExternalIdp.Google.{GoogleOidcAdapter, discover, exchange_code}
use temis_sso_lab.ExternalIdp.Callback.{State, IdTokens, verify_google_id_token, finish_callback}
use temis_sso_lab.ExternalIdp.Callback.Verified.{Verified, verify_google_id_token-Verified}

module _ (tokens : IdTokens) (adapter : GoogleOidcAdapter) (http : Http) (ttl_seconds : ℕ)
    (state code : String) (now : ℕ) (binding : String) (clock : ℕ) where
  -- The flow that was consumed, the token that the provider gave for its code, and the account that
  -- its identity is linked to.
  pub record Finished (s : State) (user_id : String) (s' : State) : Type 0 where
    pub flow : ExternalFlow
    pub consumed : Consumed ttl_seconds state now binding s.flows flow s'.flows
    pub metadata : ProviderMetadata
    pub discovered : (discover adapter s.keys.requests).0 ≡ ok metadata
    pub encoded : String
    pub exchanged :
        (exchange_code adapter metadata code flow (discover adapter s.keys.requests).1).0
        ≡ ok encoded
    pub identity : ExternalIdentity
    pub verified :
        Verified tokens http encoded metadata adapter.client_id flow.nonce now clock
          (record s.keys {
            requests =
                (exchange_code adapter metadata code flow (discover adapter s.keys.requests).1).1;
          })
          identity
          s'.keys
    pub linked : resolve_link identity.provider identity.subject s.db ≡ some user_id
    pub untouched : s'.db ≡ s.db

  pub finish_callback-Finished :
      (session_id : String) (s : State) {found : String} {s' : State}
      → finish_callback tokens adapter http ttl_seconds state code now binding clock session_id s
        ≡ (ok found, s')
      → (user_id : String) × (resolve_session found s'.sessions ≡ some user_id)
        × Finished s user_id s'
  unfolding finish_callback issue_session resolve_session find
  finish_callback-Finished session_id s {found} {s'} h =
      let c = consume ttl_seconds state now binding s.flows in
      let d = discover adapter s.keys.requests in
      elim (Result-cases c.0) [
        | inr (x, e) ↦ absurd (ground (arith, e, h))
        | inl (flow, e) ↦ elim (Result-cases d.0) [
          | inr (x, f) ↦ absurd (ground (arith, e, f, h))
          | inl (metadata, f) ↦
              let t = exchange_code adapter metadata code flow d.1 in
              elim (Result-cases t.0) [
                | inr (x, g) ↦ absurd (ground (arith, e, f, g, h))
                | inl (encoded, g) ↦
                    let keys = record s.keys { requests = t.1 } in
                    let v =
                      verify_google_id_token tokens http encoded metadata adapter.client_id
                        flow.nonce now clock keys in
                    elim (Result-cases v.0) [
                      | inr (x, k) ↦ absurd (ground (arith, e, f, g, k, h))
                      | inl (identity, k) ↦
                          elim (Option-cases
                            (resolve_link identity.provider identity.subject s.db)) [
                              | inl l ↦ absurd (ground (arith, e, f, g, k, l, h))
                              | inr (user_id, l) ↦ (
                                user_id,
                                ground (arith, e, f, g, k, l, h, eq_refl session_id),
                                record {
                                  flow = flow;
                                  consumed =
                                      consume-Consumed ttl_seconds state now binding s.flows flow
                                        s'.flows (ground (arith, e, f, g, k, l, h));
                                  metadata = metadata;
                                  discovered = f;
                                  encoded = encoded;
                                  exchanged = g;
                                  identity = identity;
                                  verified =
                                      verify_google_id_token-Verified tokens http encoded metadata
                                        adapter.client_id flow.nonce now clock keys
                                        (ground (arith, e, f, g, k, l, h));
                                  linked = l;
                                  untouched = ground (arith, e, f, g, k, l, h);
                                },
                              )
                            ]
                    ]
              ]
        ]
      ]

  pub flows-finish_callback :
      (session_id : String) (s : State) {flow : ExternalFlow}
      → (consume ttl_seconds state now binding s.flows).0 ≡ ok flow
      → (finish_callback tokens adapter http ttl_seconds state code now binding clock session_id
          s).1.flows
        ≡ (consume ttl_seconds state now binding s.flows).1
  unfolding finish_callback issue_session
  flows-finish_callback session_id s {flow} e =
      let d = discover adapter s.keys.requests in
      elim (Result-cases d.0) [
        | inr (x, f) ↦ rw (e, f) refl
        | inl (metadata, f) ↦
            let t = exchange_code adapter metadata code flow d.1 in
            elim (Result-cases t.0) [
              | inr (x, g) ↦ rw (e, f, g) refl
              | inl (encoded, g) ↦
                  let keys = record s.keys { requests = t.1 } in
                  let v =
                    verify_google_id_token tokens http encoded metadata adapter.client_id flow.nonce
                      now clock keys in
                  elim (Result-cases v.0) [
                    | inr (x, k) ↦ rw (e, f, g, k) refl
                    | inl (identity, k) ↦
                        elim (Option-cases (resolve_link identity.provider identity.subject s.db)) [
                          | inl l ↦ rw (e, f, g, k, l) refl
                          | inr (user_id, l) ↦ rw (e, f, g, k, l) refl
                        ]
                  ]
            ]
      ]
