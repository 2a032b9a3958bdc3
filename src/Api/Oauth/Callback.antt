-- ===== src/Api/Oauth/Callback.antt =====
-- `/oauth/provider/callback` of src/temis_sso/api/oauth.py: a state is used once, and the code that
-- an agreeing pair of state and provider code gives.
use temis_sso_lab.Base.{
  refl, http_exception, some, ℕ, String, true, false, none, ◌≡◌, ◌∙◌, Result-cases, inl, inr,
}
use temis_sso_lab.ClientPolicy.{require_client}
use temis_sso_lab.FakeProvider.{exchange}
use temis_sso_lab.OauthState.{
  consume_oauth, take, as_transaction, remove, Redis, Dict, Digests, OAuthTransaction, item, peek,
  store_key,
}
use temis_sso_lab.OauthState.Laws.{
  peek-remove, peek-remove_ne, provider-oauth, peek-set_ne, put-set, code-oauth,
}
use temis_sso_lab.Api.Oauth.{
  err, callback_with, provider_callback, take, some, exchange, consume_oauth, Option, State, agreed,
  finish_callback, oauth_user, grant_value,
}

module _ (digests : Digests) where
  abbrev state_key : String → String
  state_key state = store_key digests "oauth" state

  abbrev provider_key : String → String
  provider_key code = store_key digests "provider-code" code

  -- Nothing is held under the key of a state, at any time.
  abbrev IsUsed : String → Redis Dict → Type 0
  IsUsed state redis = (later : ℕ) → peek (state_key state) later redis ≡ none

  finish_callback-IsUsed :
      (state new_id raw : String) (now : ℕ) (t : OAuthTransaction) (d : Dict) (s : State)
      → IsUsed state s.redis
      → IsUsed state (finish_callback digests state new_id raw now t d s).1.redis
  finish_callback-IsUsed state new_id raw now t d s used later =
      elim (Result-cases (agreed digests state t d)) [
        | inr (e, a) ↦ rw a (used later)
        | inl (false, a) ↦ rw a (used later)
        | inl (true, a) ↦ elim (Result-cases (require_client t.client_id t.redirect_uri)) [
          | inr (e, r) ↦ rw (a, r) (used later)
          | inl (policy, r) ↦ elim (Result-cases (item d "provider_subject")) [
            | inr (e, i) ↦ rw (a, r, i) (used later)
            | inl (subject, i) ↦
                elim (Result-cases (oauth_user subject policy.default_role new_id s.db).0) [
                  | inr (e, u) ↦ rw (a, r, i, u) (used later)
                  | inl (user_id, u) ↦
                      rw (a, r, i, u, put-set)
                        (peek-set_ne (state_key state) (store_key digests "authorization-code" raw)
                            (grant_value user_id policy t) 60 now later s.redis
                            (code-oauth digests state raw)
                          ∙ used later)
                ]
          ]
        ]
      ]

  callback_with-IsUsed :
      (state new_id raw : String) (now : ℕ) (t : Option OAuthTransaction) (d : Option Dict)
      (s : State)
      → IsUsed state s.redis
      → IsUsed state (callback_with digests state new_id raw now t d s).1.redis
  callback_with-IsUsed state new_id raw now none d s used = used
  callback_with-IsUsed state new_id raw now (some t) none s used = used
  callback_with-IsUsed state new_id raw now (some t) (some d) s used =
      finish_callback-IsUsed state new_id raw now t d s used

  provider_callback-IsUsed :
      (state code new_id raw : String) (now : ℕ) (s : State)
      → IsUsed state (provider_callback digests state code new_id raw now s).1.redis
  unfolding provider_callback consume_oauth exchange take
  provider_callback-IsUsed state code new_id raw now s =
      let redis₁ = remove (state_key state) s.redis in
      let redis₂ = remove (provider_key code) redis₁ in
      let gone : IsUsed state redis₁ = λ later. peek-remove (state_key state) later s.redis in
      let still : IsUsed state redis₂ = λ later.
        peek-remove_ne (state_key state) (provider_key code) later redis₁
          (provider-oauth digests state code)
        ∙ gone later in
      elim (Result-cases (as_transaction digests (peek (state_key state) now s.redis))) [
        | inr (e, t) ↦ rw t gone
        | inl (found, t) ↦ rw t (
            callback_with-IsUsed state new_id raw now found (peek (provider_key code) now redis₁)
              (record s { redis = redis₂ }) still)
      ]

  -- A state is used once: after any call of the callback with it, whatever the outcome, a further
  -- call with the same state is a 400, with any code and at any time.
  pub provider_callback_once :
      (state code new_id raw : String) (now : ℕ) (code' new_id' raw' : String) (now' : ℕ)
      (s : State)
      → (provider_callback digests state code' new_id' raw' now'
          (provider_callback digests state code new_id raw now s).1).0
        ≡ err (http_exception 400 "invalid oauth transaction")
  unfolding provider_callback consume_oauth exchange take
  provider_callback_once state code new_id raw now code' new_id' raw' now' s =
      let used = provider_callback-IsUsed state code new_id raw now s now' in rw used refl
