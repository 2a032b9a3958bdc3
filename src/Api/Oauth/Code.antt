-- ===== src/Api/Oauth/Code.antt =====
-- The authorization codes of src/temis_sso/api/oauth.py: each is presented once, by the client and
-- with the verifier for which it was made.
use temis_sso_lab.Api.Tokens.Issue.{issue_bundle-ok, Issued}
use temis_sso_lab.Base.{
  subst, if◌then◌else◌, eq_iff, ◌==◌, arith, ℕ, String, true, false, Option, none, some, ok, err,
  ◌≡◌, refl, sym, ap, ◌∙◌, http_exception, Result-cases, inl, inr,
}
use temis_sso_lab.Jose.{Jose}
use temis_sso_lab.KeyRing.{Ring}
use temis_sso_lab.ClientPolicy.{client_by_id}
use temis_sso_lab.OauthState.{Dict, Digests, item, peek, remove, store_key, take}
use temis_sso_lab.OauthState.Laws.{with_item-ok, peek-remove, remove_idem}
use temis_sso_lab.Api.Oauth.{
  issue_bundle, Redis, not, Result, Bool, pkce_challenge, Policy, TokenBundle, State, TokenRequest,
  token_request, is_valid, token_with, token,
}

module _ (digests : Digests) (jose : Jose) (ring : Ring jose) where
  abbrev code_key : String → String
  code_key code = store_key digests "authorization-code" code

  redis-token_with :
      (payload : TokenRequest) (raw : String) (granted now : ℕ) (grant : Option Dict) (s : State)
      → (token_with digests jose ring payload raw granted now grant s).1.redis ≡ s.redis
  redis-token_with payload raw granted now none s = refl
  redis-token_with payload raw granted now (some d) s =
      elim (Result-cases (is_valid digests payload d)) [
        | inr (e, h) ↦ rw h refl
        | inl (true, h) ↦ elim (Result-cases (client_by_id payload.client_id)) [
          | inr (e, c) ↦ rw (h, c) refl
          | inl (policy, c) ↦ elim (Result-cases (item d "user_id")) [
            | inr (e, u) ↦ rw (h, c, u) refl
            | inl (user_id, u) ↦ rw (h, c, u) refl
          ]
        ]
        | inl (false, h) ↦ rw h refl
      ]

  -- A well-formed request takes the grant of its code.
  pub token-step :
      (form : Dict) (payload : TokenRequest) (raw : String) (taken granted now : ℕ) (s : State)
      → token_request form ≡ ok payload
      → token digests jose ring form raw taken granted now s
        ≡ token_with digests jose ring payload raw granted now
            (peek (code_key payload.code) taken s.redis)
            (record s { redis = remove (code_key payload.code) s.redis })
  unfolding token take
  token-step form payload raw taken granted now s h = rw h refl

  -- The grant of a code is taken whatever becomes of the request.
  redis-token :
      (form : Dict) (payload : TokenRequest) (raw : String) (taken granted now : ℕ) (s : State)
      → token_request form ≡ ok payload
      → (token digests jose ring form raw taken granted now s).1.redis
        ≡ remove (code_key payload.code) s.redis
  unfolding token take
  redis-token form payload raw taken granted now s h = rw h (
      redis-token_with payload raw granted now (peek (code_key payload.code) taken s.redis)
        (record s { redis = remove (code_key payload.code) s.redis }))

  token-missing :
      (form : Dict) (payload : TokenRequest) (raw : String) (taken granted now : ℕ) (s : State)
      → token_request form ≡ ok payload
      → peek (code_key payload.code) taken s.redis ≡ none
      → remove (code_key payload.code) s.redis ≡ s.redis
      → token digests jose ring form raw taken granted now s
        ≡ (err (http_exception 401 "invalid authorization code"), s)
  unfolding token take
  token-missing form payload raw taken granted now s h missing same = rw (h, missing, same) refl

  -- A code is presented at most once: after a request with it that was well-formed, whether it was
  -- granted or refused, every further request with the same code is a 401 that changes nothing.
  pub token_once :
      (form again : Dict) (payload second : TokenRequest) (raw new_raw : String)
      (taken granted now taken' granted' now' : ℕ) (s : State)
      → token_request form ≡ ok payload
      → token_request again ≡ ok second
      → second.code ≡ payload.code
      → let s' = (token digests jose ring form raw taken granted now s).1 in
        token digests jose ring again new_raw taken' granted' now' s'
        ≡ (err (http_exception 401 "invalid authorization code"), s')
  token_once form again payload second raw new_raw taken granted now taken' granted' now' s h h'
        same =
      let s' = (token digests jose ring form raw taken granted now s).1 in
      let left : s'.redis ≡ remove (code_key second.code) s.redis =
        redis-token form payload raw taken granted now s h
        ∙ ap (λ c. remove (code_key c) s.redis) (sym same) in
      token-missing again second new_raw taken' granted' now' s' h'
        (ap (peek (code_key second.code) taken') left
          ∙ peek-remove (code_key second.code) taken' s.redis)
        (ap (remove (code_key second.code)) left
          ∙ remove_idem (code_key second.code) s.redis
          ∙ sym left)

  -- What a bundle for a code rests on.
  pub record Granted (payload : TokenRequest) (taken now : ℕ) (s : State)
      (b : TokenBundle jose.Token) (s' : State) : Type 0 where
    pub grant : Dict
    pub policy : Policy
    pub found : peek (code_key payload.code) taken s.redis ≡ some grant
    pub kind : (payload.grant_type == "authorization_code") ≡ true
    pub client : item grant "client_id" ≡ ok payload.client_id
    pub target : item grant "redirect_uri" ≡ ok payload.redirect_uri
    pub proof : item grant "code_challenge" ≡ ok (pkce_challenge digests payload.code_verifier)
    pub owner : item grant "user_id" ≡ ok b.user_id
    pub registered : client_by_id payload.client_id ≡ ok policy
    pub issued : Issued digests.sha256_hex jose ring b.user_id policy.audience now s.db b s'.db

  -- The comparisons of a request that is accepted.
  record Matches (payload : TokenRequest) (grant : Dict) : Type 0 where
    kind : (payload.grant_type == "authorization_code") ≡ true
    client : item grant "client_id" ≡ ok payload.client_id
    target : item grant "redirect_uri" ≡ ok payload.redirect_uri
    proof : item grant "code_challenge" ≡ ok (pkce_challenge digests payload.code_verifier)

  refused :
      {b : Bool} {r : Result Bool}
      → (if not b then ok false else r) ≡ ok true
      → (b ≡ true) × (r ≡ ok true)
  refused {b = true} h = (refl, h)
  refused {b = false} h = absurd (ground arith)

  is_valid-Matches :
      (payload : TokenRequest) (grant : Dict)
      → is_valid digests payload grant ≡ ok true
      → Matches payload grant
  is_valid-Matches payload grant h =
      let (kind, h₁) = refused h in
      let (client_id, c, h₂) = with_item-ok grant "client_id" _ h₁ in
      let (same, h₃) = refused h₂ in
      let (uri, r, h₄) = with_item-ok grant "redirect_uri" _ h₃ in
      let (same_uri, h₅) = refused h₄ in
      let (challenge, k, h₆) = with_item-ok grant "code_challenge" _ h₅ in
      record {
        kind = kind;
        client = c ∙ ap ok ((eq_iff client_id payload.client_id).0 same);
        target = r ∙ ap ok ((eq_iff uri payload.redirect_uri).0 same_uri);
        proof =
            k
            ∙ ap ok (
                sym (
                  (eq_iff (pkce_challenge digests payload.code_verifier) challenge).0
                    (ground arith)));
      }

  token_with-Granted :
      (payload : TokenRequest) (raw : String) (taken granted now : ℕ) (grant : Option Dict)
      (rest : Redis Dict) (s : State) (b : TokenBundle jose.Token) (s' : State)
      → peek (code_key payload.code) taken s.redis ≡ grant
      → token_with digests jose ring payload raw granted now grant (record s { redis = rest })
        ≡ (ok b, s')
      → Granted payload taken now s b s'
  token_with-Granted payload raw taken granted now none rest s b s' found h = absurd (ground arith)
  token_with-Granted payload raw taken granted now (some d) rest s b s' found h =
      elim (Result-cases (is_valid digests payload d)) [
        | inr (e, v) ↦ absurd (ground (arith, v, h))
        | inl (false, v) ↦ absurd (ground (arith, v, h))
        | inl (true, v) ↦ elim (Result-cases (client_by_id payload.client_id)) [
          | inr (e, c) ↦ absurd (ground (arith, v, c, h))
          | inl (policy, c) ↦ elim (Result-cases (item d "user_id")) [
            | inr (e, u) ↦ absurd (ground (arith, v, c, u, h))
            | inl (user_id, u) ↦
                let made : issue_bundle digests.sha256_hex jose ring user_id policy.audience none
                      raw granted now s.db
                    ≡ (ok b, s'.db) =
                  ground (arith, v, c, u, h) in
                let m = is_valid-Matches payload d v in
                let i =
                  issue_bundle-ok digests.sha256_hex jose ring user_id policy.audience raw none
                    granted now s.db b s'.db made in
                record {
                  grant = d;
                  policy = policy;
                  found = found;
                  kind = m.kind;
                  client = m.client;
                  target = m.target;
                  proof = m.proof;
                  owner = u ∙ ap ok (sym i.owner);
                  registered = c;
                  issued =
                      subst
                        (λ x.
                          Issued digests.sha256_hex jose ring x policy.audience now s.db b s'.db)
                        (sym i.owner) i;
                }
          ]
        ]
      ]

  -- A bundle is given for a code only while its grant is held, to the client and the redirect URI
  -- for which it was made and to whoever knows the verifier behind its challenge; the bundle is
  -- that of the user of the grant, who is active, for the audience of the client.
  pub token-Granted :
      (form : Dict) (payload : TokenRequest) (raw : String) (taken granted now : ℕ) (s : State)
      (b : TokenBundle jose.Token) (s' : State)
      → token_request form ≡ ok payload
      → token digests jose ring form raw taken granted now s ≡ (ok b, s')
      → Granted payload taken now s b s'
  token-Granted form payload raw taken granted now s b s' p h =
      let key = code_key payload.code in
      token_with-Granted payload raw taken granted now (peek key taken s.redis) (remove key s.redis)
        s b s' refl (sym (token-step form payload raw taken granted now s p) ∙ h)
