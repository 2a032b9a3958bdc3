-- ===== src/ExternalIdp/Jwks/Fresh.antt =====
-- The keys that `JwksCache` gives: how old they are, and how many requests it sends.
use temis_sso_lab.Base.{
  [], ltb→lt, ℕ, suc, ◌+◌, ◌≤◌, ◌<◌, String, some, List, ok, ◌≡◌, ◌⊎◌, arith, Result-cases,
  Bool-cases, Option-cases, inl, inr, find, ltb, eq_refl,
}
use temis_sso_lab.Base.Json.{Fields}
use temis_sso_lab.Http.{send, requests-send, Http, Response, get_of, as_dict, items_of, is_success}
use temis_sso_lab.ExternalIdp.Models.{ProviderMetadata}
use temis_sso_lab.ExternalIdp.Stores.{lookup}
use temis_sso_lab.ExternalIdp.Jwks.{refresh_key, Keys, KeySet, has_kid, max_age, refresh, key}

module _ (http : Http) (metadata : ProviderMetadata) (now : ℕ) where
  -- A set that was fetched now, as the next request was answered.
  pub record Fetched (s : Keys) (keys : List Fields) (s' : Keys) : Type 0 where
    pub response : Response
    pub answered : http.answer s.requests (get_of metadata.jwks_uri []) ≡ ok response
    pub held :
        lookup metadata.jwks_uri s'.entries
        ≡ some (record { fresh_until = now + max_age response.cache_control; keys = keys })

  refresh-Fetched :
      (s : Keys) {keys : List Fields} {s' : Keys}
      → refresh http metadata now s ≡ (ok keys, s')
      → Fetched s keys s'
  unfolding refresh find
  refresh-Fetched s {keys} {s'} h =
      elim (Result-cases (http.answer s.requests (get_of metadata.jwks_uri []))) [
        | inr (x, a) ↦ absurd (ground (arith, a, h))
        | inl (response, a) ↦ elim (Bool-cases (is_success response)) [
          | inr b ↦ absurd (ground (arith, a, b, h))
          | inl b ↦ elim (Result-cases response.json) [
            | inr (x, c) ↦ absurd (ground (arith, a, b, c, h))
            | inl (payload, c) ↦ elim (Result-cases (as_dict payload)) [
              | inr (x, d) ↦ absurd (ground (arith, a, b, c, d, h))
              | inl (document, d) ↦ elim (Result-cases (items_of document "keys")) [
                | inr (x, e) ↦ absurd (ground (arith, a, b, c, d, e, h))
                | inl (items, e) ↦ record {
                  response = response;
                  answered = a;
                  held = ground (arith, a, b, c, d, e, h, eq_refl metadata.jwks_uri);
                }
              ]
            ]
          ]
        ]
      ]

  requests-refresh : (s : Keys) → (refresh http metadata now s).1.requests ≡ suc s.requests
  unfolding refresh
  requests-refresh s =
      let sent = requests-send http (get_of metadata.jwks_uri []) s.requests in
      elim (Result-cases (send http (get_of metadata.jwks_uri []) s.requests).0) [
        | inr (x, a) ↦ rw a sent
        | inl (response, a) ↦ elim (Result-cases response.json) [
          | inr (x, c) ↦ rw (a, c) sent
          | inl (payload, c) ↦ elim (Result-cases (as_dict payload)) [
            | inr (x, d) ↦ rw (a, c, d) sent
            | inl (document, d) ↦ elim (Result-cases (items_of document "keys")) [
              | inr (x, e) ↦ rw (a, c, d, e) sent
              | inl (items, e) ↦ rw (a, c, d, e) sent
            ]
          ]
        ]
      ]

  -- A key of the set that is held under the address of the provider: the set is fresh, or it was
  -- fetched now.
  pub record Current (kid : String) (s : Keys) (k : Fields) (s' : Keys) : Type 0 where
    pub set : KeySet
    pub held : lookup metadata.jwks_uri s'.entries ≡ some set
    pub found : find (has_kid kid) set.keys ≡ some k
    pub recent : (now < set.fresh_until) ⊎ Fetched s set.keys s'

  refreshed-Current :
      (kid : String) (s : Keys) {k : Fields} {s' : Keys}
      → (refresh_key http metadata now kid s) ≡ (ok k, s')
      → Current kid s k s'
  refreshed-Current kid s {k} {s'} h =
      let r = refresh http metadata now s in
      elim (Result-cases r.0) [
        | inr (x, a) ↦ absurd (ground (arith, a, h))
        | inl (keys, a) ↦ elim (Option-cases (find (has_kid kid) keys)) [
          | inl none_found ↦ absurd (ground (arith, a, none_found, h))
          | inr (found, e) ↦
              let fetched : Fetched s keys s' = refresh-Fetched s (ground (arith, a, e, h)) in
              record {
                set = _;
                held = fetched.held;
                found = ground (arith, a, e, h);
                recent = inr fetched;
              }
        ]
      ]

  -- The key that a lookup gives is one of a set that is fresh or was fetched by this lookup, and has
  -- the kid that was asked for.
  pub key-Current :
      (kid : String) (s : Keys) {k : Fields} {s' : Keys}
      → key http metadata now kid s ≡ (ok k, s')
      → Current kid s k s'
  unfolding key
  key-Current kid s {k} {s'} h = elim (Option-cases (lookup metadata.jwks_uri s.entries)) [
    | inl e ↦ refreshed-Current kid s (ground (arith, e, h))
    | inr (set, e) ↦ elim (Bool-cases (ltb now set.fresh_until)) [
      | inr stale ↦ refreshed-Current kid s (ground (arith, e, stale, h))
      | inl fresh ↦ elim (Option-cases (find (has_kid kid) set.keys)) [
        | inl lost ↦ refreshed-Current kid s (ground (arith, e, fresh, lost, h))
        | inr (found, f) ↦ record {
          set = set;
          held = ground (arith, e, fresh, f, h);
          found = ground (arith, e, fresh, f, h);
          recent = inl (ltb→lt now set.fresh_until fresh);
        }
      ]
    ]
  ]

  requests-refresh_key :
      (kid : String) (s : Keys) → (refresh_key http metadata now kid s).1.requests ≡ suc s.requests
  requests-refresh_key kid s = elim (Result-cases (refresh http metadata now s).0) [
    | inr (x, a) ↦ rw a (requests-refresh s)
    | inl (keys, a) ↦ rw a (requests-refresh s)
  ]

  -- A lookup sends at most one request, whatever it finds.
  pub requests-key :
      (kid : String) (s : Keys) → (key http metadata now kid s).1.requests ≤ s.requests + 1
  unfolding key
  requests-key kid s = elim (Option-cases (lookup metadata.jwks_uri s.entries)) [
    | inl e ↦ rw e (omega (arith, requests-refresh_key kid s))
    | inr (set, e) ↦ elim (Bool-cases (ltb now set.fresh_until)) [
      | inr stale ↦ rw (e, stale) (omega (arith, requests-refresh_key kid s))
      | inl fresh ↦ elim (Option-cases (find (has_kid kid) set.keys)) [
        | inl lost ↦ rw (e, fresh, lost) (omega (arith, requests-refresh_key kid s))
        | inr (found, f) ↦ rw (e, fresh, f) (omega arith)
      ]
    ]
  ]
