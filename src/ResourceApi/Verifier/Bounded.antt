-- ===== src/ResourceApi/Verifier/Bounded.antt =====
-- The bound on the age of a key that src/resource_api/auth.py trusts.
use temis_sso_lab.Base.{
  ℕ, suc, ◌+◌, ◌≤◌, String, some, ok, ◌≡◌, sym, ap, ◌∙◌, subst, arith, Result-cases, Bool-cases,
  Option-cases, inl, inr, find, leb, ltb,
}
use temis_sso_lab.Jose.{Jose}
use temis_sso_lab.ResourceApi.Verifier.{
  Settings, Cache, Services, lookup, time_or_zero, fetched, safe_refresh, refresh_due,
  set_error_until,
}
use temis_sso_lab.ResourceApi.Verifier.Authenticate.{
  wait, key_or_unknown, signing_key, after_unknown,
}
use temis_sso_lab.ResourceApi.Verifier.Stale.{
  IsFetched, IsSound, IsTimely, SameKeys, safe_refresh-IsFetched, fetched-IsTimely, IsTimely-same,
  IsFetched-same, refresh_due-ok,
}

module _ (jose : Jose) (settings : Settings) (services : Services jose) where
  open jose use {PublicKey}
  open services use {clock, fetch_jwks}

  -- The key of an answer of the service that is not older than both times together.
  pub record Recent (start : ℕ) (kid : String) (key : PublicKey) (c : Cache jose) : Type 0 where
    pub at : ℕ
    pub answered : fetched jose settings services (fetch_jwks at) ≡ ok c.keys
    pub held : lookup kid c.keys ≡ some key
    pub reading : ℕ
    pub during : start ≤ reading
    pub young : clock reading ≤ clock (suc at) + settings.jwks_ttl + settings.jwks_stale_ttl

  held-Recent :
      (start : ℕ) (kid : String) (key : PublicKey) (c : Cache jose)
      → IsSound jose settings services c
      → IsTimely jose settings services start c
      → lookup kid c.keys ≡ some key
      → Recent start kid key c
  unfolding find
  held-Recent start kid key c (inl e) timely held =
      absurd (let clash = (rw e at held) in ground (arith, clash))
  held-Recent start kid key c (inr f) (inl e) held =
      absurd (let clash = (rw e at held) in ground (arith, clash))
  held-Recent start kid key c (inr f) (inr (i, late, h)) held = record {
    at = f.at;
    answered = f.answered;
    held = held;
    reading = i;
    during = late;
    young = ground (arith, h, f.stale);
  }

  after_unknown-Recent :
      (start : ℕ) (kid : String) (c : Cache jose) {key : PublicKey} {c' : Cache jose}
      → start ≤ c.readings
      → after_unknown jose settings services kid (safe_refresh jose settings services c)
        ≡ (ok key, c')
      → IsFetched jose settings services c' × Recent start kid key c'
  after_unknown-Recent start kid c {key} {c'} late h =
      let r = safe_refresh jose settings services c in
      elim (Result-cases r.0) [
        | inr (x, e) ↦ absurd (ground (arith, e, h))
        | inl (done, e) ↦ elim (Option-cases (lookup kid r.1.keys)) [
          | inl f ↦ absurd (ground (arith, e, f, h))
          | inr (k, f) ↦
              let (fetched_now, here, more) =
                safe_refresh-IsFetched jose settings services c {c' = r.1} (ground (arith, e)) in
              let left : set_error_until jose settings services 0 r.1 ≡ c' =
                ground (arith, e, f, h) in
              let same : SameKeys jose settings services r.1 c' = record {
                keys = ap (λ (d : Cache jose). d.keys) (sym left);
                until = ap (λ (d : Cache jose). d.jwks_until) (sym left);
                stale = ap (λ (d : Cache jose). d.jwks_stale_until) (sym left);
              } in
              let still = IsFetched-same jose settings services r.1 c' same fetched_now in
              let found : lookup kid c'.keys ≡ some key =
                ap (lookup kid) same.keys ∙ f ∙ ground (arith, e, f, h) in
              (
                still,
                held-Recent start kid key c' (inr still)
                    (IsTimely-same jose settings services start r.1 c' same (
                      fetched-IsTimely jose settings services start r.1 fetched_now
                        (omega (arith, late, here))))
                    found,
              )
        ]
      ]

  key_or_unknown-Recent :
      (start : ℕ) (kid : String) (c : Cache jose) {key : PublicKey} {c' : Cache jose}
      → IsSound jose settings services c
      → IsTimely jose settings services start c
      → start ≤ c.readings
      → key_or_unknown jose settings services kid (lookup kid c.keys) c ≡ (ok key, c')
      → IsSound jose settings services c' × Recent start kid key c'
  key_or_unknown-Recent start kid c {key} {c'} sound timely late h =
      let i = c.readings in
      let negative = time_or_zero (lookup kid c.negative_kids) in
      let limit = clock (suc (suc (suc (suc i)))) + wait jose settings services in
      let c₅ = record c {
        readings = suc (suc (suc (suc (suc i))));
        unknown_refresh_after = limit;
      } in
      elim (Option-cases (lookup kid c.keys)) [
        | inr (k, e) ↦
            let left : c ≡ c' = ground (arith, e, h) in
            let same : k ≡ key = ground (arith, e, h) in
            subst (λ d. IsSound jose settings services d × Recent start kid key d) left
              (sound, held-Recent start kid key c sound timely (e ∙ ap some same))
        | inl e ↦ elim (Bool-cases (ltb (clock i) negative)) [
          | inl f ↦ absurd (ground (arith, e, f, h))
          | inr f ↦ elim (Bool-cases (ltb (clock (suc i)) negative)) [
            | inl g ↦ absurd (ground (arith, e, f, g, h))
            | inr g ↦ elim (Bool-cases (ltb (clock (suc (suc i))) c.refresh_error_until)) [
              | inl k ↦ absurd (ground (arith, e, f, g, k, h))
              | inr k ↦
                  elim (Bool-cases (leb c.unknown_refresh_after (clock (suc (suc (suc i)))))) [
                    | inr l ↦ absurd (ground (arith, e, f, g, k, l, h))
                    | inl l ↦
                        let (fetched_now, recent) =
                          after_unknown-Recent start kid c₅ {key = key} {c' = c'}
                            (omega (arith, late)) (ground (arith, e, f, g, k, l, h)) in
                        (inr fetched_now, recent)
                  ]
            ]
          ]
        ]
      ]

  -- A key is trusted for `jwks_ttl` and `jwks_stale_ttl` at most: the key that opens a token is that
  -- of its kid in an answer of the key service, and at a reading of the clock during this call the
  -- answer was not older than the two times together, counted from the reading that followed it, also
  -- where the service fails; and the cache stays sound. The clock is assumed not to go back.
  pub signing_key-Recent :
      (kid : String) (c : Cache jose) (key : PublicKey) (c' : Cache jose)
      → ((n : ℕ) → clock n ≤ clock (suc n))
      → IsSound jose settings services c
      → signing_key jose settings services kid c ≡ (ok key, c')
      → IsSound jose settings services c' × Recent c.readings kid key c'
  unfolding signing_key
  signing_key-Recent kid c key c' mono sound h =
      let r = refresh_due jose settings services kid c in
      elim (Result-cases r.0) [
        | inr (x, e) ↦ absurd (ground (arith, e, h))
        | inl (done, e) ↦
            let (sound₁, timely, late) =
              refresh_due-ok jose settings services kid c {c' = r.1} mono sound
                (ground (arith, e)) in
            key_or_unknown-Recent c.readings kid r.1 sound₁ timely late (ground (arith, e, h))
      ]
