-- ===== src/ResourceApi/Verifier/Stale.antt =====
-- How old the key set may be with which src/resource_api/auth.py opens a token.
use temis_sso_lab.Base.{
  ltb, ap, subst, sym, false, ℕ, suc, ◌+◌, ◌≤◌, String, [], ok, err, Exception, ◌≡◌, ◌⊎◌, refl, ◌∙◌,
  arith, Result-cases, Bool-cases, Option-cases, inl, inr, leb,
}
use temis_sso_lab.Jose.{Jose}
use temis_sso_lab.ResourceApi.Verifier.{
  unavailable, refresh_due, is_unavailable, after_due, Settings, Cache, Services, lookup, fetched,
  safe_refresh, unless_stale,
}

module _ (jose : Jose) (settings : Settings) (services : Services jose) where
  open jose use {PublicKey}
  open services use {clock, fetch_jwks}

  -- The keys are those of one answer, and the times are counted from the readings after it.
  pub record IsFetched (c : Cache jose) : Type 0 where
    pub at : ℕ
    pub answered : fetched jose settings services (fetch_jwks at) ≡ ok c.keys
    pub until : c.jwks_until ≡ clock at + settings.jwks_ttl
    pub stale : c.jwks_stale_until ≡ clock (suc at) + settings.jwks_ttl + settings.jwks_stale_ttl

  -- A verifier starts without keys.
  abbrev pub IsSound : Cache jose → Type 0
  IsSound c = (c.keys ≡ []) ⊎ IsFetched c

  -- At some reading of the clock, not before the given one, the keys were not stale, if there are any.
  abbrev pub IsTimely : ℕ → Cache jose → Type 0
  IsTimely start c = (c.keys ≡ []) ⊎ ((i : ℕ) × (start ≤ i) × (clock i ≤ c.jwks_stale_until))

  -- What a refresh leaves: the keys of the answer at this reading, and two readings more.
  pub safe_refresh-IsFetched :
      (c : Cache jose) {c' : Cache jose}
      → safe_refresh jose settings services c ≡ (ok tt, c')
      → (f : IsFetched c') × (f.at ≡ c.readings) × (c.readings ≤ c'.readings)
  unfolding safe_refresh
  safe_refresh-IsFetched c {c'} h =
      elim (Result-cases (fetched jose settings services (fetch_jwks c.readings))) [
        | inr (x, e) ↦ absurd (ground (arith, e, h))
        | inl (keys, e) ↦ (
          record {
            at = c.readings;
            answered = e ∙ ground (arith, e, h);
            until = ground (arith, e, h);
            stale = ground (arith, e, h);
          },
          refl,
          ground (arith, e, h),
        )
      ]

  safe_refresh-err :
      (c : Cache jose) {x : Exception}
      → (safe_refresh jose settings services c).0 ≡ err x
      → (safe_refresh jose settings services c).1 ≡ c
  unfolding safe_refresh
  safe_refresh-err c {x} h =
      elim (Result-cases (fetched jose settings services (fetch_jwks c.readings))) [
        | inr (y, e) ↦ rw e refl
        | inl (keys, e) ↦ absurd (ground (arith, e, h))
      ]

  unless_stale-ok :
      (kid : String) (x : Exception) (c : Cache jose) {c' : Cache jose}
      → unless_stale jose settings services kid x c ≡ (ok tt, c')
      → (clock c.readings ≤ c.jwks_stale_until) × (c' ≡ record c { readings = suc c.readings })
  unless_stale-ok kid x c {c'} h = elim (Option-cases (lookup kid c.keys)) [
    | inl e ↦ absurd (ground (arith, e, h))
    | inr (key, e) ↦ elim (Bool-cases (leb c.jwks_stale_until (clock c.readings))) [
      | inl f ↦ absurd (ground (arith, e, f, h))
      | inr f ↦ (ground (arith, f), ground (arith, e, f, h))
    ]
  ]

  until-IsTimely :
      (start : ℕ) (c : Cache jose) (i : ℕ)
      → start ≤ i
      → ((n : ℕ) → clock n ≤ clock (suc n))
      → IsSound c
      → leb c.jwks_until (clock i) ≡ false
      → IsTimely start c
  until-IsTimely start c i late mono (inl none_held) h = inl none_held
  until-IsTimely start c i late mono (inr f) h =
      inr (i, late, ground (arith, f.until, f.stale, mono f.at, h))

  pub fetched-IsTimely :
      (start : ℕ) (c : Cache jose) (f : IsFetched c) → start ≤ f.at → IsTimely start c
  fetched-IsTimely start c f late = inr (suc f.at, omega (arith, late), omega (arith, f.stale))

  -- The same keys with the same times.
  pub record SameKeys (c c' : Cache jose) : Type 0 where
    pub keys : c'.keys ≡ c.keys
    pub until : c'.jwks_until ≡ c.jwks_until
    pub stale : c'.jwks_stale_until ≡ c.jwks_stale_until

  pub IsFetched-same : (c c' : Cache jose) → SameKeys c c' → IsFetched c → IsFetched c'
  IsFetched-same c c' same f = record {
    at = f.at;
    answered = f.answered ∙ ap ok (sym same.keys);
    until = same.until ∙ f.until;
    stale = same.stale ∙ f.stale;
  }

  IsSound-same : (c c' : Cache jose) → SameKeys c c' → IsSound c → IsSound c'
  IsSound-same c c' same (inl e) = inl (same.keys ∙ e)
  IsSound-same c c' same (inr f) = inr (IsFetched-same c c' same f)

  pub IsTimely-same :
      (start : ℕ) (c c' : Cache jose) → SameKeys c c' → IsTimely start c → IsTimely start c'
  IsTimely-same start c c' same (inl e) = inl (same.keys ∙ e)
  IsTimely-same start c c' same (inr (i, late, h)) = inr (i, late, ground (arith, h, same.stale))

  -- What is left of the cache by steps that began at a reading.
  abbrev pub Served : ℕ → Cache jose → Type 0
  Served start c = IsSound c × IsTimely start c × (start ≤ c.readings)

  after_due-ok :
      (start : ℕ) (kid : String) (c : Cache jose) {c' : Cache jose}
      → start ≤ c.readings
      → IsSound c
      → after_due jose settings services kid (safe_refresh jose settings services c) ≡ (ok tt, c')
      → Served start c'
  after_due-ok start kid c {c'} late sound h =
      let r = safe_refresh jose settings services c in
      elim (Result-cases r.0) [
        | inl (done, e) ↦
            let (f, here, more) = safe_refresh-IsFetched c {c' = r.1} (ground (arith, e)) in
            let same : SameKeys r.1 c' = record {
              keys = ground (arith, e, h);
              until = ground (arith, e, h);
              stale = ground (arith, e, h);
            } in
            (
              inr (IsFetched-same r.1 c' same f),
              IsTimely-same start r.1 c' same
                  (fetched-IsTimely start r.1 f (omega (arith, late, here))),
              ground (arith, e, h, more, late),
            )
        | inr (x, e) ↦ elim (Bool-cases (is_unavailable jose settings services x)) [
          | inr f ↦ absurd (ground (arith, e, f, h))
          | inl f ↦
              let cooled = record c {
                refresh_error_until = clock c.readings + settings.refresh_cooldown;
                readings = suc c.readings;
              } in
              let failed : r ≡ (err x, c) = ground (arith, e, safe_refresh-err c e) in
              let rest : unless_stale jose settings services kid x cooled ≡ (ok tt, c') =
                rw⁻¹ h (rw (failed, after_due, f) refl) in
              let (timely, left) = unless_stale-ok kid x cooled rest in
              let more : c'.readings ≡ suc (suc c.readings) =
                ap (λ (d : Cache jose). d.readings) left in
              let same : SameKeys c c' = record {
                keys = ap (λ (d : Cache jose). d.keys) left;
                until = ap (λ (d : Cache jose). d.jwks_until) left;
                stale = ap (λ (d : Cache jose). d.jwks_stale_until) left;
              } in
              (
                IsSound-same c c' same sound,
                inr (cooled.readings, omega (arith, late), ground (arith, timely, same.stale)),
                omega (arith, late, more),
              )
        ]
      ]

  pub refresh_due-ok :
      (kid : String) (c : Cache jose) {c' : Cache jose}
      → ((n : ℕ) → clock n ≤ clock (suc n))
      → IsSound c
      → refresh_due jose settings services kid c ≡ (ok tt, c')
      → Served c.readings c'
  unfolding refresh_due
  refresh_due-ok kid c {c'} mono sound h =
      let i₁ = c.readings in
      let c₁ = record c { readings = suc i₁ } in
      let c₂ = record c { readings = suc (suc i₁) } in
      let c₃ = record c { readings = suc (suc (suc i₁)) } in
      let moved : (n : ℕ) → SameKeys c (record c { readings = n }) =
        λ n. record { keys = refl; until = refl; stale = refl } in
      elim (Bool-cases (leb c.jwks_until (clock i₁))) [
        | inr e ↦
            let left : c₁ ≡ c' = ground (arith, e, h) in
            subst (Served i₁) left (
              IsSound-same c c₁ (moved _) sound,
              IsTimely-same i₁ c c₁ (moved _) (until-IsTimely i₁ c i₁ (omega arith) mono sound e),
              omega arith,
            )
        | inl e ↦ elim (Bool-cases (leb c.jwks_until (clock (suc i₁)))) [
          | inr f ↦
              let left : c₂ ≡ c' = ground (arith, e, f, h) in
              subst (Served i₁) left (
                IsSound-same c c₂ (moved _) sound,
                IsTimely-same i₁ c c₂ (moved _)
                    (until-IsTimely i₁ c (suc i₁) (omega arith) mono sound f),
                omega arith,
              )
          | inl f ↦ elim (Bool-cases (ltb (clock (suc (suc i₁))) c.refresh_error_until)) [
            | inl g ↦
                let (timely, left) =
                  unless_stale-ok kid unavailable c₃ {c' = c'} (ground (arith, e, f, g, h)) in
                subst (Served i₁) (sym left) (
                  IsSound-same c _ (moved _) sound,
                  inr (c₃.readings, omega arith, timely),
                  omega arith,
                )
            | inr g ↦
                after_due-ok i₁ kid c₃ (omega arith) (IsSound-same c c₃ (moved _) sound)
                  (ground (arith, e, f, g, h))
          ]
        ]
      ]
