-- ===== src/ResourceApi/Verifier/Status.antt =====
-- The cache of confirmed statuses in src/resource_api/auth.py.
use temis_sso_lab.Base.{
  eq_iff, ◌==◌, subst, ◌<◌, ◌⊎◌, ℕ, suc, ◌+◌, ◌≤◌, String, true, false, not, ◌||◌, Option, none,
  some, List, [], ◌∷◌, ok, ◌≡◌, refl, sym, arith, Result-cases, Bool-cases, inl, inr, All, find,
  leb, nat_eq,
}
use temis_sso_lab.Jose.{Jose}
use temis_sso_lab.ResourceApi.Verifier.{Settings, Cache, Services, lookup, Entry}
use temis_sso_lab.ResourceApi.Verifier.Authenticate.{ask_status, check_cached, check_status}

module _ (jose : Jose) (settings : Settings) (services : Services jose) where
  open jose use {PublicKey, Token, header, decode, decode-agrees}

  -- A version of a subject that the status service has confirmed, until when it is trusted.
  abbrev pub IsConfirmed : Entry (ℕ × ℕ) → Type 0
  IsConfirmed (subject, (until, version)) =
      (n : ℕ) × (services.status_check n subject version ≡ ok true)
      × (until ≡ services.clock n + settings.status_ttl)

  -- A confirmation of steps that began at the reading `start` and ended before the reading `end`:
  -- it is of the service's answer during them, or of one that was younger than `status_ttl` at a
  -- reading of the clock during them.
  abbrev pub IsCurrent : ℕ → ℕ → String → ℕ → Type 0
  IsCurrent start end subject version =
      (n : ℕ) × (services.status_check n subject version ≡ ok true)
      × (((start ≤ n) × (n < end))
          ⊎ ((k : ℕ) × (start ≤ k)
              × (k < end)
              × (services.clock k < services.clock n + settings.status_ttl)))

  ask_status-ok :
      (start : ℕ) (subject : String) (version : ℕ) (c c' : Cache jose)
      → start ≤ c.readings
      → All IsConfirmed c.status
      → ask_status jose settings services subject version c ≡ (ok tt, c')
      → IsCurrent start c'.readings subject version × All IsConfirmed c'.status
  ask_status-ok start subject version c c' late h e =
      elim (Result-cases (services.status_check c.readings subject version)) [
        | inr (x, s) ↦ absurd (ground (arith, s, e))
        | inl (false, s) ↦ absurd (ground (arith, s, e))
        | inl (true, s) ↦
            let n = c.readings in
            let entry : Entry (ℕ × ℕ) =
              (subject, (services.clock n + settings.status_ttl, version)) in
            let after : c'.status ≡ entry ∷ c.status = ground (arith, s, e) in
            let ends : c'.readings ≡ suc n = ground (arith, s, e) in
            (
              (n, s, inl (late, omega (arith, ends))),
              subst (All IsConfirmed) (sym after) ((n, s, refl), h),
            )
      ]

  lookup-IsConfirmed :
      (subject : String) (entries : List (Entry (ℕ × ℕ))) (until version : ℕ)
      → All IsConfirmed entries
      → lookup subject entries ≡ some (until, version)
      → IsConfirmed (subject, (until, version))
  unfolding find
  lookup-IsConfirmed subject [] until version h e = absurd (ground arith)
  lookup-IsConfirmed subject ((key, (t, v)) ∷ entries) until version (here, later) e =
      elim (Bool-cases (key == subject)) [
        | inl same ↦
            let times : t ≡ until = ground (arith, same, e) in
            let versions : v ≡ version = ground (arith, same, e) in
            subst (λ k. IsConfirmed (k, (until, version))) ((eq_iff key subject).0 same)
              (subst (λ w. IsConfirmed (key, (until, w))) versions
                (subst (λ w. IsConfirmed (key, (w, v))) times here))
        | inr differ ↦
            let tail : lookup subject entries ≡ some (until, version) = ground (arith, differ, e) in
            lookup-IsConfirmed subject entries until version later tail
      ]

  check_cached-ok :
      (subject : String) (version : ℕ) (found : Option (ℕ × ℕ)) (c c' : Cache jose)
      → lookup subject c.status ≡ found
      → All IsConfirmed c.status
      → check_cached jose settings services subject version found c ≡ (ok tt, c')
      → IsCurrent c.readings c'.readings subject version × All IsConfirmed c'.status
  check_cached-ok subject version none c c' f h e =
      ask_status-ok c.readings subject version c c' (omega arith) h e
  check_cached-ok subject version (some (until, cached)) c c' f h e =
      elim (Bool-cases (leb until (services.clock c.readings) || not (nat_eq cached version))) [
        | inl stale ↦
            ask_status-ok c.readings subject version (record c { readings = suc c.readings }) c'
              (omega arith) h (ground (arith, stale, e))
        | inr fresh ↦
            let k = c.readings in
            let (n, asked, expires) = lookup-IsConfirmed subject c.status until cached h f in
            let same : cached ≡ version = ground (arith, fresh) in
            let ahead : services.clock k < until = ground (arith, fresh) in
            let after : c'.status ≡ c.status = ground (arith, fresh, e) in
            let ends : c'.readings ≡ suc k = ground (arith, fresh, e) in
            (
              (
                n,
                subst (λ v. services.status_check n subject v ≡ ok true) same asked,
                inr (k, omega arith, omega (arith, ends), omega (arith, ahead, expires)),
              ),
              subst (All IsConfirmed) (sym after) h,
            )
      ]

  -- A status is trusted for `status_ttl` at most: where every entry of the cache was confirmed by the
  -- status service, a version that passes is confirmed by it for this subject in this call, or was so
  -- less than `status_ttl` before a reading of the clock that this call makes; and again every entry
  -- is one that was confirmed.
  pub check_status-IsCurrent :
      (subject : String) (version : ℕ) (c c' : Cache jose)
      → All IsConfirmed c.status
      → check_status jose settings services subject version c ≡ (ok tt, c')
      → IsCurrent c.readings c'.readings subject version × All IsConfirmed c'.status
  unfolding check_status
  check_status-IsCurrent subject version c c' h e =
      check_cached-ok subject version (lookup subject c.status) c c' refl h e
