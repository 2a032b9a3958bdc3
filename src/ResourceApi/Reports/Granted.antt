-- ===== src/ResourceApi/Reports/Granted.antt =====
-- Who gets the reports of src/resource_api/app.py.
use temis_sso_lab.Base.{
  ℕ, String, true, some, any, Result, ok, err, ◌≡◌, refl, ap, ◌∙◌, arith, Bool-cases, inl, inr,
  resume, lift, rethrow, rethrow-ok, ◌==◌,
}
use temis_sso_lab.Base.Text.{starts_with, remove_prefix}
use temis_sso_lab.Jose.{Jose}
use temis_sso_lab.ResourceApi.Verifier.{Settings, Principal, Cache, Services}
use temis_sso_lab.ResourceApi.Verifier.Authenticate.{authenticate}
use temis_sso_lab.ResourceApi.Verifier.Accepted.{Accepted, authenticate-Accepted}
use temis_sso_lab.ResourceApi.Reports.{as_status, is_allowed, permit, reports}

permit-ok :
    (p : Principal) (subject : String)
    → permit p ≡ ok subject
    → (any (λ s. s == "reports:read") p.scopes ≡ true)
      × (is_allowed p ≡ true)
      × (subject ≡ p.subject)
permit-ok p subject h = elim (Bool-cases (any (λ s. s == "reports:read") p.scopes)) [
  | inr e ↦ absurd (ground (arith, e, h))
  | inl e ↦ elim (Bool-cases (is_allowed p)) [
    | inr a ↦ absurd (ground (arith, e, a, h))
    | inl a ↦ (e, a, ground (arith, e, a, h))
  ]
]

module _ (jose : Jose) (settings : Settings) (services : Services jose) where
  open jose use {Token, read}

  permitted :
      (r : Result Principal) (c c' : Cache jose) (subject : String)
      → resume (r, c) (λ p. lift (permit p)) ≡ (ok subject, c')
      → (p : Principal) × (r ≡ ok p) × (permit p ≡ ok subject) × (c ≡ c')
  permitted (err e) c c' subject h = absurd (ground arith)
  permitted (ok p) c c' subject h = (
    p,
    refl,
    ap (λ (x : Result String × Cache jose). x.0) h,
    ap (λ (x : Result String × Cache jose). x.1) h,
  )

  bearer-step :
      (authorization : String) (wall : ℕ) (c : Cache jose)
      → starts_with authorization "Bearer " ≡ true
      → rethrow as_status (
          resume
            (authenticate jose settings services
              (read (remove_prefix authorization "Bearer "))
              wall
              c)
            (λ p. lift (permit p)))
        ≡ reports jose settings services (some authorization) wall c
  unfolding reports
  bearer-step authorization wall c same = rw (reports, same) refl

  reports-step :
      (authorization : String) (wall : ℕ) (c c' : Cache jose) (subject : String)
      → reports jose settings services (some authorization) wall c ≡ (ok subject, c')
      → (starts_with authorization "Bearer " ≡ true)
        × (resume
              (authenticate jose settings services
                (read (remove_prefix authorization "Bearer "))
                wall
                c)
              (λ p. lift (permit p))
            ≡ (ok subject, c'))
  unfolding reports
  reports-step authorization wall c c' subject h =
      elim (Bool-cases (starts_with authorization "Bearer ")) [
        | inr other ↦ absurd (ground (arith, other, h))
        | inl same ↦ (same, rethrow-ok as_status _ (bearer-step authorization wall c same ∙ h))
      ]

  -- The reports are answered only to the bearer of a token that the verifier accepts, whose scopes
  -- have `reports:read` and whose roles have that of a user or an administrator; the answer names
  -- the token's subject.
  pub reports-Accepted :
      (authorization : String) (wall : ℕ) (c c' : Cache jose) (subject : String)
      → reports jose settings services (some authorization) wall c ≡ (ok subject, c')
      → (starts_with authorization "Bearer " ≡ true)
        × ((p : Principal) × Accepted jose settings services
              (read (remove_prefix authorization "Bearer "))
              wall
              c
              p
              c'
            × (subject ≡ p.subject)
            × (any (λ s. s == "reports:read") p.scopes ≡ true)
            × (is_allowed p ≡ true))
  reports-Accepted authorization wall c c' subject h =
      let (bearing, step) = reports-step authorization wall c c' subject h in
      let token = read (remove_prefix authorization "Bearer ") in
      let (r, c₁) = authenticate jose settings services token wall c in
      let (p, found, allowed, after) = permitted r c₁ c' subject step in
      let (scope, role, named) = permit-ok p subject allowed in
      let run : authenticate jose settings services token wall c ≡ (ok p, c') =
        ap (λ x. (x, c₁)) found ∙ ap (λ x. (ok p, x)) after in
      (
        bearing,
        (p, authenticate-Accepted jose settings services token wall c p c' run, named, scope, role),
      )
