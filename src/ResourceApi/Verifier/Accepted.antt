-- ===== src/ResourceApi/Verifier/Accepted.antt =====
-- What the principals of src/resource_api/auth.py rest on.
use temis_sso_lab.Base.{
  Action, ◌>>=◌, lift, Option-cases, eq_iff, ◌==◌, pure, resume, subst, ℕ, String, true, Option,
  none, some, Result, ok, err, ◌≡◌, refl, ap, ◌∙◌, arith, Bool-cases, inl, inr,
}
use temis_sso_lab.Base.Json.{Fields, get, as_str}
use temis_sso_lab.Jose.{Header, agrees, Jose}
use temis_sso_lab.ResourceApi.Verifier.{Principal, Settings, Cache, Services}
use temis_sso_lab.ResourceApi.Verifier.Authenticate.{
  with_kid, authenticate, decoded, version_of, signing_key, checks, principal_of, is_bound, accept,
  check_status,
}

module _ (jose : Jose) (settings : Settings) (services : Services jose) where
  open jose use {PublicKey, Token, header, decode, decode-agrees}

  -- What the principal of a token rests on: a key of the key set that opens the token, the claims
  -- with what they must agree with, and the status of its subject.
  pub record Accepted (token : Token) (wall : ℕ) (c : Cache jose) (p : Principal) (c' : Cache jose)
      : Type 0 where
    pub kid : String
    pub key : PublicKey
    pub claims : Fields
    pub between : Cache jose
    pub shown : header token ≡ some (record { alg = "RS256"; kid = some kid })
    pub found : signing_key jose settings services kid c ≡ (ok key, between)
    pub opened : decode token key (checks jose settings services) wall ≡ some claims
    pub agreed : agrees (checks jose settings services) claims ≡ true
    pub bound : is_bound jose settings services claims ≡ true
    pub subject : as_str (get claims "sub") ≡ some p.subject
    pub version : version_of (get claims "authz_version") ≡ some p.authz_version
    pub status : check_status jose settings services p.subject p.authz_version between ≡ (ok tt, c')

  record Admitted (claims : Fields) (c : Cache jose) (p : Principal) (c' : Cache jose)
      : Type 0 where
    bound : is_bound jose settings services claims ≡ true
    subject : as_str (get claims "sub") ≡ some p.subject
    version : version_of (get claims "authz_version") ≡ some p.authz_version
    status : check_status jose settings services p.subject p.authz_version c ≡ (ok tt, c')

  passed :
      (claims : Fields) (subject : String) (version : ℕ) (r : Result (Unit {0})) (c : Cache jose)
      (p : Principal) (c' : Cache jose)
      → resume (r, c) (λ u. pure (principal_of jose settings services claims subject version))
        ≡ (ok p, c')
      → (r ≡ ok tt) × (principal_of jose settings services claims subject version ≡ p) × (c ≡ c')
  passed claims subject version (err e) c p c' h = absurd (ground arith)
  passed claims subject version (ok u) c p c' h =
      (refl, ground (arith, h), ap (λ (x : Result Principal × Cache jose). x.1) h)

  bound-step :
      (claims : Fields) (subject : String) (version : ℕ) (c : Cache jose)
      → is_bound jose settings services claims ≡ true
      → resume
          (check_status jose settings services subject version c)
          (λ u. pure (principal_of jose settings services claims subject version))
        ≡ accept jose settings services claims (some subject) (some version) c
  bound-step claims subject version c b = rw b refl

  accept-Admitted :
      (claims : Fields) (subject : Option String) (version : Option ℕ) (c : Cache jose)
      (p : Principal) (c' : Cache jose)
      → as_str (get claims "sub") ≡ subject
      → version_of (get claims "authz_version") ≡ version
      → accept jose settings services claims subject version c ≡ (ok p, c')
      → Admitted claims c p c'
  accept-Admitted claims none version c p c' s v h = absurd (ground arith)
  accept-Admitted claims (some subject) none c p c' s v h = absurd (ground arith)
  accept-Admitted claims (some subject) (some version) c p c' s v h =
      elim (Bool-cases (is_bound jose settings services claims)) [
        | inr b ↦ absurd (ground (arith, b, h))
        | inl b ↦
            let (r, c₂) = check_status jose settings services subject version c in
            let (done, same, after) =
              passed claims subject version r c₂ p c' (bound-step claims subject version c b ∙ h) in
            record {
              bound = b;
              subject = s ∙ ap (λ (q : Principal). some q.subject) same;
              version = v ∙ ap (λ (q : Principal). some q.authz_version) same;
              status =
                  subst
                    (λ (q : Principal).
                      check_status jose settings services q.subject q.authz_version c ≡ (ok tt, c'))
                    same (ap (λ x. (x, c₂)) done ∙ ap (λ x. (ok tt, x)) after);
            }
      ]

  abbrev after_key : Token → ℕ → PublicKey → Action (Cache jose) Principal
  after_key token wall key =
      lift (decoded jose settings services (decode token key (checks jose settings services) wall))
      >>= λ claims.
          accept jose settings services claims (as_str (get claims "sub"))
            (version_of (get claims "authz_version"))

  opened-step :
      (token : Token) (wall : ℕ) (key : PublicKey) (claims : Fields) (c : Cache jose)
      → decode token key (checks jose settings services) wall ≡ some claims
      → accept jose settings services claims
          (as_str (get claims "sub"))
          (version_of (get claims "authz_version"))
          c
        ≡ after_key token wall key c
  opened-step token wall key claims c d = rw d refl

  header-step :
      (token : Token) (wall : ℕ) (c : Cache jose) (h : Header) (kid : String)
      → header token ≡ some h
      → h.kid ≡ some kid
      → (h.alg == "RS256") ≡ true
      → resume (signing_key jose settings services kid c) (after_key token wall)
        ≡ authenticate jose settings services token wall c
  unfolding authenticate
  header-step token wall c h kid e k same = rw (e, with_kid, k, same) refl

  keyed :
      (token : Token) (wall : ℕ) (kid : String) (c : Cache jose) (p : Principal) (c' : Cache jose)
      (r : Result PublicKey) (c₁ : Cache jose)
      → header token ≡ some (record { alg = "RS256"; kid = some kid })
      → signing_key jose settings services kid c ≡ (r, c₁)
      → resume (r, c₁) (after_key token wall) ≡ (ok p, c')
      → Accepted token wall c p c'
  keyed token wall kid c p c' (err e) c₁ shown found h = absurd (ground arith)
  keyed token wall kid c p c' (ok key) c₁ shown found h =
      elim (Option-cases (decode token key (checks jose settings services) wall)) [
        | inl d ↦ absurd (ground (arith, d, h))
        | inr (claims, d) ↦
            let a =
              accept-Admitted claims (as_str (get claims "sub"))
                (version_of (get claims "authz_version")) c₁ p c' refl refl
                (opened-step token wall key claims c₁ d ∙ h) in
            record {
              kid = kid;
              key = key;
              claims = claims;
              between = c₁;
              shown = shown;
              found = found;
              opened = d;
              agreed = decode-agrees token key (checks jose settings services) wall d;
              bound = a.bound;
              subject = a.subject;
              version = a.version;
              status = a.status;
            }
      ]

  -- A principal is made only of a token that shows RS256 and a kid, opens with the key that the
  -- verifier has for the kid, agrees with the issuer, the audience and the required claims, was made
  -- for exactly this audience and client, and whose subject and version passed the status check.
  pub authenticate-Accepted :
      (token : Token) (wall : ℕ) (c : Cache jose) (p : Principal) (c' : Cache jose)
      → authenticate jose settings services token wall c ≡ (ok p, c')
      → Accepted token wall c p c'
  unfolding authenticate
  authenticate-Accepted token wall c p c' h = elim (Option-cases (header token)) [
    | inl none_ ↦ absurd (ground (arith, none_, h))
    | inr (shown, e) ↦ elim (Option-cases shown.kid) [
      | inl no_kid ↦ absurd (ground (arith, e, no_kid, h))
      | inr (kid, k) ↦ elim (Bool-cases (shown.alg == "RS256")) [
        | inr other ↦ absurd (ground (arith, e, k, other, h))
        | inl same ↦
            let (r, c₁) = signing_key jose settings services kid c in
            keyed token wall kid c p c' r c₁ (ground (arith, e, k, eq_iff shown.alg "RS256", same))
              refl (header-step token wall c shown kid e k same ∙ h)
      ]
    ]
  ]
