-- ===== src/KeyRing/Published.antt =====
-- The published key set (`jwks` of src/temis_sso/keyring.py) against `verification_key`.
use temis_sso_lab.Base.{
  ◌≡◌, ap, ◌∙◌, false, text_cases, Result-cases, String, Option, none, some, List, [], ◌∷◌, ◌==◌,
  eq_iff, arith, Result, ok, err, find, Bool-cases, Option-cases, inl, inr, if◌then◌else◌,
}
use temis_sso_lab.Jose.{Jose}
use temis_sso_lab.KeyRing.{
  KeyRecord, is_retired, is_verifying, Ring, verification_key, jwks_of, jwks,
}

abbrev pub to_option : {A : Type 0} → Result A → Option A
to_option (ok a) = some a
to_option (err e) = none

-- The entry of a key set for a kid, as a client looks it up.
pub lookup_kid : {K : Type 0} → String → List (String × K) → Option K
lookup_kid kid [] = none
lookup_kid kid ((j, key) ∷ keys) = if j == kid then some key else lookup_kid kid keys

module _ (jose : Jose) where
  open jose use {PublicKey}

  abbrev verified : (String → Option PublicKey) → List KeyRecord → String → Option PublicKey
  verified files rs kid = elim (find (is_verifying kid) rs) [ none ↦ none | some r ↦ files kid ]

  listed :
      (files : String → Option PublicKey) (r : KeyRecord) (rs : List KeyRecord) (kid : String)
      (key : PublicKey) (rest keys : List (String × PublicKey))
      → is_retired r.state ≡ false
      → files r.kid ≡ some key
      → jwks_of jose files (r ∷ rs) ≡ ok keys
      → jwks_of jose files rs ≡ ok rest
      → lookup_kid kid rest ≡ verified files rs kid
      → lookup_kid kid keys ≡ verified files (r ∷ rs) kid
  unfolding jwks_of lookup_kid find
  listed files r rs kid key rest keys p e h f ih =
      let shape : keys ≡ (r.kid, key) ∷ rest = ground arith in
      rw shape (elim (text_cases r.kid kid) [
        | inl same ↦ ground (arith, eq_iff r.kid kid, ap files same)
        | inr other ↦ ground arith
      ])

  lookup_kid-jwks_of :
      (files : String → Option PublicKey) (rs : List KeyRecord) (kid : String)
      {keys : List (String × PublicKey)}
      → jwks_of jose files rs ≡ ok keys
      → lookup_kid kid keys ≡ verified files rs kid
  unfolding jwks_of lookup_kid find
  lookup_kid-jwks_of files [] kid {keys} h = ground arith
  lookup_kid-jwks_of files (r ∷ rs) kid {keys} h = elim (Bool-cases (is_retired r.state)) [
    | inl p ↦ ground (arith, lookup_kid-jwks_of files rs kid {keys = keys})
    | inr p ↦ elim (Option-cases (files r.kid)) [
      | inl e ↦ absurd (ground arith)
      | inr (key, e) ↦ elim (Result-cases (jwks_of jose files rs)) [
        | inr (x, f) ↦ absurd (ground arith)
        | inl (rest, f) ↦
            listed files r rs kid key rest keys p e h f (lookup_kid-jwks_of files rs kid f)
      ]
    ]
  ]

  -- The published key set and the verifier agree, kid by kid: where `jwks` can read its files, it
  -- has an entry for a kid exactly if `verification_key` finds one, and the same key.
  pub lookup_kid-jwks :
      (ring : Ring jose) (kid : String) (keys : List (String × PublicKey))
      → jwks jose ring ≡ ok keys
      → lookup_kid kid keys ≡ to_option (verification_key jose ring kid)
  unfolding jwks verification_key
  lookup_kid-jwks ring kid keys h =
      lookup_kid-jwks_of ring.public_pem ring.records kid h ∙ ground arith
