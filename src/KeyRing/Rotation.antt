-- ===== src/KeyRing/Rotation.antt =====
-- A rotation of the key ring (src/temis_sso/keyring.py) can always be done and brought to its end.
use temis_sso_lab.Base.{
  le→ltb, ℕ, ◌+◌, ◌≤◌, ◌-◌, ◌≡◌, ◌≢◌, refl, ap, ◌∙◌, String, none, some, List, [], ◌∷◌, ◌++◌,
  eq_refl, arith, Result, ok, find, find-append, find-append_none, find-satisfies, subst,
}
use temis_sso_lab.Base.Json.{Fields}
use temis_sso_lab.Jose.{Jose}
use temis_sso_lab.KeyRing.{
  KeyRecord, is_active, has_kid, demote, demote_active, promote, new_record, update_first,
  activate_records, retire_records, Ring, publish, activate, retire, sign_claims,
}
use temis_sso_lab.KeyRing.Invariant.{
  find_active-promote, active_count-demote_active, activate_records-published, find-demote_active,
}
use temis_sso_lab.KeyRing.Overlap.{find-update_first_ne}

abbrev pub published_records : String → ℕ → List KeyRecord → List KeyRecord
published_records kid t₁ rs = rs ++ new_record kid t₁ ∷ []

module _ (kid : String) (t₁ t₂ : ℕ) (rs : List KeyRecord) where
  abbrev before : List KeyRecord
  before = published_records kid t₁ rs

  abbrev pub activated_records : List KeyRecord
  activated_records = update_first kid (promote t₂) (demote_active t₂ before)

  found_new : find (has_kid kid) rs ≡ none → find (has_kid kid) before ≡ some (new_record kid t₁)
  unfolding find
  found_new fresh = find-append_none (has_kid kid) rs _ fresh ∙ rw (eq_refl kid) refl

  activates :
      find (has_kid kid) rs ≡ none → activate_records kid t₂ before ≡ (ok tt, activated_records)
  activates fresh = activate_records-published kid t₂ before (found_new fresh) refl

  -- The new record is the active one.
  is_new :
      find (has_kid kid) rs ≡ none
      → find (λ r. is_active r.state) activated_records ≡ some (promote t₂ (new_record kid t₁))
  is_new fresh =
      find_active-promote kid t₂ (demote_active t₂ before)
        (find-demote_active kid t₂ before (found_new fresh)) (active_count-demote_active t₂ before)

  -- The record that was active is retiring from then on.
  is_demoted :
      (old : KeyRecord)
      → find (has_kid kid) rs ≡ none
      → find (λ r. is_active r.state) rs ≡ some old
      → find (has_kid old.kid) rs ≡ some old
      → find (has_kid old.kid) activated_records ≡ some (demote t₂ old)
  is_demoted old fresh signing first =
      let working = find-satisfies (λ r. is_active r.state) rs signing in
      let ne : old.kid ≢ kid = λ same. absurd (
        let clash = (subst (λ k. find (has_kid k) rs ≡ some old) same first) in
        ground (arith, clash, fresh)) in
      find-update_first_ne old.kid kid (promote t₂) (demote_active t₂ before) (λ r. refl) ne
      ∙ find-demote_active old.kid t₂ before (find-append (has_kid old.kid) rs _ first)
      ∙ rw working refl

module _ (jose : Jose) (overlap : ℕ) (private : jose.PrivateKey) (ring : Ring jose)
    (old : KeyRecord) where
  open jose use {public_key, fingerprint, encode}

  abbrev new_kid : String
  new_kid = fingerprint (public_key private)

  -- The steps of a rotation.
  pub record Rotated (t₁ t₂ t₃ : ℕ) : Type 0 where
    pub activated : (activate jose new_kid t₂ (publish jose private t₁ ring).1).0 ≡ ok tt
    pub signs :
        (claims : Fields)
        → sign_claims jose (activate jose new_kid t₂ (publish jose private t₁ ring).1).1 claims
          ≡ ok (encode claims private new_kid)
    pub retired :
        (retire jose overlap old.kid t₃
          (activate jose new_kid t₂ (publish jose private t₁ ring).1).1).0
        ≡ ok tt

  -- A rotation can always be done and brought to its end: a new key can be published and activated at
  -- any times, it signs from then on, and the key that signed before can be retired as soon as the
  -- overlap is over, if the new kid is not taken and that of the old key is its own.
  pub rotate-Rotated :
      (t₁ t₂ t₃ : ℕ)
      → find (has_kid new_kid) ring.records ≡ none
      → find (λ r. is_active r.state) ring.records ≡ some old
      → find (has_kid old.kid) ring.records ≡ some old
      → t₂ + overlap ≤ t₃
      → Rotated t₁ t₂ t₃
  unfolding publish activate retire retire_records sign_claims
  rotate-Rotated t₁ t₂ t₃ fresh signing first late =
      let done = activates new_kid t₁ t₂ ring.records fresh in
      record {
        activated = ap (λ (r : Result (Unit {0}) × List KeyRecord). r.0) done;
        signs = λ claims.
            rw (done, sign_claims, is_new new_kid t₁ t₂ ring.records fresh, eq_refl new_kid) refl;
        retired =
            rw
              (
                done,
                is_demoted new_kid t₁ t₂ ring.records old fresh signing first,
                le→ltb (t₃ - t₂) overlap (omega (arith, late)),
              )
              refl;
      }
