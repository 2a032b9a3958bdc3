-- ===== src/Tests/Keys.antt =====
-- Signing keys and access tokens at concrete inputs.
use Prim.Native.Nat.{◌*◌}
use temis_sso_lab.Base.{
  count_where, ok, none, some, String, Option, ◌≡◌, ◌≢◌, refl, List, [], ◌∷◌, find, arith, ℕ,
  eq_iff,
}
use temis_sso_lab.KeyRing.{
  KeyRecord, published, active, Ring, Event, publishes, activates, retires, second, minimum_overlap,
  configure, write, sign_claims, verification_key, jwks, run_events,
}
use temis_sso_lab.KeyRing.Overlap.{verification_key-run_events}
use temis_sso_lab.KeyRing.Published.{to_option, lookup_kid, lookup_kid-jwks}
use temis_sso_lab.Tokens.Access.{access_claims, issue_access, verify_access}
use temis_sso_lab.Tokens.RoundTrip.{verify_access-issue_access}
use temis_sso_lab.KeyRing.Runs.{IsSound, jwks-run_events}
use temis_sso_lab.Tests.Fixtures.{issued, toy_jose}

abbrev first_key : KeyRecord
first_key = record {
  kid = "k1";
  state = active;
  published_at = 0;
  activated_at = some 0;
  retiring_at = none;
}

abbrev second_key : KeyRecord
second_key = record {
  kid = "k2";
  state = published;
  published_at = 1;
  activated_at = none;
  retiring_at = none;
}

abbrev no_files : String → Option ℕ
no_files name = none

abbrev pub ring : Ring toy_jose
ring = record {
  records = first_key ∷ [];
  private_pem = write "k1" 1 no_files;
  public_pem = write "k1" 1 no_files;
}

abbrev pub rotation : List (ℕ × Event toy_jose)
rotation =
    (1 * second, publishes 2) ∷ (2 * second, activates "k2") ∷ (3 * second, retires "k1") ∷ []

pub k2_not_k1 : ◌≢◌ {A = String} "k2" "k1"
k2_not_k1 = ground (arith, eq_iff "k2" "k1")

verification_key-run_events_example :
    verification_key toy_jose (run_events toy_jose minimum_overlap rotation ring) "k1" ≡ ok 1
unfolding configure find
verification_key-run_events_example =
    verification_key-run_events toy_jose minimum_overlap minimum_overlap 0 (500 * second) "k1" 1
      ring rotation refl refl refl refl (omega arith) (omega arith) (k2_not_k1, tt)

verify_access-issue_access_example :
    verify_access toy_jose
      (run_events toy_jose minimum_overlap rotation ring)
      issued
      "temis-lab"
      (500 * second)
    ≡ ok (
        access_claims "ann"
          ("temis:user" ∷ [])
          "temis-lab"
          "temis-web"
          ("profile:read" ∷ "reports:read" ∷ [])
          1
          0)
unfolding configure find issue_access sign_claims
verify_access-issue_access_example =
    verify_access-issue_access toy_jose minimum_overlap minimum_overlap 0 (500 * second) ring
      rotation "ann" "temis-lab" "temis-web" ("temis:user" ∷ [])
      ("profile:read" ∷ "reports:read" ∷ []) 1 refl refl refl refl refl refl (omega arith)
      (omega arith) (k2_not_k1, tt)

lookup_kid-jwks_example :
    lookup_kid "k1" (("k1", 1) ∷ []) ≡ to_option (verification_key toy_jose ring "k1")
unfolding jwks
lookup_kid-jwks_example = lookup_kid-jwks toy_jose ring "k1" (("k1", 1) ∷ []) refl

ring-IsSound : IsSound toy_jose ring
unfolding count_where
ring-IsSound = record {
  formed = record { single = omega arith; stamped = ((λ h. ground (arith, h)), tt) };
  filed = ((1, refl, refl), tt);
}

jwks-run_events_example :
    IsSound toy_jose (run_events toy_jose minimum_overlap rotation ring)
    × ((keys : List (String × ℕ)) × (jwks toy_jose
            (run_events toy_jose minimum_overlap rotation ring)
          ≡ ok keys))
jwks-run_events_example = jwks-run_events toy_jose minimum_overlap rotation ring ring-IsSound
