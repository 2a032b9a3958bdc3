-- ===== src/Tokens/RoundTrip.antt =====
-- Access tokens of src/temis_sso/tokens.py: what is issued verifies, also after key rotation.
use Prim.Native.Nat.{◌/◌}
use temis_sso_lab.Base.{
  ℕ, ◌+◌, ◌*◌, ◌<◌, ◌≤◌, ◌≡◌, refl, String, true, some, List, eq_refl, arith, find, all,
  find-satisfies, ok, lt→ltb, le→ltb,
}
use temis_sso_lab.Base.Json.{Fields, get, has_key}
use temis_sso_lab.Jose.{Jose, agrees, is_timely, is_plain}
use temis_sso_lab.KeyRing.{
  KeyRecord, Ring, Event, second, configure, is_active, has_kid, sign_claims, verification_key,
  run_events,
}
use temis_sso_lab.KeyRing.Overlap.{IsOrdered, IsOrdered-le, IsFresh, verification_key-run_events}
use temis_sso_lab.Tokens.Access.{access_claims, access_checks, issue_access, verify_access}

module _ (user_id audience client_id : String) (roles scopes : List String) (version t : ℕ) where
  abbrev claims : Fields
  claims = access_claims user_id roles audience client_id scopes version t

  agrees-access_claims : agrees (access_checks audience) claims ≡ true
  unfolding agrees access_claims all has_key get
  agrees-access_claims = rw eq_refl

  is_plain-access_claims : is_plain claims ≡ true
  unfolding is_plain access_claims has_key get
  is_plain-access_claims = refl

  is_timely-access_claims :
      (t' : ℕ) → t ≤ t' → t' / second < t / second + 600 → is_timely (t' / second) claims ≡ true
  unfolding is_timely access_claims get
  is_timely-access_claims t' from until =
      let ahead : t' / second < (t + 600 * second) / second = omega arith in
      let reached : t / second ≤ t' / second = omega arith in
      rw (
        lt→ltb (t' / second) ((t + 600 * second) / second) ahead,
        le→ltb (t' / second) (t / second) reached,
      )

module _ (jose : Jose) where
  open jose use {PrivateKey, Token, public_key, encode, header-encode, decode-encode}

  -- What `sign_claims` gives where a record is active and its file is there.
  pub sign_claims-active :
      (ring : Ring jose) (c : Fields) {r : KeyRecord} {key : PrivateKey}
      → find (λ x. is_active x.state) ring.records ≡ some r
      → ring.private_pem r.kid ≡ some key
      → sign_claims jose ring c ≡ ok (encode c key r.kid)
  unfolding sign_claims
  sign_claims-active ring c found held = rw (found, held, sign_claims)

  -- A token of a key that verifies is accepted while it agrees with the checks.
  pub verify_access-encode :
      (ring : Ring jose) (c : Fields) (key : PrivateKey) (kid audience : String) (now : ℕ)
      → verification_key jose ring kid ≡ ok (public_key key)
      → agrees (access_checks audience) c ≡ true
      → is_timely (now / second) c ≡ true
      → is_plain c ≡ true
      → verify_access jose ring (encode c key kid) audience now ≡ ok c
  unfolding verify_access
  verify_access-encode ring c key kid audience now found a t p = rw (
    header-encode c key kid,
    found,
    decode-encode c key kid (access_checks audience) (now / second) a t p,
    verify_access,
  )

  -- An access token that `issue_access` signs at `t` is accepted by `verify_access` for its
  -- audience, with the claims that were signed, at every `t'` of its ten minutes, after any key
  -- rotation in between. The hypotheses: the active record is the one that its kid finds, both its
  -- files are there, the overlap is one that the constructor accepts, the times do not go back,
  -- and no key published meanwhile has the same fingerprint.
  pub verify_access-issue_access :
      (asked overlap t t' : ℕ) (ring : Ring jose) (events : List (ℕ × Event jose))
      (user_id audience client_id : String) (roles scopes : List String) (version : ℕ)
      {r : KeyRecord} {key : PrivateKey} {token : Token}
      → configure asked ≡ ok overlap
      → find (λ x. is_active x.state) ring.records ≡ some r
      → find (has_kid r.kid) ring.records ≡ some r
      → ring.private_pem r.kid ≡ some key
      → ring.public_pem r.kid ≡ some (public_key key)
      → issue_access jose ring user_id roles audience client_id scopes version t ≡ ok token
      → IsOrdered t events t'
      → t' / second < t / second + 600
      → IsFresh jose r.kid events
      → verify_access jose (run_events jose overlap events ring) token audience t'
        ≡ ok (access_claims user_id roles audience client_id scopes version t)
  unfolding issue_access
  verify_access-issue_access asked overlap t t' ring events user_id audience client_id roles scopes
        version {r} {key} {token} conf signs found private public issued order until fresh =
      let c = access_claims user_id roles audience client_id scopes version t in
      let active : is_active r.state ≡ true =
        find-satisfies (λ (x : KeyRecord). is_active x.state) ring.records signs in
      let signed : token ≡ encode c key r.kid =
        ground (arith, sign_claims-active ring c signs private) in
      let verifies =
        verification_key-run_events jose asked overlap t t' r.kid (public_key key) ring events conf
          found active public order (omega arith) fresh in
      let checked = agrees-access_claims user_id audience client_id roles scopes version t in
      let timely =
        is_timely-access_claims user_id audience client_id roles scopes version t t'
          (IsOrdered-le t t' events order) until in
      let plain = is_plain-access_claims user_id audience client_id roles scopes version t in
      rw signed (verify_access-encode _ c key r.kid audience t' verifies checked timely plain)
