-- ===== src/KeyRing/Overlap.antt =====
-- The rotation of signing keys (src/temis_sso/keyring.py): a key that signs keeps verifying while
-- the tokens signed with it live, whatever is published, activated and retired meanwhile.
use temis_sso_lab.Base.{
  ℕ, ◌+◌, ◌≤◌, ◌<◌, ◌≡◌, ◌≢◌, refl, ap, String, Bool, true, false, Option, none, some, List, [],
  ◌∷◌, ◌++◌, ◌||◌, ◌&&◌, eq_iff, arith, leb, ok, find, find-append, Bool-cases, Option-cases, inl,
  inr, if◌then◌else◌,
}
use temis_sso_lab.Jose.{Jose}
use temis_sso_lab.KeyRing.{
  KeyRecord, is_due, is_active, is_published, is_retiring, minimum_overlap, configure, has_kid,
  is_verifying, update_first, demote, demote_active, promote, new_record, to_retired,
  activate_records, retire_records, Ring, Event, publishes, activates, retires, run_event,
  run_events, verification_key,
}
use temis_sso_lab.KeyRing.Invariant.{find-demote_active}

-- The record signs, or has stopped signing at `t` or later.
abbrev since : ℕ → Option ℕ → Bool
since t none = false
since t (some s) = leb t s

abbrev guards : ℕ → KeyRecord → Bool
guards t r = is_active r.state || (is_retiring r.state && since t r.retiring_at)

pub record Serves (kid : String) (t : ℕ) (rs : List KeyRecord) : Type 0 where
  pub target : KeyRecord
  pub found : find (has_kid kid) rs ≡ some target
  pub guarded : guards t target ≡ true

-- A change to the first record of another kid is not seen.
pub find-update_first_ne :
    (kid j : String) (f : KeyRecord → KeyRecord) (rs : List KeyRecord)
    → ((r : KeyRecord) → (f r).kid ≡ r.kid)
    → kid ≢ j
    → find (has_kid kid) (update_first j f rs) ≡ find (has_kid kid) rs
unfolding find update_first
find-update_first_ne kid j f [] h ne = refl
find-update_first_ne kid j f (r ∷ rs) h ne =
    ground (arith, h r, eq_iff r.kid kid, eq_iff r.kid j, find-update_first_ne kid j f rs h ne)

module _ (kid : String) (t now : ℕ) (later : t ≤ now) where
  publish-Serves :
      (j : String) (rs : List KeyRecord)
      → Serves kid t rs
      → Serves kid t (rs ++ new_record j now ∷ [])
  publish-Serves j rs s = record {
    target = s.target;
    found = find-append (has_kid kid) rs _ s.found;
    guarded = s.guarded;
  }

  demote-guards :
      (r : KeyRecord)
      → guards t r ≡ true
      → guards t (if is_active r.state then demote now r else r) ≡ true
  demote-guards r h = ground arith

  -- Activating a key leaves the one that serves in place, retiring from now on if it signed.
  activate-Serves :
      (j : String) (rs : List KeyRecord)
      → Serves kid t rs
      → Serves kid t (activate_records j now rs).1
  unfolding activate_records
  activate-Serves j rs s = elim (Option-cases (find (has_kid j) rs)) [
    | inl e ↦ rw e s
    | inr (r, e) ↦ rw e (elim (Bool-cases (is_published r.state)) [
      | inr p ↦ rw p s
      | inl p ↦ rw p (record {
        target = if is_active s.target.state then demote now s.target else s.target;
        found =
            rw
              (find-update_first_ne kid j (promote now) (demote_active now rs) (λ x. refl)
                (λ same.
                  ground
                    (arith, s.guarded, s.found, e, ap (λ (k : String). find (has_kid k) rs) same)))
              (find-demote_active kid now rs s.found);
        guarded = demote-guards s.target s.guarded;
      })
    ])
  ]

  -- No key that serves is retired before the overlap has passed.
  retire-Serves :
      (overlap : ℕ) (j : String) (rs : List KeyRecord)
      → now < t + overlap
      → Serves kid t rs
      → Serves kid t (retire_records overlap j now rs).1
  unfolding retire_records
  retire-Serves overlap j rs early s = elim (Option-cases (find (has_kid j) rs)) [
    | inl e ↦ rw e s
    | inr (r, e) ↦ rw e (elim (Bool-cases (is_retiring r.state)) [
      | inr p ↦ rw p s
      | inl p ↦ rw p (elim (Bool-cases (is_due overlap now r.retiring_at)) [
        | inr d ↦ rw d s
        | inl d ↦ rw d (record {
          target = s.target;
          found =
              rw
                (find-update_first_ne kid j to_retired rs (λ x. refl)
                  (λ same.
                    ground (
                      arith,
                      s.guarded,
                      s.found,
                      e,
                      ap (λ (k : String). find (has_kid k) rs) same,
                    )))
                s.found;
          guarded = s.guarded;
        })
      ])
    ])
  ]

-- The times of the events do not go back between `t` and `t'`.
abbrev pub IsOrdered {ℓ} : {E : Type ℓ} → ℕ → List (ℕ × E) → ℕ → Type 0
IsOrdered t [] t' = t ≤ t'
IsOrdered t ((now, _) ∷ rest) t' = (t ≤ now) × IsOrdered now rest t'

pub IsOrdered-le {ℓ} :
    {E : Type ℓ} (t t' : ℕ) (events : List (ℕ × E)) → IsOrdered t events t' → t ≤ t'
IsOrdered-le t t' [] h = h
IsOrdered-le t t' ((now, _) ∷ rest) h = omega (arith, IsOrdered-le now t' rest h.1)

IsOrdered-from {ℓ} :
    {E : Type ℓ} (s t t' : ℕ) (events : List (ℕ × E))
    → s ≤ t
    → IsOrdered t events t'
    → IsOrdered s events t'
IsOrdered-from s t t' [] le h = omega arith
IsOrdered-from s t t' ((now, _) ∷ rest) le h = (omega arith, h.1)

verifying_of_guarded :
    (kid : String) (t : ℕ) (rs : List KeyRecord) {r : KeyRecord}
    → find (has_kid kid) rs ≡ some r
    → guards t r ≡ true
    → find (is_verifying kid) rs ≡ some r
unfolding find
verifying_of_guarded kid t [] h g = ground arith
verifying_of_guarded kid t (x ∷ rs) {r} h g = ground (arith, verifying_of_guarded kid t rs {r = r})

module _ (jose : Jose) where
  open jose use {PrivateKey, PublicKey, public_key, fingerprint}

  -- No key that is published later has the name `kid`.
  abbrev pub IsFresh : String → List (ℕ × Event jose) → Type 0
  IsFresh kid [] = Unit
  IsFresh kid ((now, publishes key) ∷ rest) =
      (fingerprint (public_key key) ≢ kid) × IsFresh kid rest
  IsFresh kid ((now, activates _) ∷ rest) = IsFresh kid rest
  IsFresh kid ((now, retires _) ∷ rest) = IsFresh kid rest

  -- The key `kid`, with its public half, serves in a directory since `t`.
  abbrev Holds : String → ℕ → PublicKey → Ring jose → Type 0
  Holds kid t key ring = Serves kid t ring.records × (ring.public_pem kid ≡ some key)

  module _ (kid : String) (t : ℕ) (overlap : ℕ) (key : PublicKey) where
    run_event-Holds :
        (now : ℕ) (event : Event jose) (ring : Ring jose)
        → t ≤ now
        → now < t + overlap
        → IsFresh kid ((now, event) ∷ [])
        → Holds kid t key ring
        → Holds kid t key (run_event jose overlap now event ring)
    unfolding run_event
    run_event-Holds now (publishes p) ring later early fresh (serves, held) = (
      publish-Serves kid t now later (fingerprint (public_key p)) ring.records serves,
      ground (arith, held, fresh.0, eq_iff kid (fingerprint (public_key p))),
    )
    run_event-Holds now (activates j) ring later early fresh (serves, held) =
        (activate-Serves kid t now later j ring.records serves, held)
    run_event-Holds now (retires j) ring later early fresh (serves, held) =
        (retire-Serves kid t now later overlap j ring.records early serves, held)

    run_events-Holds :
        (t' : ℕ) (events : List (ℕ × Event jose)) (ring : Ring jose)
        → IsOrdered t events t'
        → t' < t + overlap
        → IsFresh kid events
        → Holds kid t key ring
        → Holds kid t key (run_events jose overlap events ring)
    unfolding run_events
    run_events-Holds t' [] ring order early fresh h = h
    run_events-Holds t' ((now, publishes p) ∷ rest) ring order early fresh h =
        run_events-Holds t' rest _ (IsOrdered-from t now t' rest order.0 order.1) early fresh.1 (
          run_event-Holds now (publishes p) ring order.0
            (omega (arith, IsOrdered-le now t' rest order.1)) (fresh.0, tt) h)
    run_events-Holds t' ((now, activates j) ∷ rest) ring order early fresh h =
        run_events-Holds t' rest _ (IsOrdered-from t now t' rest order.0 order.1) early fresh (
          run_event-Holds now (activates j) ring order.0
            (omega (arith, IsOrdered-le now t' rest order.1)) tt h)
    run_events-Holds t' ((now, retires j) ∷ rest) ring order early fresh h =
        run_events-Holds t' rest _ (IsOrdered-from t now t' rest order.0 order.1) early fresh (
          run_event-Holds now (retires j) ring order.0
            (omega (arith, IsOrdered-le now t' rest order.1)) tt h)

  pub verification_key-found :
      (ring : Ring jose) (kid : String) {r : KeyRecord} {key : PublicKey}
      → find (is_verifying kid) ring.records ≡ some r
      → ring.public_pem kid ≡ some key
      → verification_key jose ring kid ≡ ok key
  unfolding verification_key
  verification_key-found ring kid found held = rw (found, held, verification_key)

  -- A key whose record is active at `t` is found by `verification_key` at every `t'` less than the
  -- minimum overlap later, after any calls of `publish`, `activate` and `retire` at times in between
  -- that do not go back, if the overlap is one that the constructor accepts and no key published
  -- meanwhile has the same fingerprint.
  pub verification_key-run_events :
      (asked overlap t t' : ℕ) (kid : String) (key : PublicKey) (ring : Ring jose) {r : KeyRecord}
      (events : List (ℕ × Event jose))
      → configure asked ≡ ok overlap
      → find (has_kid kid) ring.records ≡ some r
      → is_active r.state ≡ true
      → ring.public_pem kid ≡ some key
      → IsOrdered t events t'
      → t' < t + minimum_overlap
      → IsFresh kid events
      → verification_key jose (run_events jose overlap events ring) kid ≡ ok key
  unfolding configure
  verification_key-run_events asked overlap t t' kid key ring {r} events conf found act held order
        early fresh =
      let wide : minimum_overlap ≤ overlap = ground arith in
      let serves : Serves kid t ring.records = record {
        target = r;
        found = found;
        guarded = ground arith;
      } in
      let (still, held') =
        run_events-Holds kid t overlap key t' events ring order (omega arith) fresh
          (serves, held) in
      verification_key-found _ kid (verifying_of_guarded kid t _ still.found still.guarded) held'
