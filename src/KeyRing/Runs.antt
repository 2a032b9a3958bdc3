-- ===== src/KeyRing/Runs.antt =====
-- Runs of the operations of src/temis_sso/keyring.py: what every directory they lead to has.
use temis_sso_lab.Base.{
  ℕ, ◌≡◌, refl, String, Option, some, List, [], ◌∷◌, ◌==◌, eq_refl, arith, ok, find, All,
  All-append, All-update_where, Bool-cases, Option-cases, inl, inr,
}
use temis_sso_lab.Jose.{Jose}
use temis_sso_lab.KeyRing.{
  KeyRecord, is_active, has_kid, is_due, demote, demote_active, promote, to_retired, write,
  activate_records, retire_records, is_published, is_retiring, is_retired, Ring, publish, activate,
  retire, Event, publishes, activates, retires, run_event, run_events, jwks, jwks_of,
}
use temis_sso_lab.KeyRing.Invariant.{
  IsWellFormed, All-update_first, publish-IsWellFormed, activate-IsWellFormed, retire-IsWellFormed,
}

-- What holds of a record because of its kid is kept by the changes of states.
activate_records-All :
    (P : String → Type 0) (kid : String) (now : ℕ) (rs : List KeyRecord)
    → All (λ r. P r.kid) rs
    → All (λ r. P r.kid) (activate_records kid now rs).1
unfolding activate_records demote_active
activate_records-All P kid now rs a = elim (Option-cases (find (has_kid kid) rs)) [
  | inl e ↦ rw e a
  | inr (r, e) ↦ rw e (elim (Bool-cases (is_published r.state)) [
    | inl p ↦ rw p (
        All-update_first (λ r. P r.kid) kid (promote now) _ (λ x h. h)
          (All-update_where (λ r. P r.kid) (λ r. P r.kid) (λ r. is_active r.state) (demote now) rs
            (λ x h. ground (arith, h)) a))
    | inr p ↦ rw p a
  ])
]

retire_records-All :
    (P : String → Type 0) (overlap : ℕ) (kid : String) (now : ℕ) (rs : List KeyRecord)
    → All (λ r. P r.kid) rs
    → All (λ r. P r.kid) (retire_records overlap kid now rs).1
unfolding retire_records
retire_records-All P overlap kid now rs a = elim (Option-cases (find (has_kid kid) rs)) [
  | inl e ↦ rw e a
  | inr (r, e) ↦ rw e (elim (Bool-cases (is_retiring r.state)) [
    | inl p ↦ rw p (elim (Bool-cases (is_due overlap now r.retiring_at)) [
      | inl d ↦ rw d (All-update_first (λ r. P r.kid) kid to_retired rs (λ x h. h) a)
      | inr d ↦ rw d a
    ])
    | inr p ↦ rw p a
  ])
]

All-imp :
    (P Q : String → Type 0) (rs : List KeyRecord)
    → ((kid : String) → P kid → Q kid)
    → All (λ r. P r.kid) rs
    → All (λ r. Q r.kid) rs
All-imp P Q [] h a = tt
All-imp P Q (r ∷ rs) h (here, later) = (h r.kid here, All-imp P Q rs h later)

module _ (jose : Jose) where
  open jose use {PrivateKey, PublicKey, public_key, fingerprint}

  -- Both files of a kid, and that they belong together.
  abbrev pub HasFiles : (String → Option PrivateKey) → (String → Option PublicKey) → String → Type 0
  HasFiles privates publics kid =
      (key : PrivateKey) × (privates kid ≡ some key) × (publics kid ≡ some (public_key key))

  pub record IsSound (ring : Ring jose) : Type 0 where
    pub formed : IsWellFormed ring.records
    pub filed : All (λ r. HasFiles ring.private_pem ring.public_pem r.kid) ring.records

  written :
      (key : PrivateKey) (ring : Ring jose) (kid : String)
      → HasFiles ring.private_pem ring.public_pem kid
      → let name = fingerprint (public_key key) in
        HasFiles (write name key ring.private_pem) (write name (public_key key) ring.public_pem) kid
  written key ring kid (old, p, q) = elim (Bool-cases (kid == fingerprint (public_key key))) [
    | inl e ↦ (key, rw e refl, rw e refl)
    | inr e ↦ (old, rw e p, rw e q)
  ]

  publish-IsSound :
      (key : PrivateKey) (now : ℕ) (ring : Ring jose)
      → IsSound ring
      → IsSound (publish jose key now ring).1
  unfolding publish
  publish-IsSound key now ring s =
      let name = fingerprint (public_key key) in
      let privates = write name key ring.private_pem in
      let publics = write name (public_key key) ring.public_pem in
      record {
        formed = publish-IsWellFormed name now ring.records s.formed;
        filed =
            All-append (λ (r : KeyRecord). HasFiles privates publics r.kid) ring.records _
              (All-imp (HasFiles ring.private_pem ring.public_pem) (HasFiles privates publics)
                ring.records (written key ring) s.filed)
              ((key, rw (eq_refl name) refl, rw (eq_refl name) refl), tt);
      }

  run_event-IsSound :
      (overlap now : ℕ) (event : Event jose) (ring : Ring jose)
      → IsSound ring
      → IsSound (run_event jose overlap now event ring)
  unfolding run_event activate retire
  run_event-IsSound overlap now (publishes key) ring s = publish-IsSound key now ring s
  run_event-IsSound overlap now (activates kid) ring s = record {
    formed = activate-IsWellFormed kid now ring.records s.formed;
    filed =
        activate_records-All (HasFiles ring.private_pem ring.public_pem) kid now ring.records
          s.filed;
  }
  run_event-IsSound overlap now (retires kid) ring s = record {
    formed = retire-IsWellFormed overlap kid now ring.records s.formed;
    filed =
        retire_records-All (HasFiles ring.private_pem ring.public_pem) overlap kid now ring.records
          s.filed;
  }

  run_events-IsSound :
      (overlap : ℕ) (events : List (ℕ × Event jose)) (ring : Ring jose)
      → IsSound ring
      → IsSound (run_events jose overlap events ring)
  unfolding run_events
  run_events-IsSound overlap [] ring s = s
  run_events-IsSound overlap ((now, event) ∷ rest) ring s =
      run_events-IsSound overlap rest (run_event jose overlap now event ring)
        (run_event-IsSound overlap now event ring s)

  jwks_of-filed :
      (privates : String → Option PrivateKey) (publics : String → Option PublicKey)
      (rs : List KeyRecord)
      → All (λ r. HasFiles privates publics r.kid) rs
      → (keys : List (String × PublicKey)) × (jwks_of jose publics rs ≡ ok keys)
  unfolding jwks_of
  jwks_of-filed privates publics [] a = ([], refl)
  jwks_of-filed privates publics (r ∷ rs) ((key, p, q), later) =
      let (keys, e) = jwks_of-filed privates publics rs later in
      elim (Bool-cases (is_retired r.state)) [
        | inl gone ↦ (keys, rw gone e)
        | inr used ↦ ((r.kid, public_key key) ∷ keys, rw (used, q, e) refl)
      ]

  -- Whatever calls are made at whatever times, in vain or not, no directory is broken by them: at
  -- most one record is active, each retiring record has its time, each record has both key files,
  -- which belong together, and the published key set can be read.
  pub jwks-run_events :
      (overlap : ℕ) (events : List (ℕ × Event jose)) (ring : Ring jose)
      → IsSound ring
      → let after = run_events jose overlap events ring in
        IsSound after × ((keys : List (String × PublicKey)) × (jwks jose after ≡ ok keys))
  unfolding jwks
  jwks-run_events overlap events ring s =
      let after = run_events-IsSound overlap events ring s in
      let ring' = run_events jose overlap events ring in
      (after, jwks_of-filed ring'.private_pem ring'.public_pem ring'.records after.filed)
