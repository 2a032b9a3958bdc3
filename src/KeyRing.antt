-- ===== src/KeyRing.antt =====
-- src/temis_sso/keyring.py: the signing keys and their states. The metadata file is a list of
-- records; the PEM files are dictionaries from a kid to a key. Each operation runs under the file
-- lock, so it is one step. A time is a number of microseconds.

pub mod Invariant
pub mod Runs
pub mod Rotation
pub mod Storage
pub mod Overlap
pub mod Published
use Prim.Native.Nat.{◌/◌}
use temis_sso_lab.Base.{
  ◌+◌, ℕ, ◌-◌, ◌*◌, String, Bool, true, false, not, Option, none, some, List, [], ◌∷◌, ◌++◌, ◌&&◌,
  ◌==◌, ltb, if◌then◌else◌, Result, ok, err, value_error, runtime_error, os_error, find,
  update_where, Action, raise,
}
use temis_sso_lab.Base.Json.{Fields, field, str, int, end}
use temis_sso_lab.Jose.{Jose}

-- The values that the program writes to `state`.
pub data KeyState : Type 0 where
  published active retiring retired : KeyState

pub record KeyRecord : Type 0 where
  pub kid : String
  pub state : KeyState
  pub published_at : ℕ
  pub activated_at : Option ℕ
  pub retiring_at : Option ℕ

abbrev pub is_published : KeyState → Bool
is_published published = true
is_published _ = false

abbrev pub is_active : KeyState → Bool
is_active active = true
is_active _ = false

abbrev pub is_retiring : KeyState → Bool
is_retiring retiring = true
is_retiring _ = false

abbrev pub is_retired : KeyState → Bool
is_retired retired = true
is_retired _ = false

abbrev pub has_kid : String → KeyRecord → Bool
has_kid kid r = r.kid == kid

abbrev pub second : ℕ
second = 1000000

-- `MINIMUM_OVERLAP_SECONDS`: access TTL, clock skew and JWKS cache TTL.
abbrev pub minimum_overlap : ℕ
minimum_overlap = 960 * second

-- `KeyRing.__init__`: the overlap that is kept, or a refusal.
unfoldable pub configure : ℕ → Result ℕ
configure overlap =
    if ltb overlap minimum_overlap
    then err (value_error "overlap must cover access TTL, clock skew, and JWKS cache TTL")
    else ok overlap

-- A change to the first record of a kid, the object that `next` finds.
unfoldable pub update_first : String → (KeyRecord → KeyRecord) → List KeyRecord → List KeyRecord
update_first kid f [] = []
update_first kid f (r ∷ rs) = if r.kid == kid then f r ∷ rs else r ∷ update_first kid f rs

-- The loop of `activate`: whatever is active retires from now on.
abbrev pub demote : ℕ → KeyRecord → KeyRecord
demote now r = record r { state = retiring; retiring_at = some now }

unfoldable pub demote_active : ℕ → List KeyRecord → List KeyRecord
demote_active now = update_where (λ r. is_active r.state) (demote now)

abbrev pub promote : ℕ → KeyRecord → KeyRecord
promote now r = record r { state = active; activated_at = some now }

abbrev pub new_record : String → ℕ → KeyRecord
new_record kid now = record {
  kid = kid;
  state = published;
  published_at = now;
  activated_at = none;
  retiring_at = none;
}

abbrev pub is_due : ℕ → ℕ → Option ℕ → Bool
is_due overlap now none = false
is_due overlap now (some since) = not (ltb (now - since) overlap)

-- The records that `activate` and `retire` save, given what `next` found.
abbrev activate_found : String → ℕ → Option KeyRecord → Action (List KeyRecord) (Unit {0})
activate_found kid now none = raise (value_error "only a published key can be activated")
activate_found kid now (some target) =
    if is_published target.state
    then (λ rs. (ok tt, update_first kid (promote now) (demote_active now rs)))
    else raise (value_error "only a published key can be activated")

unfoldable pub activate_records : String → ℕ → Action (List KeyRecord) (Unit {0})
activate_records kid now rs = activate_found kid now (find (has_kid kid) rs) rs

abbrev pub to_retired : KeyRecord → KeyRecord
to_retired r = record r { state = retired }

abbrev retire_found : ℕ → String → ℕ → Option KeyRecord → Action (List KeyRecord) (Unit {0})
retire_found overlap kid now none = raise (value_error "only a retiring key can be retired")
retire_found overlap kid now (some target) =
    if is_retiring target.state
    then if is_due overlap now target.retiring_at
      then (λ rs. (ok tt, update_first kid to_retired rs))
      else raise (value_error "verification overlap has not elapsed")
    else raise (value_error "only a retiring key can be retired")

unfoldable pub retire_records : ℕ → String → ℕ → Action (List KeyRecord) (Unit {0})
retire_records overlap kid now rs = retire_found overlap kid now (find (has_kid kid) rs) rs

-- `active_kid`
unfoldable pub active_kid : List KeyRecord → Result String
active_kid rs = elim (find (λ r. is_active r.state) rs) [
  | none ↦ err (runtime_error "no active signing key")
  | some r ↦ ok r.kid
]

-- `path.write_bytes`: a file of that name is replaced.
abbrev pub write : {K : Type 0} → String → K → (String → Option K) → String → Option K
write kid key files name = if name == kid then some key else files name

-- A file that is missing cannot be read.
abbrev pub read {ℓ} : {K : Type ℓ} → Option K → Result K
read none = err os_error
read (some key) = ok key

abbrev pub is_verifying : String → KeyRecord → Bool
is_verifying kid r = r.kid == kid && not (is_retired r.state)

-- The claims of `sign`; those of a time hold seconds.
unfoldable pub subject_claims : String → String → String → ℕ → Fields
subject_claims subject issuer audience now = field "sub" (str subject) (
    field "iss" (str issuer) (
      field "aud" (str audience)
        (field "iat" (int (now / second)) (field "exp" (int ((now + 600 * second) / second)) end))))

module _ (jose : Jose) where
  open jose use {PrivateKey, PublicKey, Token, public_key, fingerprint, encode}

  -- A directory: the metadata, and the PEM files by kid.
  pub record Ring : Type 0 where
    pub records : List KeyRecord
    pub private_pem : String → Option PrivateKey
    pub public_pem : String → Option PublicKey

  -- `publish`, with the key that was generated.
  unfoldable pub publish : PrivateKey → ℕ → Ring → Result String × Ring
  publish private now ring =
      let public = public_key private in
      let kid = fingerprint public in
      (
        ok kid,
        record {
          records = ring.records ++ new_record kid now ∷ [];
          private_pem = write kid private ring.private_pem;
          public_pem = write kid public ring.public_pem;
        },
      )

  unfoldable pub activate : String → ℕ → Ring → Result (Unit {0}) × Ring
  activate kid now ring =
      let (r, rs) = activate_records kid now ring.records in (r, record ring { records = rs })

  unfoldable pub retire : ℕ → String → ℕ → Ring → Result (Unit {0}) × Ring
  retire overlap kid now ring =
      let (r, rs) = retire_records overlap kid now ring.records in (r, record ring { records = rs })

  abbrev sign_with : Fields → String → Option PrivateKey → Result Token
  sign_with claims kid none = err os_error
  sign_with claims kid (some key) = ok (encode claims key kid)

  unfoldable pub sign_claims : Ring → Fields → Result Token
  sign_claims ring claims = elim (find (λ r. is_active r.state) ring.records) [
    | none ↦ err (runtime_error "no active signing key")
    | some r ↦ sign_with claims r.kid (ring.private_pem r.kid)
  ]

  -- `sign`: a token for ten minutes, about its subject only.
  unfoldable pub sign : Ring → String → String → String → ℕ → Result Token
  unfolding sign_claims
  sign ring subject issuer audience now =
      sign_claims ring (subject_claims subject issuer audience now)

  unfoldable pub verification_key : Ring → String → Result PublicKey
  verification_key ring kid = elim (find (is_verifying kid) ring.records) [
    | none ↦ err (value_error "verification key is not published")
    | some r ↦ read (ring.public_pem kid)
  ]

  -- `jwks`: the kid and the key of each record that is not retired.
  unfoldable pub jwks_of :
      (String → Option PublicKey) → List KeyRecord → Result (List (String × PublicKey))
  jwks_of files [] = ok []
  jwks_of files (r ∷ rs) =
      let rest = jwks_of files rs in
      if is_retired r.state then rest else elim (files r.kid) [
        | none ↦ err os_error
        | some key ↦ elim rest [ ok keys ↦ ok ((r.kid, key) ∷ keys) | err e ↦ err e ]
      ]

  unfoldable pub jwks : Ring → Result (List (String × PublicKey))
  unfolding jwks_of
  jwks ring = jwks_of ring.public_pem ring.records

  -- The calls that change a directory, and a run of them at their times.
  pub data Event : Type 0 where
    publishes : PrivateKey → Event
    activates retires : String → Event

  unfoldable pub run_event : ℕ → ℕ → Event → Ring → Ring
  unfolding publish activate retire
  run_event overlap now (publishes key) ring = (publish key now ring).1
  run_event overlap now (activates kid) ring = (activate kid now ring).1
  run_event overlap now (retires kid) ring = (retire overlap kid now ring).1

  unfoldable pub run_events : ℕ → List (ℕ × Event) → Ring → Ring
  unfolding run_event
  run_events overlap [] ring = ring
  run_events overlap ((now, event) ∷ rest) ring =
      run_events overlap rest (run_event overlap now event ring)
