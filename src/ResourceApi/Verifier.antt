-- ===== src/ResourceApi/Verifier.antt =====
-- `JwksVerifier` of src/resource_api/auth.py. The clock is a function of the number of readings, and
-- the answers of the two services are functions of it too, so that no two need be the same. Times
-- are in one unit, and calls are run one after the other, as the lock makes the refreshes.
pub mod Authenticate
pub mod Status
pub mod Stale
pub mod Bounded
pub mod Accepted
use temis_sso_lab.Base.{
  ℕ, suc, ◌+◌, String, Bool, true, false, ◌==◌, ltb, leb, Option, none, some, List, [], ◌∷◌, find,
  if◌then◌else◌, Action, Result, ok, err, Exception, token_rejected, dependency_unavailable, ◌>>=◌,
  ◌>>◌, pure, modify,
}
use temis_sso_lab.Base.Json.{Value, Items, Fields, obj, nil, cons, get, as_str, as_items}
use temis_sso_lab.Jose.{Jose, is_text}

abbrev pub Entry : Type 0 → Type 0
Entry V = String × V

abbrev pub lookup : {V : Type 0} → String → List (Entry V) → Option V
lookup key entries = elim (find (λ (e : Entry _). e.0 == key) entries) [
  | none ↦ none
  | some e ↦ some e.1
]

-- `d.get(key, 0.0)`
abbrev pub time_or_zero : Option ℕ → ℕ
time_or_zero none = 0
time_or_zero (some t) = t

pub record Settings : Type 0 where
  pub issuer : String
  pub audience : String
  pub authorized_party : String
  pub jwks_ttl : ℕ
  pub jwks_stale_ttl : ℕ
  pub status_ttl : ℕ
  pub refresh_cooldown : ℕ
  -- Thirty seconds.
  pub half_minute : ℕ

pub record Principal : Type 0 where
  pub subject : String
  pub scopes : List String
  pub roles : List String
  pub authz_version : ℕ

abbrev pub unavailable : Exception
unavailable = dependency_unavailable "JWKS unavailable"

abbrev pub unknown_key : Exception
unknown_key = token_rejected "unknown signing key"

module _ (jose : Jose) where
  open jose use {PublicKey, Token}

  -- The state of a verifier, with the number of readings of the clock.
  pub record Cache : Type 0 where
    pub keys : List (Entry PublicKey)
    pub jwks_until : ℕ
    pub jwks_stale_until : ℕ
    pub status : List (Entry (ℕ × ℕ))
    pub negative_kids : List (Entry ℕ)
    pub unknown_refresh_after : ℕ
    pub refresh_error_until : ℕ
    pub readings : ℕ

  -- What the verifier is given: the clock, `fetch_jwks`, `status_check`, `from_jwk` with `none` for
  -- a key that is not public, and `str` of a claim that is no text.
  pub record Services : Type 0 where
    pub clock : ℕ → ℕ
    pub fetch_jwks : ℕ → Result Fields
    pub status_check : ℕ → String → ℕ → Result Bool
    pub from_jwk : Fields → Result (Option PublicKey)
    pub show_value : Value → String

  module _ (settings : Settings) (services : Services) where
    abbrev pub read_clock : Action Cache ℕ
    read_clock c = (ok (services.clock c.readings), record c { readings = suc c.readings })

    -- One entry of the document: skipped, or put in front of the keys, where it hides others.
    abbrev add_key :
        Result (Option PublicKey)
        → String
        → List (Entry PublicKey)
        → Result (List (Entry PublicKey))
    add_key (err e) kid keys = err e
    add_key (ok none) kid keys = ok keys
    add_key (ok (some key)) kid keys = ok ((kid, key) ∷ keys)

    abbrev pub read_key : Value → List (Entry PublicKey) → Result (List (Entry PublicKey))
    read_key (obj fields) keys =
        if is_text (get fields "alg") "RS256"
        then elim (as_str (get fields "kid")) [
          | none ↦ ok keys
          | some kid ↦ add_key (services.from_jwk fields) kid keys
        ]
        else ok keys
    read_key v keys = ok keys

    unfoldable pub read_keys : Items → List (Entry PublicKey) → Result (List (Entry PublicKey))
    read_keys nil keys = ok keys
    read_keys (cons v vs) keys = elim (read_key v keys) [
      | err e ↦ err e
      | ok keys' ↦ read_keys vs keys'
    ]

    -- The keys of a document, or why it is refused.
    abbrev pub keys_of : Fields → Result (List (Entry PublicKey))
    keys_of document = elim (as_items (get document "keys")) [
      | none ↦ err (token_rejected "invalid JWKS document")
      | some items ↦ elim (read_keys items []) [
        | err e ↦ err e
        | ok [] ↦ err (token_rejected "JWKS has no RS256 signing keys")
        | ok (key ∷ keys) ↦ ok (key ∷ keys)
      ]
    ]

    -- An exception of the refresh that is not a `TokenRejected`.
    abbrev pub as_unavailable : Exception → Exception
    as_unavailable (token_rejected reason) = token_rejected reason
    as_unavailable e = unavailable

    abbrev pub fetched : Result Fields → Result (List (Entry PublicKey))
    fetched (err e) = err (as_unavailable e)
    fetched (ok document) = elim (keys_of document) [
      | err e ↦ err (as_unavailable e)
      | ok keys ↦ ok keys
    ]

    -- `_safe_refresh`
    unfoldable pub safe_refresh : Action Cache (Unit {0})
    safe_refresh = do
      keys ← (λ c. (fetched (services.fetch_jwks c.readings), c))
      modify (λ c. record c { keys = keys })
      fresh ← read_clock
      modify (λ c. record c { jwks_until = fresh + settings.jwks_ttl })
      stale ← read_clock
      modify
          (λ c. record c { jwks_stale_until = stale + settings.jwks_ttl + settings.jwks_stale_ttl })

    abbrev pub set_error_until : ℕ → Cache → Cache
    set_error_until t c = record c { refresh_error_until = t }

    abbrev pub is_unavailable : Exception → Bool
    is_unavailable (dependency_unavailable reason) = true
    is_unavailable e = false

    -- The two `except` clauses around a refresh: what a failure of the service leaves.
    abbrev pub cool_down : Exception → Action Cache (Unit {0})
    cool_down e c =
        if is_unavailable e
        then (do now ← read_clock; modify (set_error_until (now + settings.refresh_cooldown))) c
        else (ok tt, c)

    -- `kid not in self._keys or self.clock() >= self._jwks_stale_until`: then the error is raised.
    abbrev pub unless_stale : String → Exception → Action Cache (Unit {0})
    unless_stale kid e c = elim (lookup kid c.keys) [
      | none ↦ (err e, c)
      | some key ↦
          (do now ← read_clock; (λ c. (if leb c.jwks_stale_until now then err e else ok tt, c))) c
    ]

    -- What follows the refresh of a key set that is due.
    abbrev pub after_due : String → Result (Unit {0}) × Cache → Result (Unit {0}) × Cache
    after_due kid (ok done, c) = (ok tt, set_error_until 0 c)
    after_due kid (err e, c) =
        if is_unavailable e then (cool_down e >> unless_stale kid e) c else (err e, c)

    unfoldable pub refresh_due : String → Action Cache (Unit {0})
    refresh_due kid = do
      now ← read_clock
      (λ c.
          if leb c.jwks_until now
          then (do
            again ← read_clock
            (λ c.
                if leb c.jwks_until again
                then (do
                  third ← read_clock
                  (λ c.
                      if ltb third c.refresh_error_until
                      then unless_stale kid unavailable c
                      else after_due kid (safe_refresh c)))
                    c
                else (ok tt, c)))
              c
          else (ok tt, c))
