-- ===== src/ResourceApi/Verifier/Authenticate.antt =====
-- `authenticate` and `require_scope` of src/resource_api/auth.py.
use temis_sso_lab.Base.{
  ℕ, ◌+◌, String, Bool, true, false, not, ◌&&◌, ◌||◌, ◌==◌, ltb, leb, nat_eq, Option, none, some,
  List, [], ◌∷◌, if◌then◌else◌, any, Action, Result, ok, err, token_rejected,
  dependency_unavailable, scope_denied, ◌>>=◌, ◌>>◌, pure, raise, modify, raise_if, lift,
}
use temis_sso_lab.Base.Json.{Value, Items, Fields, bool, int, str, arr, nil, cons, get, as_str}
use temis_sso_lab.Base.Text.{split}
use temis_sso_lab.Jose.{Jose, Checks, Header, is_text}
use temis_sso_lab.Tokens.Access.{role_claim}
use temis_sso_lab.ResourceApi.Verifier.{
  Settings, Principal, Cache, Services, lookup, time_or_zero, read_clock, safe_refresh, refresh_due,
  set_error_until, cool_down, unavailable, unknown_key,
}

abbrev pub least : ℕ → ℕ → ℕ
least a b = if leb a b then a else b

-- An integer claim; a Boolean is one to Python.
abbrev pub version_of : Value → Option ℕ
version_of (int n) = some n
version_of (bool true) = some 1
version_of (bool false) = some 0
version_of _ = none

abbrev pub require_scope : Principal → String → Result (Unit {0})
require_scope principal required =
    if any (λ s. s == required) principal.scopes then ok tt else err (scope_denied required)

module _ (jose : Jose) (settings : Settings) (services : Services jose) where
  open jose use {PublicKey, Token, header, decode}

  abbrev pub wait : ℕ
  wait = least settings.jwks_ttl settings.half_minute

  -- A kid that stays unknown is remembered.
  abbrev known_or_refused : String → Option PublicKey → Action (Cache jose) PublicKey
  known_or_refused kid (some key) = pure key
  known_or_refused kid none = do
    now ← read_clock jose settings services
    modify (λ c. record c { negative_kids = (kid, now + wait) ∷ c.negative_kids })
    raise unknown_key

  abbrev pub after_unknown : String → Result (Unit {0}) × Cache jose → Result PublicKey × Cache jose
  after_unknown kid (ok done, c) =
      known_or_refused kid (lookup kid c.keys) (set_error_until jose settings services 0 c)
  after_unknown kid (err e, c) = (cool_down jose settings services e >> raise e) c

  -- Behind the lock: the key set is fetched at most once in a while for keys that it has not.
  abbrev pub refresh_unknown : String → Action (Cache jose) PublicKey
  refresh_unknown kid = do
    now ← read_clock jose settings services
    (λ c.
        if leb c.unknown_refresh_after now
        then (do
          next ← read_clock jose settings services
          modify (λ c. record c { unknown_refresh_after = next + wait })
          (λ c. after_unknown kid (safe_refresh jose settings services c)))
            c
        else known_or_refused kid none c)

  -- `if self.clock() < self._negative_kids.get(kid, 0.0): raise`
  abbrev refuse_negative : String → Action (Cache jose) (Unit {0})
  refuse_negative kid = do
    now ← read_clock jose settings services
    (λ c. raise_if (ltb now (time_or_zero (lookup kid c.negative_kids))) unknown_key c)

  abbrev pub key_or_unknown : String → Option PublicKey → Action (Cache jose) PublicKey
  key_or_unknown kid (some key) = pure key
  key_or_unknown kid none = do
    refuse_negative kid
    refuse_negative kid
    now ← read_clock jose settings services
    (λ c. raise_if (ltb now c.refresh_error_until) unavailable c)
    refresh_unknown kid

  -- The key of a kid, with the refreshes that it takes.
  unfoldable pub signing_key : String → Action (Cache jose) PublicKey
  signing_key kid = do
    refresh_due jose settings services kid
    (λ c. key_or_unknown kid (lookup kid c.keys) c)

  abbrev pub checks : Checks
  checks = record {
    issuer = some settings.issuer;
    audience = settings.audience;
    required = "iss" ∷ "aud" ∷ "sub" ∷ "exp" ∷ "azp" ∷ "scope" ∷ "authz_version" ∷ [];
  }

  abbrev show : Value → String
  show (str s) = s
  show v = services.show_value v

  unfoldable pub texts_of : Items → List String
  texts_of nil = []
  texts_of (cons v vs) = show v ∷ texts_of vs

  abbrev roles_of : Value → List String
  roles_of (arr items) = texts_of items
  roles_of _ = []

  abbrev pub principal_of : Fields → String → ℕ → Principal
  principal_of claims subject version = record {
    subject = subject;
    scopes = split (show (get claims "scope"));
    roles = roles_of (get claims role_claim);
    authz_version = version;
  }

  -- The exact audience, and the client for which the token was made.
  abbrev pub is_bound : Fields → Bool
  is_bound claims =
      is_text (get claims "aud") settings.audience
      && is_text (get claims "azp") settings.authorized_party

  -- The other service is asked about the subject and its version.
  abbrev pub ask_status : String → ℕ → Action (Cache jose) (Unit {0})
  ask_status subject version c = elim (services.status_check c.readings subject version) [
    | err e ↦ (err (dependency_unavailable "authorization status unavailable"), c)
    | ok false ↦ (err (token_rejected "subject is inactive or stale"), c)
    | ok true ↦
        (do
          now ← read_clock jose settings services
          modify (λ c. record c {
            status = (subject, (now + settings.status_ttl, version)) ∷ c.status;
          }))
          c
  ]

  abbrev pub check_cached : String → ℕ → Option (ℕ × ℕ) → Action (Cache jose) (Unit {0})
  check_cached subject version none = ask_status subject version
  check_cached subject version (some (until, cached)) = do
    now ← read_clock jose settings services
    (λ c.
        if leb until now || not (nat_eq cached version)
        then ask_status subject version c
        else (ok tt, c))

  unfoldable pub check_status : String → ℕ → Action (Cache jose) (Unit {0})
  check_status subject version c = check_cached subject version (lookup subject c.status) c

  abbrev pub accept : Fields → Option String → Option ℕ → Action (Cache jose) Principal
  accept claims none version = raise (token_rejected "token binding is invalid")
  accept claims (some subject) none = raise (token_rejected "token binding is invalid")
  accept claims (some subject) (some version) =
      if is_bound claims
      then (do check_status subject version; pure (principal_of claims subject version))
      else raise (token_rejected "token binding is invalid")

  abbrev pub decoded : Option Fields → Result Fields
  decoded none = err (token_rejected "token validation failed")
  decoded (some claims) = ok claims

  abbrev pub with_kid : Token → ℕ → Option Header → Action (Cache jose) Principal
  with_kid token wall none = raise (token_rejected "malformed bearer token")
  with_kid token wall (some h) = elim h.kid [
    | none ↦ raise (token_rejected "RS256 token with kid required")
    | some kid ↦
        if h.alg == "RS256"
        then (do
          key ← signing_key kid
          claims ← lift (decoded (decode token key checks wall))
          accept claims (as_str (get claims "sub")) (version_of (get claims "authz_version")))
        else raise (token_rejected "RS256 token with kid required")
  ]

  -- `authenticate`; `wall` is the time by which PyJWT judges the expiry.
  unfoldable pub authenticate : Token → ℕ → Action (Cache jose) Principal
  authenticate token wall = with_kid token wall (header token)
