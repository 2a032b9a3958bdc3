-- ===== src/ExternalIdp/Jwks.antt =====
-- `JwksCache` of src/temis_sso/external_idp/callback.py: the key sets of providers, each kept for as
-- long as its answer allows.
pub mod Fresh
use Prim.Native.Char.{Char, code}
use Prim.Native.String.{String, [], ◌∷◌}
use temis_sso_lab.Base.{
  ◌||◌, ℕ, ◌+◌, ◌*◌, ◌-◌, Bool, false, ◌&&◌, leb, ltb, nat_eq, Option, none, some, List, find,
  if◌then◌else◌, Result, ok, err, value_error, Action, ◌>>=◌, lift, pure, ◌>>◌, modify,
}
use temis_sso_lab.Base.Json.{Fields, Items, nil, cons, obj, get}
use temis_sso_lab.Base.Text.{starts_with, remove_prefix}
use temis_sso_lab.Jose.{is_text}
use temis_sso_lab.ExternalIdp.Stores.{Entry, lookup, drop_key}
use temis_sso_lab.ExternalIdp.Models.{ProviderMetadata}
use temis_sso_lab.Http.{Http, get_of, send, as_dict, items_of}

-- A set of keys with the time until which it is fresh.
pub record KeySet : Type 0 where
  pub fresh_until : ℕ
  pub keys : List Fields

-- The entries of the cache, and the number of requests that were sent.
pub record Keys : Type 0 where
  pub entries : List (Entry KeySet)
  pub requests : ℕ

abbrev is_digit : Char → Bool
is_digit c = leb 48 (code c) && leb (code c) 57

-- The number that the digits in front make, after the one that was read.
abbrev read_digits : ℕ → String → ℕ
read_digits n [] = n
read_digits n (c ∷ s) =
    let more = read_digits (n * 10 + (code c - 48)) s in if is_digit c then more else n

-- `max-age=(\d+)`
abbrev age_of : String → Option ℕ
age_of [] = none
age_of (c ∷ s) = if is_digit c then some (read_digits 0 (c ∷ s)) else none

abbrev is_blank : Char → Bool
is_blank c =
    nat_eq (code c) 32
    || (leb 9 (code c) && leb (code c) 13)
    || (leb 28 (code c) && leb (code c) 31)

abbrev skip_blanks : String → String
skip_blanks [] = []
skip_blanks (c ∷ s) = let rest = skip_blanks s in if is_blank c then rest else c ∷ s

-- `\s*max-age=(\d+)`
abbrev directive : String → Option ℕ
directive s =
    let t = skip_blanks s in
    if starts_with t "max-age=" then age_of (remove_prefix t "max-age=") else none

abbrev or_else : Option ℕ → Option ℕ → Option ℕ
or_else none next = next
or_else (some n) next = some n

abbrev after_commas : String → Option ℕ
after_commas [] = none
after_commas (c ∷ s) =
    let next = after_commas s in if nat_eq (code c) 44 then or_else (directive s) next else next

abbrev or_zero : Option ℕ → ℕ
or_zero none = 0
or_zero (some n) = n

-- `re.search(r"(?:^|,)\s*max-age=(\d+)", ...)`, and its number or 0. Only ASCII digits count.
unfoldable pub max_age : String → ℕ
max_age header = or_zero (or_else (directive header) (after_commas header))

-- `[item for item in ... if isinstance(item, dict)]`
unfoldable pub dicts_of : Items → List Fields
dicts_of nil = List.[]
dicts_of (cons (obj fields) items) = List.◌∷◌ fields (dicts_of items)
dicts_of (cons _ items) = dicts_of items

abbrev pub has_kid : String → Fields → Bool
has_kid kid key = is_text (get key "kid") kid

abbrev pub store : String → KeySet → Keys → Keys
store uri set s = record s { entries = List.◌∷◌ (uri, set) (drop_key uri s.entries) }

abbrev in_requests : {A : Type 0} → Keys → Result A × ℕ → Result A × Keys
in_requests s (r, n) = (r, record s { requests = n })

abbrev pub on_requests : {A : Type 0} → Action ℕ A → Action Keys A
on_requests m s = in_requests s (m s.requests)

abbrev pub is_fresh : ℕ → Option KeySet → Bool
is_fresh now none = false
is_fresh now (some set) = ltb now set.fresh_until

abbrev pub or_unknown : Option Fields → Result Fields
or_unknown none = err (value_error "ID token signing key is unknown")
or_unknown (some key) = ok key

module _ (http : Http) (metadata : ProviderMetadata) (now : ℕ) where
  -- `_refresh`
  unfoldable pub refresh : Action Keys (List Fields)
  refresh = do
    response ← on_requests (send http (get_of metadata.jwks_uri List.[]))
    payload ← lift response.json
    document ← lift (as_dict payload)
    items ← lift (items_of document "keys")
    let keys = dicts_of items
    modify (
        store metadata.jwks_uri
          (record { fresh_until = now + max_age response.cache_control; keys = keys }))
    pure keys

  -- `_refresh`, and the search in what it returns.
  abbrev pub refresh_key : String → Action Keys Fields
  refresh_key kid = do keys ← refresh; lift (or_unknown (find (has_kid kid) keys))

  -- A key of a fresh set, or of a new one where the set lacks it.
  abbrev pub key_in_fresh : String → Option Fields → Action Keys Fields
  key_in_fresh kid (some key) = pure key
  key_in_fresh kid none = refresh_key kid

  abbrev pub key_with : String → Option KeySet → Action Keys Fields
  key_with kid none = refresh_key kid
  key_with kid (some set) =
      if ltb now set.fresh_until
      then key_in_fresh kid (find (has_kid kid) set.keys)
      else refresh_key kid

  -- `key`
  unfoldable pub key : String → Action Keys Fields
  key kid s = key_with kid (lookup metadata.jwks_uri s.entries) s
