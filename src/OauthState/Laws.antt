-- ===== src/OauthState/Laws.antt =====
-- What is taken from the store of src/temis_sso/oauth_state.py is gone, and other keys stay.
use temis_sso_lab.Base.Text.{starts_with}
use temis_sso_lab.Base.{
  Result-cases, Result, ok, lt→ltb, text_cases, eq_refl, ap, eq-false, ℕ, ◌+◌, ◌*◌, ◌<◌, String,
  true, false, none, some, [], ◌∷◌, ◌≡◌, refl, ◌==◌, find, delete_where, arith, inl, inr,
}
use temis_sso_lab.OauthState.{
  put, Dict, item, with_item, Redis, set, peek, remove, Digests, store_key,
}

module _ {V : Type 0} where
  pub remove_idem :
      (key : String) (redis : Redis V) → remove key (remove key redis) ≡ remove key redis
  unfolding remove delete_where
  remove_idem key [] = refl
  remove_idem key (e ∷ redis) = ground (arith, remove_idem key redis)

  pub peek-remove :
      (key : String) (now : ℕ) (redis : Redis V) → peek key now (remove key redis) ≡ none
  unfolding peek remove delete_where find
  peek-remove key now [] = refl
  peek-remove key now (e ∷ redis) = ground (arith, peek-remove key now redis)

  pub peek-remove_ne :
      (key other : String) (now : ℕ) (redis : Redis V)
      → (other == key) ≡ false
      → peek key now (remove other redis) ≡ peek key now redis
  unfolding peek remove delete_where find
  peek-remove_ne key other now [] ne = refl
  peek-remove_ne key other now (e ∷ redis) ne = elim (text_cases e.key other) [
    | inl same ↦ rw (same, ne, eq_refl) (peek-remove_ne key other now redis ne)
    | inr differ ↦ ground (arith, differ, peek-remove_ne key other now redis ne)
  ]

  pub peek-set :
      (key : String) (value : V) (ttl now later : ℕ) (redis : Redis V)
      → later < now + ttl * 1000000
      → peek key later (set key value ttl now redis) ≡ some value
  unfolding peek set find
  peek-set key value ttl now later redis le = rw (eq_refl, lt→ltb later (now + ttl * 1000000) le)

  pub peek-set_ne :
      (key other : String) (value : V) (ttl now later : ℕ) (redis : Redis V)
      → (other == key) ≡ false
      → peek key later (set other value ttl now redis) ≡ peek key later redis
  unfolding set peek remove find
  peek-set_ne key other value ttl now later redis ne =
      rw ne (peek-remove_ne key other later redis ne)

-- Where a chain of lookups succeeds, each of them has.
pub with_item-ok :
    {A : Type 0} (d : Dict) (key : String) (f : String → Result A) {a : A}
    → with_item d key f ≡ ok a
    → (v : String) × (item d key ≡ ok v) × (f v ≡ ok a)
with_item-ok d key f {a} h = elim (Result-cases (item d key)) [
  | inl (v, e) ↦ (v, e, rw⁻¹ h (rw (with_item, e) refl))
  | inr (x, e) ↦ absurd (ground (arith, e, h))
]

-- Keys of different namespaces differ.
pub namespaces_differ :
    (digests : Digests) (prefix n m a b : String)
    → starts_with (store_key digests n a) prefix ≡ true
    → starts_with (store_key digests m b) prefix ≡ false
    → (store_key digests n a == store_key digests m b) ≡ false
namespaces_differ digests prefix n m a b left right =
    eq-false _ _ (λ (e : store_key digests n a ≡ store_key digests m b).
      let same = ap (λ k. starts_with k prefix) e in absurd (ground (arith, same, left, right)))

-- What `put` does.
pub put-set :
    (digests : Digests) (namespace : String) (value : Dict) (ttl : ℕ) (raw : String) (now : ℕ)
    (redis : Redis Dict)
    → put digests namespace value ttl raw now redis
      ≡ (ok raw, set (store_key digests namespace raw) value ttl now redis)
unfolding put
put-set digests namespace value ttl raw now redis = refl

module _ (digests : Digests) (a b : String) where
  pub code-oauth : (store_key digests "authorization-code" b == store_key digests "oauth" a) ≡ false
  unfolding store_key starts_with
  code-oauth = namespaces_differ digests "temis-lab:a" "authorization-code" "oauth" b a refl refl

  pub provider-oauth : (store_key digests "provider-code" b == store_key digests "oauth" a) ≡ false
  unfolding store_key starts_with
  provider-oauth = namespaces_differ digests "temis-lab:p" "provider-code" "oauth" b a refl refl

  pub oauth-provider : (store_key digests "oauth" a == store_key digests "provider-code" b) ≡ false
  unfolding store_key starts_with
  oauth-provider = namespaces_differ digests "temis-lab:o" "oauth" "provider-code" a b refl refl
