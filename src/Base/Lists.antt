-- ===== src/Base/Lists.antt =====
-- Tables as lists of rows: search, update, delete and count, and their laws.
use Prim.Native.Nat.{ℕ, suc, ◌+◌}
use mathlib.Core.Path.{◌≡◌, refl, subst}
use mathlib.Core.Bool.{Bool, true, false, ◌||◌, ◌&&◌}
use mathlib.Core.Logic.{inl, inr}
use mathlib.Core.Option.{Option, none, some}
use mathlib.Core.List.{List, [], ◌∷◌, ◌++◌}
use native.Mathlib.Omega.{arith}
use temis_sso_lab.Base.Tests.{if◌then◌else◌, Bool-cases}

module _ {ℓ} {A : Type ℓ} where
  abbrev pub length : List A → ℕ
  length [] = 0
  length (x ∷ xs) = suc (length xs)

  -- `next((x for x in xs if p(x)), None)`, and the first row of a SELECT.
  unfoldable pub find : (A → Bool) → List A → Option A
  find p [] = none
  find p (x ∷ xs) = if p x then some x else find p xs

  unfoldable pub any : (A → Bool) → List A → Bool
  any p [] = false
  any p (x ∷ xs) = p x || any p xs

  unfoldable pub all : (A → Bool) → List A → Bool
  all p [] = true
  all p (x ∷ xs) = p x && all p xs

  -- `UPDATE … WHERE p`
  unfoldable pub update_where : (A → Bool) → (A → A) → List A → List A
  update_where p f [] = []
  update_where p f (x ∷ xs) = (if p x then f x else x) ∷ update_where p f xs

  -- The rows that satisfy `p`.
  unfoldable pub select_where : (A → Bool) → List A → List A
  select_where p [] = []
  select_where p (x ∷ xs) = let rest = select_where p xs in if p x then x ∷ rest else rest

  -- `DELETE … WHERE p`
  unfoldable pub delete_where : (A → Bool) → List A → List A
  delete_where p [] = []
  delete_where p (x ∷ xs) = let rest = delete_where p xs in if p x then rest else x ∷ rest

  unfoldable pub count_where : (A → Bool) → List A → ℕ
  count_where p [] = 0
  count_where p (x ∷ xs) = (if p x then 1 else 0) + count_where p xs

  -- A predicate by recursion computes to tuples, which the tactics read and build.
  abbrev pub All {κ} : (A → Type κ) → List A → Type κ
  All P [] = Unit
  All P (x ∷ xs) = P x × All P xs

module _ {ℓ} {A : Type ℓ} where
  pub find-satisfies : (p : A → Bool) (xs : List A) {x : A} → find p xs ≡ some x → p x ≡ true
  unfolding find
  find-satisfies p [] h = ground arith
  find-satisfies p (y ∷ xs) {x} h = ground (arith, find-satisfies p xs {x = x})

  pub find-append :
      (p : A → Bool) (xs ys : List A) {x : A} → find p xs ≡ some x → find p (xs ++ ys) ≡ some x
  unfolding find
  find-append p [] ys h = ground arith
  find-append p (y ∷ xs) ys {x} h = ground (arith, find-append p xs ys {x = x})

  pub find-append_none :
      (p : A → Bool) (xs ys : List A) → find p xs ≡ none → find p (xs ++ ys) ≡ find p ys
  unfolding find
  find-append_none p [] ys h = refl
  find-append_none p (y ∷ xs) ys h = ground (arith, find-append_none p xs ys)

  pub any-append : (p : A → Bool) (xs ys : List A) → any p (xs ++ ys) ≡ (any p xs || any p ys)
  unfolding any
  any-append p [] ys = refl
  any-append p (x ∷ xs) ys = ground (arith, any-append p xs ys)

  pub find-any-false : (p : A → Bool) (xs : List A) → any p xs ≡ false → find p xs ≡ none
  unfolding any find
  find-any-false p [] h = refl
  find-any-false p (x ∷ xs) h = ground (arith, find-any-false p xs)

  pub find-append_other :
      (p : A → Bool) (xs ys : List A) → find p ys ≡ none → find p (xs ++ ys) ≡ find p xs
  unfolding find
  find-append_other p [] ys h = h
  find-append_other p (x ∷ xs) ys h = ground (arith, find-append_other p xs ys)

  pub any-find :
      (p q : A → Bool) (xs : List A) {x : A}
      → ((y : A) → p y ≡ true → q y ≡ true)
      → find p xs ≡ some x
      → any q xs ≡ true
  unfolding find any
  any-find p q [] imp h = absurd (ground arith)
  any-find p q (y ∷ xs) {x} imp h = ground (arith, imp y, any-find p q xs {x = x} imp)

  -- Nothing is found where no row satisfies what the search implies.
  pub find-none :
      (p q : A → Bool) (xs : List A)
      → ((x : A) → p x ≡ true → q x ≡ true)
      → any q xs ≡ false
      → find p xs ≡ none
  unfolding find any
  find-none p q [] h e = refl
  find-none p q (x ∷ xs) h e = ground (arith, h x, find-none p q xs h)

  pub find-delete_where_self : (p : A → Bool) (xs : List A) → find p (delete_where p xs) ≡ none
  unfolding find delete_where
  find-delete_where_self p [] = refl
  find-delete_where_self p (x ∷ xs) = ground (arith, find-delete_where_self p xs)

  pub find-delete_where :
      (p q : A → Bool) (xs : List A)
      → ((x : A) → q x ≡ true → p x ≡ false)
      → find q (delete_where p xs) ≡ find q xs
  unfolding find delete_where
  find-delete_where p q [] h = refl
  find-delete_where p q (x ∷ xs) h = ground (arith, h x, find-delete_where p q xs h)

  -- A row that the update leaves in the range of the search is found, updated.
  pub find-update_where :
      (p q : A → Bool) (f : A → A) (xs : List A)
      → ((x : A) → q (f x) ≡ q x)
      → find q (update_where p f xs)
        ≡ elim (find q xs) [ none ↦ none | some x ↦ some (if p x then f x else x) ]
  unfolding find update_where
  find-update_where p q f [] h = refl
  find-update_where p q f (x ∷ xs) h = ground (arith, h x, find-update_where p q f xs h)

  pub any-update_where :
      (p q : A → Bool) (f : A → A) (xs : List A)
      → ((x : A) → q (f x) ≡ q x)
      → any q (update_where p f xs) ≡ any q xs
  unfolding any update_where
  any-update_where p q f [] h = refl
  any-update_where p q f (x ∷ xs) h = ground (arith, h x, any-update_where p q f xs h)

  -- The rows that a change does not reach are selected as before.
  pub select_where-update_where :
      (p q : A → Bool) (f : A → A) (xs : List A)
      → ((x : A) → q (f x) ≡ q x)
      → ((x : A) → q x ≡ true → p x ≡ false)
      → select_where q (update_where p f xs) ≡ select_where q xs
  unfolding select_where update_where
  select_where-update_where p q f [] h apart = refl
  select_where-update_where p q f (x ∷ xs) h apart =
      ground (arith, h x, apart x, select_where-update_where p q f xs h apart)

  pub select_where-delete_where :
      (p q : A → Bool) (xs : List A)
      → ((x : A) → q x ≡ true → p x ≡ false)
      → select_where q (delete_where p xs) ≡ select_where q xs
  unfolding select_where delete_where
  select_where-delete_where p q [] apart = refl
  select_where-delete_where p q (x ∷ xs) apart =
      ground (arith, apart x, select_where-delete_where p q xs apart)

  pub select_where-append_other :
      (q : A → Bool) (xs : List A) (y : A)
      → q y ≡ false
      → select_where q (xs ++ y ∷ []) ≡ select_where q xs
  unfolding select_where
  select_where-append_other q [] y h = rw h refl
  select_where-append_other q (x ∷ xs) y h = ground (arith, select_where-append_other q xs y h)

  pub any-delete_where_self : (p : A → Bool) (xs : List A) → any p (delete_where p xs) ≡ false
  unfolding any delete_where
  any-delete_where_self p [] = refl
  any-delete_where_self p (x ∷ xs) = ground (arith, any-delete_where_self p xs)

  pub update_where-id : (p : A → Bool) (xs : List A) → update_where p (λ x. x) xs ≡ xs
  unfolding update_where
  update_where-id p [] = refl
  update_where-id p (x ∷ xs) = ground (arith, update_where-id p xs)

  -- A search that no deleted row satisfies is not changed by the deletion.
  pub any-delete_where :
      (p q : A → Bool) (xs : List A)
      → ((x : A) → q x ≡ true → p x ≡ false)
      → any q (delete_where p xs) ≡ any q xs
  unfolding any delete_where
  any-delete_where p q [] h = refl
  any-delete_where p q (x ∷ xs) h = ground (arith, h x, any-delete_where p q xs h)

  pub any-update_where_self :
      (p : A → Bool) (f : A → A) (xs : List A)
      → ((x : A) → p (f x) ≡ false)
      → any p (update_where p f xs) ≡ false
  unfolding any update_where
  any-update_where_self p f [] h = refl
  any-update_where_self p f (x ∷ xs) h = ground (arith, h x, any-update_where_self p f xs h)

  pub All-append {κ} :
      (Q : A → Type κ) (front back : List A) → All Q front → All Q back → All Q (front ++ back)
  All-append Q [] back here there = there
  All-append Q (a ∷ front) back (now, later) there = (now, All-append Q front back later there)

  pub All-update_where {κ} :
      (P Q : A → Type κ) (p : A → Bool) (f : A → A) (xs : List A)
      → ((x : A) → P x → Q (if p x then f x else x))
      → All P xs
      → All Q (update_where p f xs)
  unfolding update_where
  All-update_where P Q p f [] h a = tt
  All-update_where P Q p f (x ∷ xs) h a = (h x a.0, All-update_where P Q p f xs h a.1)

  pub All-find {κ} :
      (P : A → Type κ) (p : A → Bool) (xs : List A) {x : A} → All P xs → find p xs ≡ some x → P x
  unfolding find
  All-find P p [] a h = absurd (ground arith)
  All-find P p (y ∷ xs) {x} a h = elim (Bool-cases (p y)) [
    | inl e ↦ let found : y ≡ x = ground arith in subst P found a.0
    | inr e ↦ All-find P p xs a.1 (rw e at h)
  ]
