-- ===== src/Base/Sort.antt =====
-- Python's `sorted` on texts, which compares code points, and the texts of a list without repetition.
use Prim.Native.Char.{code}
use Prim.Native.String.{String, [], ◌∷◌}
use mathlib.Core.Path.{◌≡◌, refl, ◌∙◌, ap}
use mathlib.Core.Bool.{Bool, true, false, ◌||◌}
use mathlib.Core.Logic.{inl, inr}
use mathlib.Core.List.{List}
use native.Mathlib.Omega.{arith}
use text.Mathlib.Text.{◌==◌}
use temis_sso_lab.Base.Tests.{ltb, nat_eq, if◌then◌else◌, Bool-cases}
use temis_sso_lab.Base.Lists.{any}

-- `s <= t`
unfoldable pub text_leb : String → String → Bool
text_leb [] t = true
text_leb (c ∷ s) [] = false
text_leb (c ∷ s) (d ∷ t) =
    let rest = text_leb s t in
    if ltb (code c) (code d) then true else if nat_eq (code c) (code d) then rest else false

unfoldable pub insert : String → List String → List String
insert s List.[] = List.◌∷◌ s List.[]
insert s (List.◌∷◌ t ts) =
    let rest = insert s ts in if text_leb s t then List.◌∷◌ s (List.◌∷◌ t ts) else List.◌∷◌ t rest

-- `sorted(...)`
unfoldable pub sorted : List String → List String
sorted List.[] = List.[]
sorted (List.◌∷◌ t ts) = insert t (sorted ts)

abbrev pub member : String → List String → Bool
member s ts = any (λ t. t == s) ts

-- The texts of a set: each once.
unfoldable pub unique : List String → List String
unique List.[] = List.[]
unique (List.◌∷◌ t ts) = let rest = unique ts in if member t rest then rest else List.◌∷◌ t rest

member-insert : (s t : String) (ts : List String) → member s (insert t ts) ≡ (t == s || member s ts)
unfolding insert any
member-insert s t List.[] = refl
member-insert s t (List.◌∷◌ u ts) = elim (Bool-cases (text_leb t u)) [
  | inl e ↦ rw e refl
  | inr e ↦ rw (e, member-insert s t ts) (ground arith)
]

-- Sorting loses nothing and adds nothing.
pub member-sorted : (s : String) (ts : List String) → member s (sorted ts) ≡ member s ts
unfolding sorted any
member-sorted s List.[] = refl
member-sorted s (List.◌∷◌ t ts) =
    member-insert s t (sorted ts) ∙ ap (λ b. t == s || b) (member-sorted s ts)

-- `<=` of tuples of texts.
unfoldable pub texts_leb : List String → List String → Bool
texts_leb List.[] ts = true
texts_leb (List.◌∷◌ s ss) List.[] = false
texts_leb (List.◌∷◌ s ss) (List.◌∷◌ t ts) =
    let rest = texts_leb ss ts in if s == t then rest else text_leb s t

module _ {ℓ} {A : Type ℓ} (key : A → List String) where
  unfoldable pub insert_by : A → List A → List A
  insert_by x List.[] = List.◌∷◌ x List.[]
  insert_by x (List.◌∷◌ y ys) =
      let rest = insert_by x ys in
      if texts_leb (key x) (key y) then List.◌∷◌ x (List.◌∷◌ y ys) else List.◌∷◌ y rest

  -- `sorted`, of values that are compared by their texts.
  unfoldable pub sorted_by : List A → List A
  sorted_by List.[] = List.[]
  sorted_by (List.◌∷◌ x xs) = insert_by x (sorted_by xs)

sorted_test :
    sorted (List.◌∷◌ "naver" (List.◌∷◌ "google" (List.◌∷◌ "kakao" List.[])))
    ≡ List.◌∷◌ "google" (List.◌∷◌ "kakao" (List.◌∷◌ "naver" List.[]))
unfolding sorted insert text_leb
sorted_test = refl
