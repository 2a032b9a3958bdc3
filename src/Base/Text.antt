-- ===== src/Base/Text.antt =====
-- Python's text methods that the program calls: `lower`, `strip`, `in`, `startswith` and
-- `removeprefix`. `lower` maps the ASCII letters and `strip` drops ASCII white space; the case
-- mappings and white space of other code points are not modelled.
use Prim.Native.Nat.{ℕ, zero, suc, ◌-◌}
use Prim.Native.Char.{Char, code}
use Prim.Native.String.{String, [], ◌∷◌, ◌++◌}
use mathlib.Core.Path.{◌≡◌, refl}
use mathlib.Core.Bool.{Bool, true, false, ◌&&◌, ◌||◌}
use mathlib.Core.List.{List}
use temis_sso_lab.Base.Tests.{leb, nat_eq, if◌then◌else◌}

-- The character at a place of a text, or the given one past its end.
char_or : String → ℕ → Char → Char
char_or [] n d = d
char_or (c ∷ s) zero d = c
char_or (c ∷ s) (suc n) d = char_or s n d

lower_char : Char → Char
unfolding char_or
lower_char c =
    if leb 65 (code c) && leb (code c) 90
    then char_or "abcdefghijklmnopqrstuvwxyz" (code c - 65) c
    else c

-- `s.lower()`
unfoldable pub lower : String → String
unfolding lower_char
lower [] = []
lower (c ∷ s) = lower_char c ∷ lower s

is_space : Char → Bool
is_space c =
    nat_eq (code c) 32
    || (leb 9 (code c) && leb (code c) 13)
    || (leb 28 (code c) && leb (code c) 31)

strip_left : String → String
unfolding is_space
strip_left [] = []
strip_left (c ∷ s) = let rest = strip_left s in if is_space c then rest else c ∷ s

is_empty : String → Bool
is_empty [] = true
is_empty (c ∷ s) = false

-- Drops the white space at the end: a character stays if one behind it stays.
strip_right : String → String
unfolding is_empty is_space
strip_right [] = []
strip_right (c ∷ s) =
    let rest = strip_right s in if is_space c && is_empty rest then [] else c ∷ rest

-- `s.strip()`
unfoldable pub strip : String → String
unfolding strip_left strip_right
strip s = strip_right (strip_left s)

char_eq : Char → Char → Bool
char_eq c d = nat_eq (code c) (code d)

-- `s.startswith(t)`
unfoldable pub starts_with : String → String → Bool
unfolding char_eq
starts_with s [] = true
starts_with [] (d ∷ t) = false
starts_with (c ∷ s) (d ∷ t) = char_eq c d && starts_with s t

drop_text : String → String → String
drop_text s [] = s
drop_text [] (d ∷ t) = []
drop_text (c ∷ s) (d ∷ t) = drop_text s t

-- `s.removeprefix(t)`
unfoldable pub remove_prefix : String → String → String
unfolding drop_text starts_with
remove_prefix s t = if starts_with s t then drop_text s t else s

-- `t in s`, for texts.
unfoldable pub has_text : String → String → Bool
unfolding starts_with
has_text [] t = starts_with [] t
has_text (c ∷ s) t = starts_with (c ∷ s) t || has_text s t

flush : String → List String → List String
flush [] words = words
flush (c ∷ word) words = List.◌∷◌ (c ∷ word) words

-- The letters in front of the first white space, and the words behind it.
split_parts : String → String × List String
unfolding is_space flush
split_parts [] = ([], List.[])
split_parts (c ∷ s) =
    let (word, words) = split_parts s in
    if is_space c then ([], flush word words) else (c ∷ word, words)

-- `s.split()`
unfoldable pub split : String → List String
unfolding split_parts flush
split s = let (word, words) = split_parts s in flush word words

-- `len(s)`: the number of code points.
unfoldable pub length : String → ℕ
length [] = 0
length (c ∷ s) = suc (length s)

-- `any(word in s for word in words)`
unfoldable pub has_any : List String → String → Bool
unfolding has_text
has_any List.[] s = false
has_any (List.◌∷◌ w ws) s = has_text s w || has_any ws s

-- `s + t`, from the left, so that a literal in front computes.
unfoldable pub append : String → String → String
append [] t = t
append (c ∷ s) t = c ∷ append s t

-- `sep.join(parts)`
unfoldable pub join : String → List String → String
join sep List.[] = ""
join sep (List.◌∷◌ part List.[]) = part
join sep (List.◌∷◌ part (List.◌∷◌ next rest)) = part ++ sep ++ join sep (List.◌∷◌ next rest)

lower_test : lower "Bearer ABC-z" ≡ "bearer abc-z"
unfolding lower
lower_test = refl

strip_test : strip " \n a b  " ≡ "a b"
unfolding strip
strip_test = refl

remove_prefix_test : remove_prefix "Bearer x.y" "Bearer " ≡ "x.y"
unfolding remove_prefix
remove_prefix_test = refl

has_text_test : (has_text "access_token" "token" ≡ true) × (has_text "tok" "token" ≡ false)
unfolding has_text
has_text_test = (refl, refl)

split_test :
    split " profile:read  reports:read " ≡ List.◌∷◌ "profile:read" (List.◌∷◌ "reports:read" List.[])
unfolding split
split_test = refl
