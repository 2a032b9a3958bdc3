-- ===== src/Base/Json.antt =====
-- The values of `json` documents, token claims and log records. Integers are not negative; the
-- numbers with a fraction are not modelled.
use Prim.Native.Nat.{ℕ}
use Prim.Native.String.{String}
use mathlib.Core.Bool.{Bool, true, false}
use mathlib.Core.Option.{Option, none, some}
use text.Mathlib.Text.{◌==◌}
use temis_sso_lab.Base.Tests.{if◌then◌else◌}

mutual
  pub data Value : Type 0 where
    null : Value
    bool : Bool → Value
    int : ℕ → Value
    str : String → Value
    obj : Fields → Value
    arr : Items → Value

  pub data Fields : Type 0 where
    end : Fields
    field : String → Value → Fields → Fields

  pub data Items : Type 0 where
    nil : Items
    cons : Value → Items → Items

-- `d.get(key)`; a missing key gives `None`, which is `null` here too.
unfoldable pub get : Fields → String → Value
get end k = null
get (field j v fs) k = if j == k then v else get fs k

-- `key in d`
unfoldable pub has_key : Fields → String → Bool
has_key end k = false
has_key (field j v fs) k = if j == k then true else has_key fs k

-- `isinstance(v, str)`, with the text.
abbrev pub as_str : Value → Option String
as_str (str s) = some s
as_str _ = none

abbrev pub as_int : Value → Option ℕ
as_int (int n) = some n
as_int _ = none

abbrev pub as_items : Value → Option Items
as_items (arr xs) = some xs
as_items _ = none

abbrev pub as_fields : Value → Option Fields
as_fields (obj fs) = some fs
as_fields _ = none

-- `v is True`
abbrev pub is_true : Value → Bool
is_true (bool true) = true
is_true _ = false

-- `v is False`
abbrev pub is_false : Value → Bool
is_false (bool false) = true
is_false _ = false
