-- ===== src/Json.antt =====
-- The values that `json.loads` returns and `json.dumps` writes, and Python's `dict` methods on
-- them. Numbers are integers: the message schema (docs/architecture.md) has no others.
pub mod Laws
use digital_cip.Prelude.{
  Bool, true, false, not, ℤ, pos, String, Option, none, some, ◌==◌, if◌then◌else◌, eq_ℤ,
}
use digital_cip.Prelude.Text.{decimal_ℤ, is_empty}

mutual
  pub data Value : Type 0 where
    null : Value
    bool : Bool → Value
    num : ℤ → Value
    str : String → Value
    arr : Items → Value
    obj : Fields → Value

  pub data Items : Type 0 where
    no_items : Items
    item : Value → Items → Items

  pub data Fields : Type 0 where
    no_fields : Fields
    field : String → Value → Fields → Fields

-- `d.get(key)` and `key in d`; `none` is a missing key.
unfoldable pub get : String → Fields → Option Value
get key no_fields = none
get key (field k v rest) = if k == key then some v else get key rest

-- `d.get(key, default)`
unfoldable pub get_or : String → Value → Fields → Value
unfolding get
get_or key d fs = elim (get key fs) [ none ↦ d | some v ↦ v ]

-- `d[key] = value`, and one more entry of a dict display: a known key keeps its place.
unfoldable pub set : String → Value → Fields → Fields
set key v no_fields = field key v no_fields
set key v (field k w rest) = if k == key then field k v rest else field k w (set key v rest)

-- `{**a, **b}`
unfoldable pub merge : Fields → Fields → Fields
unfolding set
merge a no_fields = a
merge a (field k v rest) = merge (set k v a) rest

-- `bool(v)`
unfoldable pub truthy : Value → Bool
truthy null = false
truthy (bool b) = b
truthy (num n) = not (eq_ℤ n (pos 0))
truthy (str s) = not (is_empty s)
truthy (arr no_items) = false
truthy (arr (item v vs)) = true
truthy (obj no_fields) = false
truthy (obj (field k v fs)) = true

-- What a comparison or a sum with an `int` takes: Python's `bool` is an `int`, all else is refused.
unfoldable pub as_int : Value → Option ℤ
as_int (num n) = some n
as_int (bool true) = some (pos 1)
as_int (bool false) = some (pos 0)
as_int _ = none

-- `v or {}`
abbrev pub or_empty : Option Fields → Fields
or_empty none = no_fields
or_empty (some fs) = fs

abbrev pub opt_str : Option String → Value
opt_str none = null
opt_str (some s) = str s

-- `str(v)` in an f-string; `repr` is Python's rendering of a list or a dict.
unfoldable pub str_of : (Value → String) → Value → String
unfolding decimal_ℤ
str_of repr null = "None"
str_of repr (bool true) = "True"
str_of repr (bool false) = "False"
str_of repr (num n) = decimal_ℤ n
str_of repr (str s) = s
str_of repr v = repr v
