-- ===== src/Prelude/Text.antt =====
-- Python's `str` as far as the workers use it: f-strings, `strip`, `in`, and printed integers.
use Prim.Native.Nat.{ℕ, zero, suc, ◌/◌, ◌%◌}
use Prim.Native.Char.{Char, code}
use Prim.Native.String.{String, ◌++◌}
use mathlib.Core.Path.{◌≡◌, refl}
use mathlib.Core.Bool.{Bool, true, false, ◌&&◌, ◌||◌}
use mathlib.Core.Option.{none, some}
use mathlib.Core.List.{List, [], ◌∷◌}
use text.Mathlib.Text.{find?, ◌==◌}
use digital_cip.Prelude.Tests.{ltb, leb, eqb, if◌then◌else◌, Bool-cases}
use digital_cip.Prelude.Int.{ℤ, pos, negsuc}
use mathlib.Core.Logic.{inl, inr}

-- The pieces of an f-string, or of `a + b`, put together.
unfoldable pub concat : List String → String
concat [] = ""
concat (s ∷ rest) = s ++ concat rest

-- `sep.join(pages)`
unfoldable pub join : String → List String → String
join sep [] = ""
join sep (p ∷ []) = p
join sep (p ∷ q ∷ ps) = p ++ (sep ++ join sep (q ∷ ps))

abbrev digit : ℕ → String
digit zero = "0"
digit (suc zero) = "1"
digit (suc (suc zero)) = "2"
digit (suc (suc (suc zero))) = "3"
digit (suc (suc (suc (suc zero)))) = "4"
digit (suc (suc (suc (suc (suc zero))))) = "5"
digit (suc (suc (suc (suc (suc (suc zero)))))) = "6"
digit (suc (suc (suc (suc (suc (suc (suc zero))))))) = "7"
digit (suc (suc (suc (suc (suc (suc (suc (suc zero)))))))) = "8"
digit _ = "9"

-- The fuel n + 1 is enough: each round divides by ten.
decimal_from : ℕ → ℕ → String → String
decimal_from zero n tail = tail
decimal_from (suc fuel) n tail =
    let shown = digit (n % 10) ++ tail in
    let rest = decimal_from fuel (n / 10) shown in if ltb n 10 then shown else rest

-- `str(n)`
unfoldable pub decimal : ℕ → String
unfolding decimal_from
decimal n = decimal_from (suc n) n ""

unfoldable pub decimal_ℤ : ℤ → String
unfolding decimal
decimal_ℤ (pos n) = decimal n
decimal_ℤ (negsuc n) = "-" ++ decimal (suc n)

-- `str.isspace` of one character, by its code point.
unfoldable pub is_space : ℕ → Bool
is_space c =
    (leb 9 c && leb c 13)
    || (leb 28 c && leb c 32)
    || eqb c 133
    || eqb c 160
    || eqb c 5760
    || (leb 8192 c && leb c 8202)
    || eqb c 8232
    || eqb c 8233
    || eqb c 8239
    || eqb c 8287
    || eqb c 12288

unfoldable pub left_strip : String → String
unfolding is_space
left_strip String.[] = ""
left_strip (String.◌∷◌ c s) = if is_space (code c) then left_strip s else String.◌∷◌ c s

abbrev keep_unless_blank : Char → String → String
keep_unless_blank c String.[] = if is_space (code c) then "" else String.◌∷◌ c ""
keep_unless_blank c (String.◌∷◌ d s) = String.◌∷◌ c (String.◌∷◌ d s)

unfoldable pub right_strip : String → String
unfolding is_space
right_strip String.[] = ""
right_strip (String.◌∷◌ c s) = keep_unless_blank c (right_strip s)

-- `text.strip()`
unfoldable pub strip : String → String
unfolding left_strip right_strip
strip s = right_strip (left_strip s)

-- `not text`
abbrev pub is_empty : String → Bool
is_empty String.[] = true
is_empty (String.◌∷◌ c s) = false

-- `part in text`
abbrev pub contains : String → String → Bool
contains text part = elim (find? text part) [ none ↦ false | some _ ↦ true ]

-- Every character is white space.
unfoldable pub is_blank : String → Bool
is_blank String.[] = true
is_blank (String.◌∷◌ c s) = is_space (code c) && is_blank s

is_empty-keep :
    (c : Char) (s : String) → is_empty (keep_unless_blank c s) ≡ (is_space (code c) && is_empty s)
is_empty-keep c String.[] = elim (Bool-cases (is_space (code c))) [ inl e ↦ rw e | inr e ↦ rw e ]
is_empty-keep c (String.◌∷◌ d s) = elim (Bool-cases (is_space (code c))) [
  | inl e ↦ rw e
  | inr e ↦ rw e
]

is_empty-right_strip : (s : String) → is_empty (right_strip s) ≡ is_blank s
unfolding right_strip is_blank
is_empty-right_strip String.[] = refl
is_empty-right_strip (String.◌∷◌ c s) = rw (is_empty-keep c (right_strip s), is_empty-right_strip s)

is_blank-left_strip : (s : String) → is_blank (left_strip s) ≡ is_blank s
unfolding left_strip is_blank
is_blank-left_strip String.[] = refl
is_blank-left_strip (String.◌∷◌ c s) = elim (Bool-cases (is_space (code c))) [
  | inl e ↦ rw e (is_blank-left_strip s)
  | inr e ↦ rw e (rw e)
]

-- `text.strip()` is empty exactly when every character of the text is white space.
pub is_empty-strip : (s : String) → is_empty (strip s) ≡ is_blank s
unfolding strip
is_empty-strip s = rw (is_empty-right_strip (left_strip s)) (is_blank-left_strip s)

decimal_test : (decimal 0 == "0") ≡ true
unfolding decimal
decimal_test = refl

decimal_test' : (decimal_ℤ (negsuc 1204) == "-1205") ≡ true
unfolding decimal_ℤ
decimal_test' = refl

strip_test : (strip "  a b \n" == "a b") ≡ true
unfolding strip
strip_test = refl
