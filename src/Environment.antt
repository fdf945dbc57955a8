-- ===== src/Environment.antt =====
-- The environment of a process, as Python's `os.getenv` and `int` and Go's `os.LookupEnv` and
-- `strconv.Atoi` read it (workers/*/app/config.py, workers/chunker/internal/config/config.go). Of the
-- decimal digits that Unicode has, only those of ASCII are read.
use Prim.Native.Char.{code}
use Prim.Native.Nat.{◌^◌}
use digital_cip.Prelude.{
  ℕ, zero, suc, ◌+◌, ◌-◌, ◌*◌, ◌≡◌, refl, ℤ, pos, negsuc, Bool, true, false, ◌&&◌, String, Option,
  none, some, leb, ltb, eqb, if◌then◌else◌,
}
use digital_cip.Prelude.Text.{strip, is_empty}
use digital_cip.Error.{Outcome, returned, raised, other}

abbrev pub Environ : Type 0
Environ = String → Option String

-- `os.getenv(key, default)`
unfoldable pub getenv : Environ → String → String → String
getenv env key default = elim (env key) [ none ↦ default | some v ↦ v ]

is_digit : ℕ → Bool
is_digit c = leb 48 c && leb c 57

-- Digits, where `grouped` lets single underscores stand between them. `after` says whether the
-- character before was a digit.
digits : (grouped after : Bool) → ℕ → String → Option ℕ
unfolding is_digit
digits grouped after n String.[] = if after then some n else none
digits grouped after n (String.◌∷◌ c s) =
    let rest = digits grouped true (n * 10 + (code c - 48)) s in
    let skipped = digits grouped false n s in
    if is_digit (code c)
    then rest
    else if eqb (code c) 95 && grouped && after
    then skipped
    else none

abbrev negative : Option ℕ → Option ℤ
negative none = none
negative (some zero) = some (pos zero)
negative (some (suc n)) = some (negsuc n)

abbrev positive : Option ℕ → Option ℤ
positive none = none
positive (some n) = some (pos n)

-- an optional sign, and digits
signed : Bool → String → Option ℤ
unfolding digits
signed grouped String.[] = none
signed grouped (String.◌∷◌ c s) =
    if eqb (code c) 45
    then negative (digits grouped false 0 s)
    else if eqb (code c) 43
    then positive (digits grouped false 0 s)
    else positive (digits grouped false 0 (String.◌∷◌ c s))

-- `int(text)`; None stands for ValueError.
unfoldable pub int_of : String → Option ℤ
unfolding signed strip
int_of text = signed true (strip text)

-- `int(os.getenv(key, default))`
unfoldable pub int_env : Environ → String → String → Outcome ℤ
unfolding int_of getenv
int_env env key default = elim (int_of (getenv env key default)) [
  | none ↦ raised (other "invalid literal for int() with base 10")
  | some n ↦ returned n
]

-- the range of Go's `int64`, and of its `int` on a 64-bit machine
unfoldable pub in_int64 : ℤ → Bool
in_int64 (pos n) = ltb n (2 ^ 63)
in_int64 (negsuc n) = ltb n (2 ^ 63)

-- `strconv.Atoi`; an error is none.
unfoldable pub atoi : String → Option ℤ
unfolding signed in_int64
atoi text = elim (signed false text) [ none ↦ none | some n ↦ if in_int64 n then some n else none ]

-- `getenv` of config.go: an empty value counts as none.
unfoldable pub go_getenv : Environ → String → String → String
go_getenv env key default = elim (env key) [
  | none ↦ default
  | some v ↦ if is_empty v then default else v
]

-- `getenvInt`
unfoldable pub go_getenv_int : Environ → String → ℤ → ℤ
unfolding atoi
go_getenv_int env key default = elim (env key) [
  | none ↦ default
  | some v ↦ elim (atoi v) [ none ↦ default | some n ↦ n ]
]

int_test : int_of " -1_024\n" ≡ some (negsuc 1023)
unfolding int_of
int_test = refl

int_test' : int_of "1__0" ≡ none
unfolding int_of
int_test' = refl

atoi_test : atoi "9223372036854775808" ≡ none
unfolding atoi
atoi_test = refl
