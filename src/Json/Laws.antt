-- ===== src/Json/Laws.antt =====
-- The laws of `get` and `set` on a dict.
use digital_cip.Prelude.{
  ◌≡◌, refl, false, String, some, ◌==◌, eq_iff, eq_refl, arith, if◌then◌else◌,
}
use digital_cip.Json.{Value, Fields, no_fields, field, get, get_or, set}

pub get-set :
    (k j : String) (v : Value) (fs : Fields)
    → get j (set k v fs) ≡ (if k == j then some v else get j fs)
unfolding get set
get-set k j v no_fields = refl
get-set k j v (field i w rest) =
    ground (arith, eq_iff k j, eq_iff i k, eq_iff i j, get-set k j v rest)

pub get-set_self : (k : String) (v : Value) (fs : Fields) → get k (set k v fs) ≡ some v
get-set_self k v fs = simp (get-set, eq_refl)

pub get-set_ne :
    (k j : String) (v : Value) (fs : Fields) → (k == j) ≡ false → get j (set k v fs) ≡ get j fs
get-set_ne k j v fs h = rw (get-set, h)

pub get_or-set_self : (k : String) (v d : Value) (fs : Fields) → get_or k d (set k v fs) ≡ v
unfolding get_or
get_or-set_self k v d fs = rw (get-set_self k v fs, get_or)
