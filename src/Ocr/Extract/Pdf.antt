-- ===== src/Ocr/Extract/Pdf.antt =====
-- The test of the content type in `extract_text` of workers/ocr/app/ocr.py.
use Prim.Native.String
use Prim.Native.String.append
use Prim.Native.String.find
use Prim.Native.String.len
use Prim.Native.String.{begins, ◌++◌}
use Prim.Native.Nat.{compare as compare_ℕ}
use text.Mathlib.TextFind.{begins_cases, find_cases}
use text.Mathlib.Text.{is_le}
use Prim.Native.Char.{len_utf8}
use digital_cip.Prelude.{◌≡◌, refl, ℕ, suc, ◌+◌, ◌≤◌, String, some, true, false, inl, inr, arith}
use digital_cip.Prelude.Text.{contains, is_empty}
use digital_cip.Ocr.Extract.{is_pdf}

-- A content type in which the letters `pdf` stand somewhere.
pub record NamesPdf (content_type : String) : Type 0 where
  pub before : String
  pub after : String
  pub parts : content_type ≡ before ++ ("pdf" ++ after)

find-pdf : (after : String) → String.find ("pdf" ++ after) "pdf" ≡ 0
find-pdf after = rw (append.cons, append.cons, append.cons, append.nil, find.cons) refl

find_le :
    (before after : String)
    → let t = before ++ ("pdf" ++ after) in String.find t "pdf" ≤ String.len t
find_le String.[] after = rw (append.nil, find-pdf after) (omega arith)
find_le (String.◌∷◌ c s) after =
    let rest = s ++ ("pdf" ++ after) in
    rw (append.cons, find.cons, len.cons)
      (elim (begins_cases (String.◌∷◌ c rest) "pdf" 0 (len_utf8 c + String.find rest "pdf")) [
        | inl (e, _) ↦ rw e (omega arith)
        | inr e ↦ rw e (omega (arith, find_le s after))
      ])

is_le-of_le : (m n : ℕ) → m ≤ n → is_le (compare_ℕ m n) ≡ true
is_le-of_le m n h = ground arith

is_le-suc : (n : ℕ) → is_le (compare_ℕ (suc n) n) ≡ false
is_le-suc n = ground arith

contains_pdf : (before after : String) → contains (before ++ ("pdf" ++ after)) "pdf" ≡ true
contains_pdf before after = rw (contains, is_le-of_le _ _ (find_le before after))

nonempty_pdf : (before after : String) → is_empty (before ++ ("pdf" ++ after)) ≡ false
nonempty_pdf String.[] after = rw (append.nil, append.cons)
nonempty_pdf (String.◌∷◌ c s) after = rw append.cons

lacks_pdf : (t : String) → String.find t "pdf" ≡ suc (String.len t) → contains t "pdf" ≡ false
lacks_pdf t miss = rw (contains, miss, is_le-suc)

pub is_pdf-NamesPdf : (t : String) → NamesPdf t → is_pdf (some t) ≡ true
unfolding is_pdf
is_pdf-NamesPdf t h = rw (h.parts, nonempty_pdf h.before h.after, contains_pdf h.before h.after)

pub is_pdf_other : (t : String) → ¬ NamesPdf t → is_pdf (some t) ≡ false
unfolding is_pdf
is_pdf_other t other = elim (find_cases t "pdf") [
  | inl hit ↦ absurd (other record { before = hit.0; after = hit.1; parts = hit.2 })
  | inr miss ↦ rw (is_pdf, lacks_pdf t miss) (ground arith)
]
