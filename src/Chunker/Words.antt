-- ===== src/Chunker/Words.antt =====
-- `splitWords` and `ApproxTokenCount` of workers/chunker/internal/chunk/chunk.go, with what Go's
-- `unicode.IsSpace`, `strings.TrimSpace`, `strings.FieldsFunc` and `strings.Join` do there.
use Prim.Native.Char.{Char, code}
use Prim.Native.String.append
use Prim.Native.String.{◌++◌}
use text.Mathlib.TextLemmas.{append-nil}
use digital_cip.Prelude.{
  ℕ, ◌≡◌, refl, sym, ap, ◌∙◌, inl, inr, Bool, true, false, not, ◌&&◌, ◌||◌, String, List, [], ◌∷◌,
  if◌then◌else◌, leb, eqb, length, All, Bool-cases, arith,
}
use digital_cip.Prelude.Text.{join}

-- `unicode.IsSpace`: the characters with the White_Space property. Python's `str.isspace` also
-- takes 28 to 31.
unfoldable pub is_white : ℕ → Bool
is_white c =
    (leb 9 c && leb c 13)
    || eqb c 32
    || eqb c 133
    || eqb c 160
    || eqb c 5760
    || (leb 8192 c && leb c 8202)
    || eqb c 8232
    || eqb c 8233
    || eqb c 8239
    || eqb c 8287
    || eqb c 12288

abbrev pub add_word : String → List String → List String
add_word String.[] words = words
add_word (String.◌∷◌ c s) words = String.◌∷◌ c s ∷ words

-- The word that a text starts with, which may be empty, and the words after it.
unfoldable pub scan : String → String × List String
unfolding is_white
scan String.[] = ("", [])
scan (String.◌∷◌ c s) =
    let (word, words) = scan s in
    if is_white (code c) then ("", add_word word words) else (String.◌∷◌ c word, words)

unfoldable pub split_words : String → List String
unfolding scan
split_words s = let (word, words) = scan s in add_word word words

unfoldable pub approx_token_count : String → ℕ
unfolding split_words
approx_token_count s = length (split_words s)

abbrev drop_white : String → String
drop_white String.[] = ""
drop_white (String.◌∷◌ c s) = if is_white (code c) then drop_white s else String.◌∷◌ c s

abbrev keep_word : Char → String → String
keep_word c String.[] = if is_white (code c) then "" else String.◌∷◌ c ""
keep_word c (String.◌∷◌ d s) = String.◌∷◌ c (String.◌∷◌ d s)

abbrev drop_white_end : String → String
drop_white_end String.[] = ""
drop_white_end (String.◌∷◌ c s) = keep_word c (drop_white_end s)

-- `strings.TrimSpace`
unfoldable pub trim_space : String → String
unfolding is_white
trim_space s = drop_white_end (drop_white s)

-- What `splitWords` gives: a text with characters, none of them white space.
abbrev pub has_no_white : String → Bool
has_no_white String.[] = true
has_no_white (String.◌∷◌ c s) = not (is_white (code c)) && has_no_white s

abbrev pub IsWord : String → Type 0
IsWord String.[] = ⊥
IsWord (String.◌∷◌ c s) = has_no_white (String.◌∷◌ c s) ≡ true

module _ (c : Char) (s : String) where
  scan-white : is_white (code c) ≡ true → scan (String.◌∷◌ c s) ≡ ("", split_words s)
  unfolding scan split_words
  scan-white h = rw h

  scan-black :
      is_white (code c) ≡ false → scan (String.◌∷◌ c s) ≡ (String.◌∷◌ c (scan s).0, (scan s).1)
  unfolding scan
  scan-black h = rw h

black_of :
    (c : Char) (s : String)
    → has_no_white (String.◌∷◌ c s) ≡ true
    → (is_white (code c) ≡ false) × (has_no_white s ≡ true)
black_of c s h = ground arith

scan-append : (w s : String) → has_no_white w ≡ true → scan (w ++ s) ≡ (w ++ (scan s).0, (scan s).1)
scan-append String.[] s h = rw (append.nil s, append.nil (scan s).0) refl
scan-append (String.◌∷◌ c w) s h =
    let (black, rest) = black_of c w h in
    rw (
      append.cons c w s,
      scan-black c (w ++ s) black,
      scan-append w s rest,
      append.cons c w (scan s).0,
    )

add_word-IsWord : (w : String) (ws : List String) → IsWord w → add_word w ws ≡ w ∷ ws
add_word-IsWord String.[] ws h = elim h [ ]
add_word-IsWord (String.◌∷◌ c w) ws h = refl

has_no_white-IsWord : (w : String) → IsWord w → has_no_white w ≡ true
has_no_white-IsWord String.[] h = elim h [ ]
has_no_white-IsWord (String.◌∷◌ c w) h = h

split_words-word : (w : String) → IsWord w → split_words w ≡ w ∷ []
unfolding split_words scan
split_words-word w h =
    ap (λ (p : String × List String). add_word p.0 p.1)
      (ap scan (sym (append-nil w)) ∙ scan-append w "" (has_no_white-IsWord w h))
    ∙ rw (append-nil w) (add_word-IsWord w [] h)

split_words-glue : (w s : String) → IsWord w → split_words (w ++ (" " ++ s)) ≡ w ∷ split_words s
unfolding split_words
split_words-glue w s h =
    rw
      (
        scan-append w (" " ++ s) (has_no_white-IsWord w h),
        append.cons " " "" s,
        append.nil s,
        append-nil w,
      )
      (add_word-IsWord w _ h)

-- The words that are put together with blanks are the words that the text splits into.
pub split_words-join : (ws : List String) → All IsWord ws → split_words (join " " ws) ≡ ws
unfolding join split_words
split_words-join [] h = refl
split_words-join (w ∷ []) h = split_words-word w h.0
split_words-join (w ∷ v ∷ ws) h =
    split_words-glue w (join " " (v ∷ ws)) h.0 ∙ ap (◌∷◌ w) (split_words-join (v ∷ ws) h.1)

add_word-All :
    (w : String) (ws : List String)
    → has_no_white w ≡ true
    → All IsWord ws
    → All IsWord (add_word w ws)
add_word-All String.[] ws h hs = hs
add_word-All (String.◌∷◌ c w) ws h hs = (h, hs)

scan-All : (s : String) → (has_no_white (scan s).0 ≡ true) × All IsWord (scan s).1
unfolding scan
scan-All String.[] = (refl, tt)
scan-All (String.◌∷◌ c s) = elim (Bool-cases (is_white (code c))) [
  | inl e ↦ rw e (refl, add_word-All (scan s).0 (scan s).1 (scan-All s).0 (scan-All s).1)
  | inr e ↦ rw e (rw (e, (scan-All s).0) refl, (scan-All s).1)
]

pub split_words-All : (s : String) → All IsWord (split_words s)
unfolding split_words
split_words-All s = add_word-All (scan s).0 (scan s).1 (scan-All s).0 (scan-All s).1

scan-keep_word : (c : Char) (s : String) → scan (keep_word c s) ≡ scan (String.◌∷◌ c s)
unfolding scan
scan-keep_word c String.[] = elim (Bool-cases (is_white (code c))) [
  | inl e ↦ rw e refl
  | inr e ↦ rw e (rw e refl)
]
scan-keep_word c (String.◌∷◌ d s) = refl

scan-drop_white_end : (s : String) → scan (drop_white_end s) ≡ scan s
unfolding scan
scan-drop_white_end String.[] = refl
scan-drop_white_end (String.◌∷◌ c s) =
    scan-keep_word c (drop_white_end s) ∙ rw (scan-drop_white_end s) refl

split_words-drop_white : (s : String) → split_words (drop_white s) ≡ split_words s
unfolding split_words scan
split_words-drop_white String.[] = refl
split_words-drop_white (String.◌∷◌ c s) = elim (Bool-cases (is_white (code c))) [
  | inl e ↦ rw e (split_words-drop_white s)
  | inr e ↦ rw e (rw e refl)
]

-- Trimming a text leaves its words.
pub split_words-trim_space : (s : String) → split_words (trim_space s) ≡ split_words s
unfolding trim_space split_words
split_words-trim_space s =
    ap (λ (p : String × List String). add_word p.0 p.1) (scan-drop_white_end (drop_white s))
    ∙ split_words-drop_white s
