-- ===== src/Ocr/Extract/Rules.antt =====
-- Reading an object and its text changes no state, and raises no worker's own exception.
use digital_cip.Prelude.{Bool, true, false, String, Option, List, [], ◌∷◌, if◌then◌else◌}
use digital_cip.Json.{Value}
use digital_cip.Error.{Outcome}
use digital_cip.Services.{Services, Bytes, Image}
use digital_cip.World.{State}
use digital_cip.Exec.{Exec, pure, lift, ◌>>=◌}
use digital_cip.Exec.Rules.{Meets, Raises, Raises-again, Meets-call, Meets-bind, Meets-lift}
use digital_cip.Ocr.Config.{Config}
use digital_cip.Ocr.Extract.{external, download_object, read_pages, extract_text}

pub record Reads {A : Type 0} (P : State → Type 0) (m : Exec A) : Type 0 where
  pub meets : Meets P m (λ _. P) (Raises P)

module _ {P : State → Type 0} {A : Type 0} where
  Reads-pure : (a : A) → Reads P (pure a)
  Reads-pure a = record { meets = record { at = λ w h. h } }

  Reads-if : (b : Bool) (m n : Exec A) → Reads P m → Reads P n → Reads P (if b then m else n)
  Reads-if true m n km kn = km
  Reads-if false m n km kn = kn

  Reads-external : (o : Outcome A) → Reads P (external o)
  unfolding external
  Reads-external o = record {
    meets =
        Meets-call (λ w. lift o w) (Meets-lift o (λ st a e h. h) (λ st f e h. h)) (λ st f h. h)
          (λ st a f h. h) (Raises-again P);
  }

  Reads-bind :
      {B : Type 0} (m : Exec A) (f : A → Exec B)
      → Reads P m
      → ((a : A) → Reads P (f a))
      → Reads P (m >>= f)
  Reads-bind m f k h = record { meets = Meets-bind k.meets (λ a. (h a).meets) }

ruleset reads_rules = (Reads-pure, Reads-if, Reads-external, Reads-bind)

module _ (s : Services) (config : Config) {P : State → Type 0} where
  pub download_object-Reads : (key : Value) → Reads P (download_object s config key)
  unfolding download_object
  download_object-Reads key = Reads-external _

  read_pages-Reads : (images : List Image) → Reads P (read_pages s config images)
  unfolding read_pages
  read_pages-Reads [] = Reads-pure []
  read_pages-Reads (img ∷ images) =
      Reads-bind _ _ (Reads-external _)
        (λ page. Reads-bind _ _ (read_pages-Reads images) (λ pages. Reads-pure _))

  pub extract_text-Reads :
      (blob : Bytes) (content_type : Option String)
      → Reads P (extract_text s config blob content_type)
  unfolding extract_text
  extract_text-Reads blob content_type = search (reads_rules, read_pages-Reads)
