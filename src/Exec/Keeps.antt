-- ===== src/Exec/Keeps.antt =====
-- Conditions that code keeps, whether it returns or raises: one rule for each way to build it.
use digital_cip.Prelude.{Bool, true, false, if◌then◌else◌}
use digital_cip.Error.{Error, permanent, transient, foreign, Outcome, returned, raised}
use digital_cip.World.{State}
use digital_cip.Exec.{Exec, pure, raise, lift, try, call, ◌>>=◌}
use digital_cip.Exec.Rules.{Meets, Raises, Meets-bind, Meets-call, Meets-try, Meets-strengthen}

pub record Keeps {A : Type 0} (P : State → Type 0) (m : Exec A) : Type 0 where
  pub meets : Meets P m (λ _. P) (λ _. P)

module _ {P : State → Type 0} {A : Type 0} where
  pub Keeps-pure : (a : A) → Keeps P (pure a)
  Keeps-pure a = record { meets = record { at = λ w h. h } }

  pub Keeps-raise : (e : Error) → Keeps P (raise {A = A} e)
  Keeps-raise e = record { meets = record { at = λ w h. h } }

  lift-at : (o : Outcome A) → Meets P (lift o) (λ _. P) (λ _. P)
  lift-at (returned a) = record { at = λ w h. h }
  lift-at (raised f) = record { at = λ w h. h }

  pub Keeps-lift : (o : Outcome A) → Keeps P (lift o)
  Keeps-lift o = record { meets = lift-at o }

  pub Keeps-if : (b : Bool) (m n : Exec A) → Keeps P m → Keeps P n → Keeps P (if b then m else n)
  Keeps-if true m n km kn = km
  Keeps-if false m n km kn = kn

  pub Keeps-call : (m : Exec A) → Keeps P m → Keeps P (call m)
  Keeps-call m k = record {
    meets = Meets-call m k.meets (λ st f h. h) (λ st a f h. h) (λ st e f h. h);
  }

  pub Keeps-try :
      (m : Exec A) (rescue : Error → Exec A)
      → Keeps P m
      → ((e : Error) → Keeps P (rescue e))
      → Keeps P (try m rescue)
  Keeps-try m rescue k h = record { meets = Meets-try k.meets (λ e. (h e).meets) }

  pub Keeps-bind :
      {B : Type 0} (m : Exec A) (f : A → Exec B)
      → Keeps P m
      → ((a : A) → Keeps P (f a))
      → Keeps P (m >>= f)
  Keeps-bind m f k h = record { meets = Meets-bind k.meets (λ a. (h a).meets) }

pub Raises-keeps : (P : State → Type 0) (e : Error) (st : State) → Raises P e st → P st
Raises-keeps P (permanent m) st h = absurd h
Raises-keeps P (transient m) st h = absurd h
Raises-keeps P (foreign f) st h = h

pub Keeps-of_Raises :
    {P : State → Type 0} {A : Type 0} {m : Exec A} → Meets P m (λ _. P) (Raises P) → Keeps P m
Keeps-of_Raises {P} h = record { meets = Meets-strengthen (λ a st p. p) (Raises-keeps P) h }

pub ruleset keeps_rules =
    (Keeps-pure, Keeps-raise, Keeps-lift, Keeps-if, Keeps-call, Keeps-try, Keeps-bind)
