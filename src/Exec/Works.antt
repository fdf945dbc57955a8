-- ===== src/Exec/Works.antt =====
-- Code that returns in the world in which every call works, and keeps a condition of the state.
use digital_cip.Prelude.{◌≡◌, refl, Bool, true, false, if◌then◌else◌}
use digital_cip.Error.{Error, Result, ok, Outcome, returned}
use digital_cip.World.{State, World}
use digital_cip.Exec.{Exec, continue, pure, gets, lift, modify, try, ◌>>=◌}
use digital_cip.Exec.Calm.{calm}

-- `m` returned a value, in a calm world where `P` holds.
pub record Done {A : Type 0} (P : State → Type 0) (r : Result A × World) : Type 0 where
  pub value : A
  pub state : State
  pub answer : r ≡ (ok value, calm state)
  pub holds : P state

pub record Works {A : Type 0} (P : State → Type 0) (m : Exec A) : Type 0 where
  pub at : (st : State) → P st → Done P (m (calm st))

module _ {P : State → Type 0} {A : Type 0} where
  pub Works-pure : (a : A) → Works P (pure a)
  Works-pure a = record { at = λ st h. record { value = a; state = st; answer = refl; holds = h } }

  pub Works-gets : (f : State → A) → Works P (gets f)
  Works-gets f = record {
    at = λ st h. record { value = f st; state = st; answer = refl; holds = h };
  }

  pub Works-lift : (o : Outcome A) (a : A) → o ≡ returned a → Works P (lift o)
  Works-lift o a e = record {
    at = λ st h. record { value = a; state = st; answer = rw (e, lift); holds = h };
  }

  pub Works-if : (b : Bool) (m n : Exec A) → Works P m → Works P n → Works P (if b then m else n)
  Works-if true m n wm wn = wm
  Works-if false m n wm wn = wn

  Done-continue :
      {B : Type 0} (r : Result A × World) (f : A → Exec B)
      → Done P r
      → ((a : A) → Works P (f a))
      → Done P (continue r f)
  Done-continue r f d k =
      let next = (k d.value).at d.state d.holds in
      record {
        value = next.value;
        state = next.state;
        answer = rw d.answer next.answer;
        holds = next.holds;
      }

  pub Works-bind :
      {B : Type 0} (m : Exec A) (f : A → Exec B)
      → Works P m
      → ((a : A) → Works P (f a))
      → Works P (m >>= f)
  Works-bind m f w k = record { at = λ st h. Done-continue (m (calm st)) f (w.at st h) k }

  pub Works-try : (m : Exec A) (rescue : Error → Exec A) → Works P m → Works P (try m rescue)
  Works-try m rescue w = record {
    at = λ st h.
        let d = w.at st h in
        record { value = d.value; state = d.state; answer = rw d.answer refl; holds = d.holds };
  }

pub Works-modify :
    {P : State → Type 0} (f : State → State) → ((st : State) → P st → P (f st)) → Works P (modify f)
Works-modify f keeps = record {
  at = λ st h. record { value = tt; state = f st; answer = refl; holds = keeps st h };
}
