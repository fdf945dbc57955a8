-- ===== src/Exec/Steady.antt =====
-- Code in the world in which every call works: the rules for it to stay in that world.
use digital_cip.Prelude.{◌≡◌, refl, Bool, true, false, [], if◌then◌else◌}
use digital_cip.Error.{Error, Result, ok, err, Outcome, returned, raised}
use digital_cip.World.{State, World}
use digital_cip.Exec.{
  Exec, pure, raise, lift, gets, continue, recover, conclude, modify, try, finally, call, ◌>>=◌,
}

-- No call fails later if none fails from here on.
pub record Steady {A : Type 0} (m : Exec A) : Type 0 where
  pub at : (w : World) → w.fates ≡ [] → (m w).1.fates ≡ []

pub Steady-modify : (f : State → State) → Steady (modify f)
Steady-modify f = record { at = λ w h. h }

module _ {A : Type 0} where
  pub Steady-pure : (a : A) → Steady (pure a)
  Steady-pure a = record { at = λ w h. h }

  pub Steady-raise : (e : Error) → Steady (raise {A = A} e)
  Steady-raise e = record { at = λ w h. h }

  pub Steady-gets : (f : State → A) → Steady (gets f)
  Steady-gets f = record { at = λ w h. h }

  pub Steady-lift : (o : Outcome A) → Steady (lift o)
  Steady-lift (returned a) = record { at = λ w h. h }
  Steady-lift (raised f) = record { at = λ w h. h }

  -- An answer that depends on the clock.
  pub Steady-answer : (o : World → Outcome A) → Steady (λ w. lift (o w) w)
  Steady-answer o = record { at = λ w h. (Steady-lift (o w)).at w h }

  pub Steady-if : (b : Bool) (m n : Exec A) → Steady m → Steady n → Steady (if b then m else n)
  Steady-if true m n sm sn = sm
  Steady-if false m n sm sn = sn

  pub Steady-call : (m : Exec A) → Steady m → Steady (call m)
  unfolding call
  Steady-call m s = record { at = λ w h. rw h (s.at (record w { fates = [] }) refl) }

  after_try :
      (r : Result A × World) (rescue : Error → Exec A)
      → r.1.fates ≡ []
      → ((e : Error) → Steady (rescue e))
      → (recover r rescue).1.fates ≡ []
  after_try (ok a, w) rescue h s = h
  after_try (err e, w) rescue h s = (s e).at w h

  pub Steady-try :
      (m : Exec A) (rescue : Error → Exec A)
      → Steady m
      → ((e : Error) → Steady (rescue e))
      → Steady (try m rescue)
  Steady-try m rescue s k = record { at = λ w h. after_try (m w) rescue (s.at w h) k }

  after_last :
      (r : Result A) (done : Result (Unit {0}) × World)
      → done.1.fates ≡ []
      → (conclude r done).1.fates ≡ []
  after_last r (ok _, w) h = h
  after_last r (err e, w) h = h

  pub Steady-finally :
      (m : Exec A) (last : Exec (Unit {0})) → Steady m → Steady last → Steady (finally m last)
  Steady-finally m last s k = record {
    at = λ w h. after_last (m w).0 (last (m w).1) (k.at (m w).1 (s.at w h));
  }

  after_bind :
      {B : Type 0} (r : Result A × World) (f : A → Exec B)
      → r.1.fates ≡ []
      → ((a : A) → Steady (f a))
      → (continue r f).1.fates ≡ []
  after_bind (ok a, w) f h s = (s a).at w h
  after_bind (err e, w) f h s = h

  pub Steady-bind :
      {B : Type 0} (m : Exec A) (f : A → Exec B)
      → Steady m
      → ((a : A) → Steady (f a))
      → Steady (m >>= f)
  Steady-bind m f s k = record { at = λ w h. after_bind (m w) f (s.at w h) k }

pub ruleset steady_rules = (
  Steady-pure, Steady-raise, Steady-lift, Steady-if, Steady-call, Steady-try, Steady-finally,
  Steady-bind, Steady-modify,
)
