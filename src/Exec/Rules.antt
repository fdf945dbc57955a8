-- ===== src/Exec/Rules.antt =====
-- A logic of pre- and postconditions for code that may raise. A condition speaks of the state and
-- not of the fates, so what is proved here holds whichever calls of the outside fail.
use digital_cip.Prelude.{◌≡◌, refl, Bool, true, false, if◌then◌else◌}
use digital_cip.Error.{
  Error, permanent, transient, Foreign, foreign, Result, ok, err, Outcome, returned, raised,
}
use digital_cip.World.{State, World, Fate, works, fails, lands, next_fate, later_fates}
use digital_cip.Exec.{
  Exec, pure, raise, lift, gets, modify, try, finally, call, settle, continue, recover, conclude,
  ◌>>=◌,
}

-- `Q` holds of a returned value and the state then, `E` of an exception and the state then.
abbrev pub Post :
    {A : Type 0} → (A → State → Type 0) → (Error → State → Type 0) → Result A × World → Type 0
Post Q E (ok a, w) = Q a w.state
Post Q E (err e, w) = E e w.state

pub record Meets {A : Type 0} (P : State → Type 0) (m : Exec A) (Q : A → State → Type 0)
    (E : Error → State → Type 0) : Type 0 where
  pub at : (w : World) → P w.state → Post Q E (m w)

pub Meets-modify :
    {Q : Unit {0} → State → Type 0} {E : Error → State → Type 0} (f : State → State)
    → Meets (λ st. Q tt (f st)) (modify f) Q E
Meets-modify f = record { at = λ w h. h }

-- What holds of the state after an exception of a library; the exception is no worker's own.
abbrev pub Raises : (State → Type 0) → Error → State → Type 0
Raises I (permanent m) st = ⊥
Raises I (transient m) st = ⊥
Raises I (foreign f) st = I st

pub Raises-again :
    (I : State → Type 0) (st : State) (e : Error) (f : Foreign)
    → Raises I e st
    → Raises I (foreign f) st
Raises-again I st (permanent m) f h = absurd h
Raises-again I st (transient m) f h = absurd h
Raises-again I st (foreign f') f h = h

-- A call of the outside whose effect is not modelled.
pub Meets-idle :
    {P : State → Type 0} {E : Error → State → Type 0}
    → ((st : State) (f : Foreign) → P st → E (foreign f) st)
    → Meets P (call (pure tt)) (λ _. P) E
unfolding call
Meets-idle {P} {E} h = record { at = λ w p. after w p (next_fate w.fates) }
  where
    after :
        (w : World)
        → P w.state
        → (fate : Fate)
        → Post
            (λ _. P)
            E
            (settle {A = Unit {0}} fate
              (ok tt, record w { fates = later_fates w.fates })
              (record w { fates = later_fates w.fates }))
    after w p works = p
    after w p (fails f) = h w.state f p
    after w p (lands f) = h w.state f p

module _ {A : Type 0} {Q : A → State → Type 0} {E : Error → State → Type 0} where
  pub Meets-pure : (a : A) → Meets (Q a) (pure a) Q E
  Meets-pure a = record { at = λ w h. h }

  pub Meets-raise : (e : Error) → Meets (E e) (raise {A = A} e) Q E
  Meets-raise e = record { at = λ w h. h }

  pub Meets-gets : (f : State → A) → Meets (λ st. Q (f st) st) (gets f) Q E
  Meets-gets f = record { at = λ w h. h }

  pub Meets-lift :
      {P : State → Type 0} (o : Outcome A)
      → ((st : State) (a : A) → o ≡ returned a → P st → Q a st)
      → ((st : State) (f : Foreign) → o ≡ raised f → P st → E (foreign f) st)
      → Meets P (lift o) Q E
  Meets-lift (returned a) q e = record { at = λ w h. q w.state a refl h }
  Meets-lift (raised f) q e = record { at = λ w h. e w.state f refl h }

  pub Meets-weaken :
      {P P' : State → Type 0} {m : Exec A}
      → ((st : State) → P' st → P st)
      → Meets P m Q E
      → Meets P' m Q E
  Meets-weaken imp h = record { at = λ w p. h.at w (imp w.state p) }

  pub Meets-if :
      {P : State → Type 0} (b : Bool) (m n : Exec A)
      → (b ≡ true → Meets P m Q E)
      → (b ≡ false → Meets P n Q E)
      → Meets P (if b then m else n) Q E
  Meets-if true m n km kn = km refl
  Meets-if false m n km kn = kn refl

  -- A call of the outside may fail before it does anything, or raise after it has.
  pub Meets-call :
      {P : State → Type 0} (m : Exec A)
      → Meets P m Q E
      → ((st : State) (f : Foreign) → P st → E (foreign f) st)
      → ((st : State) (a : A) (f : Foreign) → Q a st → E (foreign f) st)
      → ((st : State) (e : Error) (f : Foreign) → E e st → E (foreign f) st)
      → Meets P (call m) Q E
  unfolding call
  Meets-call {P} m h hf hq he = record {
    at = λ w p.
        let w' : World = record w { fates = later_fates w.fates } in
        after w' p (next_fate w.fates) (m w') (h.at w' p);
  }
    where
      after :
          (w : World)
          → P w.state
          → (fate : Fate) (done : Result A × World) → Post Q E done
          → Post Q E (settle fate done w)
      after w p works done q = q
      after w p (fails f) done q = hf w.state f p
      after w p (lands f) (ok a, w') q = hq w'.state a f q
      after w p (lands f) (err e, w') q = he w'.state e f q

  pub Meets-strengthen :
      {P : State → Type 0} {Q' : A → State → Type 0} {E' : Error → State → Type 0} {m : Exec A}
      → ((a : A) (st : State) → Q' a st → Q a st)
      → ((e : Error) (st : State) → E' e st → E e st)
      → Meets P m Q' E'
      → Meets P m Q E
  Meets-strengthen {Q'} {E'} {m} q e h = record { at = λ w p. after (m w) (h.at w p) }
    where
      after : (done : Result A × World) → Post Q' E' done → Post Q E done
      after (ok a, w) p = q a w.state p
      after (err x, w) p = e x w.state p

  -- `E'` is what holds of an exception before it is caught.
  pub Meets-try :
      {P : State → Type 0} {E' : Error → State → Type 0} {m : Exec A} {rescue : Error → Exec A}
      → Meets P m Q E'
      → ((e : Error) → Meets (E' e) (rescue e) Q E)
      → Meets P (try m rescue) Q E
  Meets-try {E'} {m} {rescue} h k = record { at = λ w p. after (m w) (h.at w p) }
    where
      after : (done : Result A × World) → Post Q E' done → Post Q E (recover done rescue)
      after (ok a, w) q = q
      after (err e, w) q = (k e).at w q

module _ {A : Type 0} {Q Q' : A → State → Type 0} {E E' : Error → State → Type 0} where
  -- After `finally`: the clean-up turns what holds of the result into what holds in the end.
  pub Meets-finally :
      {P : State → Type 0} {m : Exec A} {last : Exec (Unit {0})}
      → Meets P m Q' E'
      → ((a : A) → Meets (Q' a) last (λ _. Q a) E)
      → ((e : Error) → Meets (E' e) last (λ _. E e) E)
      → Meets P (finally m last) Q E
  Meets-finally {m} {last} h kq ke = record { at = λ w p. after (m w) (h.at w p) }
    where
      ended_ok :
          (a : A) (done : Result (Unit {0}) × World)
          → Post (λ _. Q a) E done
          → Post Q E (conclude (ok a) done)
      ended_ok a (ok _, w) q = q
      ended_ok a (err e, w) q = q

      ended_err :
          (e : Error) (done : Result (Unit {0}) × World)
          → Post (λ _. E e) E done
          → Post Q E (conclude (err e) done)
      ended_err e (ok _, w) q = q
      ended_err e (err e', w) q = q

      after : (done : Result A × World) → Post Q' E' done → Post Q E (conclude done.0 (last done.1))
      after (ok a, w) q = ended_ok a (last w) ((kq a).at w q)
      after (err e, w) q = ended_err e (last w) ((ke e).at w q)

module _ {A B : Type 0} {R : A → State → Type 0} {Q : B → State → Type 0}
    {E : Error → State → Type 0} where
  pub Meets-bind :
      {P : State → Type 0} {m : Exec A} {f : A → Exec B}
      → Meets P m R E
      → ((a : A) → Meets (R a) (f a) Q E)
      → Meets P (m >>= f) Q E
  Meets-bind {m} {f} h k = record { at = λ w p. after (m w) (h.at w p) }
    where
      after : (done : Result A × World) → Post R E done → Post Q E (continue done f)
      after (ok a, w) q = (k a).at w q
      after (err e, w) q = q
