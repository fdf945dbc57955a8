-- ===== src/Exec.antt =====
-- Code that changes the world and may raise. What was done before a raise stays done, so the
-- world comes back beside the exception too.
pub mod Rules
pub mod Keeps
pub mod Calm
pub mod Steady
pub mod Works
use digital_cip.Error.{Error, foreign, Result, ok, err, Outcome, returned, raised}
use digital_cip.World.{State, World, Fate, works, fails, lands, next_fate, later_fates}

abbrev pub Exec : Type 0 → Type 0
Exec A = World → Result A × World

module _ {A : Type 0} where
  abbrev pub pure : A → Exec A
  pure a w = (ok a, w)

  abbrev pub raise : Error → Exec A
  raise e w = (err e, w)

  -- the answer of a call that touches no state
  abbrev pub lift : Outcome A → Exec A
  lift (returned a) w = (ok a, w)
  lift (raised e) w = (err (foreign e), w)

  abbrev pub gets : (State → A) → Exec A
  gets f w = (ok (f w.state), w)

module _ {A B : Type 0} where
  abbrev pub continue : Result A × World → (A → Exec B) → Result B × World
  continue (ok a, w) f = f a w
  continue (err e, w) f = (err e, w)

  infixl 5 ◌>>=◌ ◌>>◌
  abbrev pub ◌>>=◌ : Exec A → (A → Exec B) → Exec B
  ◌>>=◌ m f w = continue (m w) f

  abbrev pub ◌>>◌ : Exec A → Exec B → Exec B
  m >> n = m >>= λ _. n

module _ {A : Type 0} where
  abbrev pub recover : Result A × World → (Error → Exec A) → Result A × World
  recover (ok a, w) rescue = (ok a, w)
  recover (err e, w) rescue = rescue e w

  -- `try: m` with its `except` clauses
  abbrev pub try : Exec A → (Error → Exec A) → Exec A
  try m rescue w = recover (m w) rescue

  abbrev pub conclude : Result A → Result (Unit {0}) × World → Result A × World
  conclude r (ok _, w) = (r, w)
  conclude r (err e, w) = (err e, w)

  -- `try: m finally: last`; an exception of `last` takes the place of the result of `m`.
  abbrev pub finally : Exec A → Exec (Unit {0}) → Exec A
  finally m last w = let (r, w') = m w in conclude r (last w')

abbrev pub modify : (State → State) → Exec (Unit {0})
modify f w = (ok tt, record w { state = f w.state })

-- A call of the outside, by what becomes of it: the answer counts only if the call works, and
-- what it does is done unless it fails.
module _ {A : Type 0} where
  abbrev pub settle : Fate → Result A × World → World → Result A × World
  settle works done w = done
  settle (fails e) done w = (err (foreign e), w)
  settle (lands e) done w = (err (foreign e), done.1)

  unfoldable pub call : Exec A → Exec A
  call m w =
      let w' = record w { fates = later_fates w.fates } in settle (next_fate w.fates) (m w') w'
