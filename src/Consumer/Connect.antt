-- ===== src/Consumer/Connect.antt =====
-- `_connect` of consumer.py. Its decorator is tenacity's `retry`, of which the code uses this.
use digital_cip.Prelude.{◌≡◌, refl, ◌∙◌, ℕ, zero, suc, ◌<◌, List, [], ◌∷◌, length, arith}
use mathlib.Core.Path.{subst}
use digital_cip.Error.{Error, Foreign, foreign, ok, err}
use digital_cip.World.{State, World, Fate, works, fails}
use digital_cip.Exec.{Exec, pure, call}

-- `retry(reraise=True, stop=stop_after_attempt(n), wait=…)(f)()`. The waiting changes nothing that
-- the worker reads.
abbrev pub RetryCall : Type 0
RetryCall = ℕ → Exec (Unit {0}) → Exec (Unit {0})

-- The documented behaviour: an attempt that returns is the last, an exception has another attempt
-- follow, and that of the last attempt is raised again.
pub record IsRetry (retry_call : RetryCall) : Type 0 where
  pub returns :
      (n : ℕ) (m : Exec (Unit {0})) (w w' : World)
      → m w ≡ (ok tt, w')
      → retry_call (suc n) m w ≡ (ok tt, w')
  pub tries_again :
      (n : ℕ) (m : Exec (Unit {0})) (e : Error) (w w' : World)
      → m w ≡ (err e, w')
      → retry_call (suc (suc n)) m w ≡ retry_call (suc n) m w'
  pub reraises :
      (m : Exec (Unit {0})) (e : Error) (w w' : World)
      → m w ≡ (err e, w')
      → retry_call 1 m w ≡ (err e, w')

-- `pika.BlockingConnection(params)`
unfoldable pub blocking_connection : Exec (Unit {0})
unfolding call
blocking_connection = call (pure tt)

unfoldable pub connect : RetryCall → Exec (Unit {0})
connect retry_call = retry_call 20 blocking_connection

-- so many calls in a row that fail
abbrev pub failing : List Foreign → List Fate → List Fate
failing [] fates = fates
failing (f ∷ fs) fates = fails f ∷ failing fs fates

module _ (retry_call : RetryCall) (is_retry : IsRetry retry_call) (st : State) where
  works_in_time :
      (fs : List Foreign) (n : ℕ) (rest : List Fate)
      → length fs < n
      → retry_call n blocking_connection (record { state = st; fates = failing fs (works ∷ rest) })
        ≡ (ok tt, record { state = st; fates = rest })
  unfolding blocking_connection
  works_in_time fs zero rest h = absurd (omega arith)
  works_in_time [] (suc n) rest h = is_retry.returns n _ _ _ refl
  works_in_time (f ∷ fs) (suc zero) rest h = absurd (omega arith)
  works_in_time (f ∷ fs) (suc (suc n)) rest h =
      is_retry.tries_again n _ (foreign f) _ _ refl ∙ works_in_time fs (suc n) rest (omega arith)

  gives_up_in_time :
      (fs : List Foreign) (f : Foreign) (rest : List Fate)
      → retry_call
          (suc (length fs))
          blocking_connection
          (record { state = st; fates = failing fs (fails f ∷ rest) })
        ≡ (err (foreign f), record { state = st; fates = rest })
  unfolding blocking_connection
  gives_up_in_time [] f rest = is_retry.reraises _ (foreign f) _ _ refl
  gives_up_in_time (g ∷ fs) f rest =
      is_retry.tries_again (length fs) _ (foreign g) _ _ refl ∙ gives_up_in_time fs f rest

-- A broker that comes back before the twentieth attempt is connected to: whatever the fewer than
-- twenty attempts before raised, `_connect` returns at the first that works, and makes no more.
pub connect_in_time :
    (retry_call : RetryCall) (st : State) (fs : List Foreign) (rest : List Fate)
    → IsRetry retry_call
    → length fs < 20
    → connect retry_call (record { state = st; fates = failing fs (works ∷ rest) })
      ≡ (ok tt, record { state = st; fates = rest })
unfolding connect
connect_in_time retry_call st fs rest is_retry h = works_in_time retry_call is_retry st fs 20 rest h

-- `_connect` makes at most twenty attempts: if they all fail, it raises the exception of the last
-- one, and the calls after them are not touched.
pub connect_gives_up :
    (retry_call : RetryCall) (st : State) (fs : List Foreign) (f : Foreign) (rest : List Fate)
    → IsRetry retry_call
    → length fs ≡ 19
    → connect retry_call (record { state = st; fates = failing fs (fails f ∷ rest) })
      ≡ (err (foreign f), record { state = st; fates = rest })
unfolding connect
connect_gives_up retry_call st fs f rest is_retry h =
    subst
      (λ n.
        retry_call (suc n) blocking_connection
          (record { state = st; fates = failing fs (fails f ∷ rest) })
        ≡ (err (foreign f), record { state = st; fates = rest }))
      h (gives_up_in_time retry_call is_retry st fs f rest)
