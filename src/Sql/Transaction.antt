-- ===== src/Sql/Transaction.antt =====
-- `transaction` of db.py: the statements see a private copy of the tables, which the commit makes
-- everybody's. The two workers differ in what they do to open a connection.
use digital_cip.Prelude.{ℕ, ◌≡◌, refl}
use digital_cip.Error.{Error, Foreign, foreign, ok, err, Outcome, returned, raised}
use digital_cip.Tables.{Db}
use digital_cip.World.{State}
use digital_cip.Exec.{Exec, pure, raise, lift, gets, modify, try, finally, call, ◌>>=◌, ◌>>◌}
use digital_cip.Exec.Calm.{calm}
use digital_cip.Exec.Rules.{
  Raises, Raises-again, Meets, Meets-bind, Meets-call, Meets-try, Meets-finally, Meets-pure,
  Meets-raise, Meets-lift, Meets-idle,
}

-- `psycopg.connect`: the new connection sees the tables as they are.
unfoldable pub connect : Exec Db
unfolding call
connect = call (gets (λ st. st.db))

unfoldable pub execute : {A : Type 0} → (ℕ → Db → Outcome (A × Db)) → Db → Exec (A × Db)
unfolding call
execute body conn = call (λ w. lift (body w.clock conn) w)

unfoldable pub commit : Db → Exec (Unit {0})
unfolding call
commit conn = call (modify (λ st. record st { db = conn }))

-- `conn.rollback()` and `conn.close()` throw the private copy away.
unfoldable pub rollback : Exec (Unit {0})
unfolding call
rollback = call (pure tt)

unfoldable pub close : Exec (Unit {0})
unfolding call
close = call (pure tt)

unfoldable pub transaction : {A : Type 0} → Exec Db → (ℕ → Db → Outcome (A × Db)) → Exec A
unfolding execute commit rollback close
transaction connection body = do
  conn ← connection
  finally (try (do (a, conn') ← execute body conn; commit conn'; pure a) (λ e. rollback >> raise e))
      close

commit-Meets :
    {P R : State → Type 0} {E : Error → State → Type 0} (db : Db)
    → ((st : State) (f : Foreign) → P st → E (foreign f) st)
    → ((st : State) → P st → R (record st { db = db }))
    → ((st : State) (f : Foreign) → R st → E (foreign f) st)
    → ((st : State) (e : Error) (f : Foreign) → E e st → E (foreign f) st)
    → Meets P (commit db) (λ _. R) E
unfolding commit
commit-Meets db nothing all late again =
    Meets-call (modify (λ st. record st { db = db })) (record { at = λ w p. all w.state p }) nothing
      (λ st a f. late st f) again

module _ {A : Type 0} {P : State → Type 0} {E : Error → State → Type 0}
    (body : ℕ → Db → Outcome (A × Db))
    (nothing : (st : State) (f : Foreign) → P st → E (foreign f) st)
    (again : (st : State) (e : Error) (f : Foreign) → E e st → E (foreign f) st) where
  execute-Meets :
      (conn : Db)
      → Meets
          (λ st. (conn ≡ st.db) × P st)
          (execute body conn)
          (λ r st. P st × (body st.clock st.db ≡ returned r))
          E
  unfolding execute
  execute-Meets conn =
      Meets-call (λ w. lift (body w.clock conn) w)
        (record {
          at = λ w p.
              (Meets-lift {Q = λ r st. P st × (body st.clock st.db ≡ returned r)} {E = E}
                  {P = λ st. (st.clock ≡ w.clock) × (conn ≡ st.db) × P st} (body w.clock conn)
                  (λ st r e h. (h.2, rw (h.0, ← h.1) e)) (λ st f e h. nothing st f h.2)).at
                w (refl, p.0, p.1);
        })
        (λ st f h. nothing st f h.1) (λ st r f h. nothing st f h.0) again

  -- A transaction that fails has done nothing, or all of its work: the commit may have gone
  -- through before the exception.
  pub transaction-Meets :
      {Q : A → State → Type 0} {connection : Exec Db}
      → Meets P connection (λ conn st. (conn ≡ st.db) × P st) E
      → ((st : State) (a : A) (db : Db)
          → P st
          → body st.clock st.db ≡ returned (a, db)
          → Q a (record st { db = db }))
      → ((st : State) (a : A) (f : Foreign) → Q a st → E (foreign f) st)
      → Meets P (transaction connection body) Q E
  unfolding transaction
  transaction-Meets {Q} connects all late = Meets-bind connects λ conn.
      Meets-finally {Q' = Q} {E' = E}
        (Meets-try {E' = E}
          (Meets-bind (execute-Meets conn) λ r.
            Meets-bind {R = λ _. Q r.0}
              (commit-Meets r.1 (λ st f h. nothing st f h.0) (λ st h. all st r.0 r.1 h.0 h.1)
                (λ st f. late st r.0 f) again)
              (λ _. Meets-pure r.0))
          (λ e. Meets-bind (Meets-idle (λ st f. again st e f)) (λ _. Meets-raise e)))
        (λ a. Meets-idle (λ st f. late st a f)) (λ e. Meets-idle (λ st f. again st e f))

-- Where every call works, a transaction answers with what its statements return and keeps their
-- tables.
pub transaction-calm :
    {A : Type 0} (connection : Exec Db) (body : ℕ → Db → Outcome (A × Db)) (st : State) (a : A)
    (db : Db)
    → connection (calm st) ≡ (ok st.db, calm st)
    → body st.clock st.db ≡ returned (a, db)
    → transaction connection body (calm st) ≡ (ok a, calm (record st { db = db }))
unfolding transaction
transaction-calm connection body st a db opens answers = rw (opens, answers, lift)

-- Statements that raise leave the tables.
pub transaction-calm_err :
    {A : Type 0} (connection : Exec Db) (body : ℕ → Db → Outcome (A × Db)) (st : State)
    (f : Foreign)
    → connection (calm st) ≡ (ok st.db, calm st)
    → body st.clock st.db ≡ raised f
    → transaction connection body (calm st) ≡ (err (foreign f), calm st)
unfolding transaction
transaction-calm_err connection body st f opens answers = rw (opens, answers, lift)

pub connect-calm : (st : State) → connect (calm st) ≡ (ok st.db, calm st)
unfolding connect
connect-calm st = refl

pub connect-Meets :
    {P : State → Type 0} {E : Error → State → Type 0}
    → ((st : State) (f : Foreign) → P st → E (foreign f) st)
    → ((st : State) (e : Error) (f : Foreign) → E e st → E (foreign f) st)
    → Meets P connect (λ conn st. (conn ≡ st.db) × P st) E
unfolding connect
connect-Meets nothing again =
    Meets-call (gets (λ st. st.db)) (record { at = λ w p. (refl, p) }) nothing
      (λ st a f h. nothing st f h.1) again

-- A transaction raises no worker's own exception. `I` is what is left when it raises.
pub transaction-Raises :
    {A : Type 0} {P I : State → Type 0} {Q : A → State → Type 0} (body : ℕ → Db → Outcome (A × Db))
    → ((st : State) → P st → I st)
    → ((st : State) (a : A) → Q a st → I st)
    → ((st : State) (a : A) (db : Db)
        → P st
        → body st.clock st.db ≡ returned (a, db)
        → Q a (record st { db = db }))
    → Meets P (transaction connect body) Q (Raises I)
transaction-Raises {I} body before after all =
    transaction-Meets body (λ st f. before st) (Raises-again I)
      (connect-Meets (λ st f. before st) (Raises-again I)) all (λ st a f. after st a)
