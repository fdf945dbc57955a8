-- ===== src/Sql/Steadiness.antt =====
-- Transactions in the world in which every call works.
use digital_cip.Prelude.{ℕ}
use digital_cip.Error.{Outcome}
use digital_cip.Tables.{Db}
use digital_cip.Exec.{Exec}
use digital_cip.Exec.Steady.{
  Steady, Steady-call, Steady-gets, Steady-modify, Steady-pure, Steady-answer, steady_rules,
}
use digital_cip.Sql.Transaction.{connect, execute, commit, rollback, close, transaction}

pub connect-Steady : Steady connect
unfolding connect
connect-Steady = Steady-call _ (Steady-gets _)

execute-Steady :
    {A : Type 0} (body : ℕ → Db → Outcome (A × Db)) (conn : Db) → Steady (execute body conn)
unfolding execute
execute-Steady body conn = Steady-call _ (Steady-answer λ w. body w.clock conn)

commit-Steady : (conn : Db) → Steady (commit conn)
unfolding commit
commit-Steady conn = Steady-call _ (Steady-modify _)

rollback-Steady : Steady rollback
unfolding rollback
rollback-Steady = Steady-call _ (Steady-pure tt)

close-Steady : Steady close
unfolding close
close-Steady = Steady-call _ (Steady-pure tt)

pub transaction-Steady :
    {A : Type 0} (connection : Exec Db) (body : ℕ → Db → Outcome (A × Db))
    → Steady connection
    → Steady (transaction connection body)
unfolding transaction
transaction-Steady connection body opens =
    search (steady_rules, execute-Steady, commit-Steady, rollback-Steady, close-Steady) depth 12
