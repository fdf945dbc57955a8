-- ===== src/Embedder/Connection.antt =====
-- `_connection` of workers/embedder/app/db.py.
use digital_cip.Tables.{Db}
use digital_cip.Exec.{Exec, pure, call, ◌>>=◌, ◌>>◌}
use digital_cip.Sql.Transaction.{connect}

-- `register_vector(conn)` asks the database for the vector type.
unfoldable pub register_vector : Exec (Unit {0})
unfolding call
register_vector = call (pure tt)

-- The credentials are the environment's.
unfoldable pub connection : Exec Db
connection = do conn ← connect; register_vector; pure conn
