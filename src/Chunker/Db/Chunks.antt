-- ===== src/Chunker/Db/Chunks.antt =====
-- `InsertChunks` of workers/chunker/internal/db/db.go: one transaction, which takes the place of
-- the document's chunks. Ids that a rolled back transaction has drawn are drawn again; PostgreSQL
-- would leave a gap.
use digital_cip.Prelude.{
  ℕ, suc, ℤ, pos, Bool, false, none, some, List, [], ◌∷◌, ◌++◌, ◌&&◌, ◌||◌, eq_ℤ, if◌then◌else◌,
}
use digital_cip.Error.{Outcome, returned, raised, other}
use digital_cip.Tables.{Chunk, Db}
use digital_cip.Exec.{Exec, pure, raise, try, ◌>>=◌, ◌>>◌}
use digital_cip.Sql.Transaction.{connect, execute, commit, rollback, close}
use digital_cip.Sql.Statements.{select_document}
use digital_cip.Chunker.Db.{ChunkRow, ignore}

-- `DELETE FROM document_chunks WHERE document_id = $1`
unfoldable pub remove_chunks : ℤ → List Chunk → List Chunk
remove_chunks id [] = []
remove_chunks id (c ∷ cs) =
    if eq_ℤ id c.document_id then remove_chunks id cs else c ∷ remove_chunks id cs

unfoldable pub delete_chunks : ℤ → ℕ → Db → Outcome (Unit {0} × Db)
unfolding remove_chunks
delete_chunks id now db =
    returned (tt, record db { document_chunks = remove_chunks id db.document_chunks })

-- the unique index on `document_id` and `position`
unfoldable pub has_position : ℤ → ℕ → List Chunk → Bool
has_position id position [] = false
has_position id position (c ∷ cs) =
    (eq_ℤ id c.document_id && eq_ℤ (pos position) c.position) || has_position id position cs

abbrev pub chunk_of : (id : ℕ) (document_id : ℤ) → ChunkRow → ℕ → Chunk
chunk_of id document_id row now = record {
  id = pos id;
  document_id = document_id;
  position = pos row.position;
  content = row.content;
  token_count = row.token_count;
  metadata = row.metadata;
  embedding = none;
  created_at = now;
  updated_at = now;
}

abbrev pub with_chunk : ℤ → ChunkRow → ℕ → Db → Db
with_chunk id row now db = record db {
  document_chunks = db.document_chunks ++ (chunk_of db.next_chunk_id id row now ∷ []);
  next_chunk_id = suc db.next_chunk_id;
}

-- `INSERT INTO document_chunks …`
unfoldable pub insert_chunk : ℤ → ChunkRow → ℕ → Db → Outcome (Unit {0} × Db)
unfolding has_position select_document
insert_chunk id row now db = elim (select_document (some id) db.documents) [
  | none ↦ raised (other "violates foreign key constraint")
  | some d ↦
      if has_position id row.position db.document_chunks
      then raised (other "duplicate key value violates unique constraint")
      else returned (tt, with_chunk id row now db)
]

-- `br.Exec()` for each queued statement; the batch is closed when one fails.
unfoldable pub send_batch : ℤ → List ChunkRow → Db → Exec Db
unfolding execute close insert_chunk
send_batch id [] conn = pure conn
send_batch id (row ∷ rows) conn = do
  (_, conn') ← try (execute (insert_chunk id row) conn) (λ e. ignore close >> raise e)
  send_batch id rows conn'

-- from the DELETE to the COMMIT
abbrev pub replace_in : ℤ → List ChunkRow → Db → Exec (Unit {0})
replace_in id rows conn = do
  (_, conn') ← execute (delete_chunks id) conn
  conn'' ← send_batch id rows conn'
  close
  commit conn''

-- The deferred rollback does nothing once the transaction is committed.
unfoldable pub insert_chunks : ℤ → List ChunkRow → Exec (Unit {0})
unfolding connect execute commit rollback close delete_chunks send_batch
insert_chunks id rows = do
  conn ← connect
  try (replace_in id rows conn) (λ e. ignore rollback >> raise e)
