-- ===== src/Chunker/Db/Calm.antt =====
-- What the calls of workers/chunker/internal/db/db.go do where every call works.
use digital_cip.Prelude.{
  ◌≡◌, refl, ◌∙◌, ℕ, suc, ◌≤◌, ℤ, pos, eq_ℤ, eq_ℤ_refl, String, false, ◌&&◌, ◌||◌, Option, some,
  List, [], ◌∷◌, ◌++◌, inl, inr, Bool-cases, arith,
}
use digital_cip.Error.{ok, Outcome, returned}
use digital_cip.Tables.{Document, Chunk, ProcessingEvent, Db}
use digital_cip.World.{State}
use digital_cip.Exec.Calm.{calm}
use digital_cip.Sql.Transaction.{execute}
use digital_cip.Sql.Statements.{select_document, insert_event, is_recorded}
use digital_cip.Chunker.Db as Db
use digital_cip.Chunker.Db.{
  ChunkRow, statement, with_status, update_status, json_map, record_event, processed_row,
  record_processed, already_processed, scan_document, fetch_document,
}
use digital_cip.Json.{Fields}
use digital_cip.Sql.Changes.{with_db, with_documents, with_event, with_processed}
use digital_cip.Chunker.Db.Chunks.{
  remove_chunks, has_position, with_chunk, insert_chunk, send_batch, insert_chunks,
}
use digital_cip.Chunker.Db.Replace.{with_chunks, without_chunks, replaced}
use digital_cip.Chunker.Handle.{row_of, rows_from, rows_of}

pub statement-calm :
    {A : Type 0} (body : ℕ → Db → Outcome (A × Db)) (st : State) (a : A) (db : Db)
    → body st.clock st.db ≡ returned (a, db)
    → statement body (calm st) ≡ (ok a, calm (record st { db = db }))
unfolding statement
statement-calm body st a db e = rw e refl

has_position-append :
    (id : ℤ) (j : ℕ) (cs : List Chunk) (c : Chunk)
    → has_position id j (cs ++ (c ∷ []))
      ≡ (has_position id j cs || (eq_ℤ id c.document_id && eq_ℤ (pos j) c.position))
unfolding has_position
has_position-append id j [] c = ground arith
has_position-append id j (d ∷ cs) c = rw (has_position-append id j cs c) (ground arith)

has_position-remove :
    (id : ℤ) (j : ℕ) (cs : List Chunk) → has_position id j (remove_chunks id cs) ≡ false
unfolding has_position remove_chunks
has_position-remove id j [] = refl
has_position-remove id j (c ∷ cs) = elim (Bool-cases (eq_ℤ id c.document_id)) [
  | inl e ↦ rw e (has_position-remove id j cs)
  | inr e ↦ rw e (rw (e, has_position-remove id j cs) refl)
]

module _ (id : ℤ) (d : Document) where
  -- The positions from `i` on are free.
  abbrev FreeFrom : ℕ → Db → Type 0
  FreeFrom i db = (j : ℕ) → i ≤ j → has_position id j db.document_chunks ≡ false

  FreeFrom-with_chunk :
      (i : ℕ) (row : ChunkRow) (now : ℕ) (db : Db)
      → row.position ≡ i
      → FreeFrom i db
      → FreeFrom (suc i) (with_chunk id row now db)
  FreeFrom-with_chunk i row now db e free j h =
      has_position-append id j db.document_chunks _
      ∙ rw (free j (omega arith), eq_ℤ_refl id) (ground arith)

  insert_chunk-free :
      (i : ℕ) (row : ChunkRow) (now : ℕ) (db : Db)
      → select_document (some id) db.documents ≡ some d
      → row.position ≡ i
      → FreeFrom i db
      → insert_chunk id row now db ≡ returned (tt, with_chunk id row now db)
  unfolding insert_chunk
  insert_chunk-free i row now db found e free =
      rw (insert_chunk, found, free row.position (omega arith)) refl

  send_batch-calm :
      (i : ℕ) (pieces : List String) (conn : Db) (st : State)
      → select_document (some id) conn.documents ≡ some d
      → FreeFrom i conn
      → send_batch id (rows_from i pieces) conn (calm st)
        ≡ (ok (with_chunks id (rows_from i pieces) st.clock conn), calm st)
  unfolding send_batch execute
  send_batch-calm i [] conn st found free = refl
  send_batch-calm i (p ∷ ps) conn st found free =
      rw (insert_chunk-free i (row_of i p) st.clock conn found refl free)
        (send_batch-calm (suc i) ps _ st found (FreeFrom-with_chunk i _ st.clock conn refl free))

  pub insert_chunks-calm :
      (pieces : List String) (st : State)
      → select_document (some id) st.db.documents ≡ some d
      → insert_chunks id (rows_of pieces) (calm st)
        ≡ (ok tt, calm (replaced id (rows_of pieces) st))
  unfolding insert_chunks
  insert_chunks-calm pieces st found =
      rw
        (send_batch-calm 0 pieces (without_chunks id st.db) st found
          (λ j h. has_position-remove id j st.db.document_chunks))
        refl

pub documents-with_chunks :
    (id : ℤ) (rows : List ChunkRow) (now : ℕ) (db : Db)
    → (with_chunks id rows now db).documents ≡ db.documents
documents-with_chunks id [] now db = refl
documents-with_chunks id (row ∷ rows) now db =
    documents-with_chunks id rows now (with_chunk id row now db)

module _ (id : ℤ) (st : State) where
  pub update_status-calm :
      (status : String) (c r f : Option String)
      → update_status id status c r f (calm st)
        ≡ (ok tt, calm (with_db (with_documents (with_status status c r f st.clock) (some id)) st))
  unfolding update_status
  update_status-calm status c r f = refl

  abbrev pub event_row :
      (stage from to message : String) (payload : Option Fields) → ProcessingEvent
  event_row stage from to message payload = record {
    document_id = id;
    stage = stage;
    from_state = some from;
    to_state = to;
    actor = "system";
    message = some message;
    payload = json_map payload;
    created_at = st.clock;
  }

  pub record_event-calm :
      (stage from to message : String) (payload : Option Fields) (d : Document)
      → select_document (some id) st.db.documents ≡ some d
      → record_event id stage from to message payload (calm st)
        ≡ (ok tt, calm (with_db (with_event (event_row stage from to message payload)) st))
  unfolding record_event insert_event
  record_event-calm stage from to message payload d found =
      rw (record_event, insert_event, found) refl

  pub record_processed-calm :
      (m key stage consumer : String) (result : Fields)
      → record_processed m key stage consumer id result (calm st) ≡ (
        ok tt,
        calm (with_db (with_processed (processed_row m key stage consumer id result st.clock)) st),
      )
  unfolding record_processed
  record_processed-calm m key stage consumer result = refl

pub already_processed-calm :
    (m : String) (st : State)
    → already_processed m (calm st) ≡ (ok (is_recorded (some m) st.db.processed_messages), calm st)
unfolding already_processed
already_processed-calm m st = refl

pub fetch_document-calm :
    (id : ℤ) (st : State) (doc : Option Db.Document)
    → scan_document (select_document (some id) st.db.documents) ≡ returned doc
    → fetch_document id (calm st) ≡ (ok doc, calm st)
unfolding fetch_document
fetch_document-calm id st doc e = rw (fetch_document, e) refl
