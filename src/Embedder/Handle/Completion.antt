-- ===== src/Embedder/Handle/Completion.antt =====
-- The embedder's `handle` where every call works: it returns.
use digital_cip.Prelude.{
  ◌≡◌, refl, ℕ, suc, ℤ, String, Option, none, some, List, [], ◌∷◌, length, map,
}
use digital_cip.Prelude.Text.{concat, decimal}
use digital_cip.Json.{Value, Fields, str, get}
use digital_cip.Error.{ok, Outcome, returned, ◌>>=◌}
use digital_cip.Tables.{Vector, Document, Chunk, ProcessingEvent, Db}
use digital_cip.Services.{Services}
use digital_cip.World.{State}
use digital_cip.Exec.{pure, gets, modify}
use digital_cip.Exec.Calm.{calm}
use digital_cip.Exec.Works.{Works, Works-pure, Works-gets, Works-bind, Works-if, Works-modify}
use digital_cip.Sql.Transaction.{transaction, transaction-calm, connect-calm}
use digital_cip.Sql.Statements.{text_column, bigint_key, insert_event}
use digital_cip.Sql.Changes.{with_documents, with_event}
use digital_cip.Consumer.Effects.{on_metrics}
use digital_cip.Ocr.Extract.{external}
use digital_cip.Ocr.Handle.{utc_now}
use digital_cip.Ocr.Handle.Attempt.{Row, Row-update}
use digital_cip.Ocr.Handle.Frame.{item-returned}
use digital_cip.Embedder.Config.{Config}
use digital_cip.Embedder.Connection.{register_vector, connection}
use digital_cip.Embedder.Db.{
  record_processed, fetch_chunks_without_embedding, write_embeddings, update_document, record_event,
}
use digital_cip.Embedder.Db.Status.{with_progress, update_document_lem}
use digital_cip.Embedder.Embeddings.{with_model, load, model, embed_batch}
use digital_cip.Embedder.Handle.{rows_of, count_of, embedded, finish, embed_chunks, process}

pub connection-calm : (st : State) → connection (calm st) ≡ (ok st.db, calm st)
unfolding connection register_vector
connection-calm st = rw (connect-calm st) refl

module _ {P : State → Type 0} where
  -- Statements that answer.
  statement-Works :
      {A : Type 0} (body : ℕ → Db → Outcome (A × Db))
      → ((st : State)
          → P st
          → (a : A) × (db : Db) × (body st.clock st.db ≡ returned (a, db))
            × P (record st { db = db }))
      → Works P (transaction connection body)
  statement-Works body answers = record {
    at = λ st h.
        let (a, db, e, h') = answers st h in
        record {
          value = a;
          state = record st { db = db };
          answer = transaction-calm connection body st a db (connection-calm st) e;
          holds = h';
        };
  }

  external-Works : {A : Type 0} (o : Outcome A) (a : A) → o ≡ returned a → Works P (external o)
  unfolding external
  external-Works o a e = record {
    at = λ st h. record { value = a; state = st; answer = rw e; holds = h };
  }

-- The model can be loaded, and it answers.
pub record Able (s : Services) (config : Config) : Type 0 where
  pub loads : s.sentence_transformer config.embedding_model ≡ returned tt
  pub dimension : ℤ
  pub tells : s.sentence_embedding_dimension ≡ returned dimension
  pub vectors : List String → List Vector
  pub encodes : (texts : List String) → s.encode texts config.batch_size ≡ returned (vectors texts)

module _ (s : Services) (config : Config) (able : Able s config) (document_id : Value) (k : ℤ)
    (keyed : bigint_key s document_id ≡ returned (some k)) where
  -- The document is there.
  abbrev There : State → Type 0
  There st = Row (some k) (λ d. Unit) st.db

  keyed-Works :
      {A : Type 0} (g : Option ℤ → ℕ → Db → Outcome (A × Db))
      → ((st : State)
          → There st
          → (a : A) × (db : Db) × (g (some k) st.clock st.db ≡ returned (a, db))
            × There (record st { db = db }))
      → Works There (transaction connection (λ now db. do d ← bigint_key s document_id; g d now db))
  keyed-Works g answers =
      statement-Works _ λ st h. let (a, db, e, h') = answers st h in (a, db, rw keyed e, h')

  tick-Works : Works There (utc_now s)
  unfolding utc_now
  tick-Works = record {
    at = λ st h. record {
      value = s.isoformat st.clock;
      state = record st { clock = suc st.clock };
      answer = refl;
      holds = h;
    };
  }

  update-Works :
      (status : String) (e r f : Option String)
      → Works There (update_document s document_id status e r f)
  update-Works status e r f = rw (update_document_lem s document_id status e r f) (
      statement-Works _ λ st h. (
        tt,
        with_documents (with_progress status e r f st.clock) (some k) st.db,
        rw keyed refl,
        Row-update (some k) _ st.db (λ d. refl) (λ d h. tt) h,
      ))

  inserted :
      (row : ℤ → ProcessingEvent) (st : State)
      → There st
      → insert_event row (some k) st.db ≡ returned (tt, with_event (row k) st.db)
  unfolding insert_event
  inserted row st h = rw (insert_event, h.found)

  event-Works :
      (from : Option String) (to : String) (message : Option String) (payload : Option Fields)
      → Works There (record_event s document_id "embed" from to message payload)
  unfolding record_event
  event-Works from to message payload =
      keyed-Works _
        λ st h. (tt, _, inserted _ st h, record { row = h.row; found = h.found; holds = tt })

  chunks-Works : Works There (fetch_chunks_without_embedding s document_id)
  unfolding fetch_chunks_without_embedding
  chunks-Works = keyed-Works _ λ st h. (_, st.db, refl, h)

  write-Works : (rows : List (ℤ × Vector)) → Works There (write_embeddings s rows)
  unfolding write_embeddings
  write-Works [] = Works-pure tt
  write-Works (row ∷ rows) =
      statement-Works _ λ st h. (tt, _, refl, record { row = h.row; found = h.found; holds = tt })

  record-Works :
      (id key : String) (consumer : String) (result : Option Fields)
      → Works There (record_processed s (str id) (str key) document_id consumer result)
  unfolding record_processed text_column
  record-Works id key consumer result =
      keyed-Works _ λ st h. (tt, _, refl, record { row = h.row; found = h.found; holds = tt })

  external-There : {A : Type 0} (o : Outcome A) (x : A) → o ≡ returned x → Works There (external o)
  external-There = external-Works

  load-Works : Works There (load s config)
  unfolding load
  load-Works = Works-bind _ _ (external-There _ tt able.loads) λ _.
      Works-bind (modify with_model) _ (Works-modify with_model (λ st h. h)) λ _.
        Works-bind _ (λ dim. pure tt) (external-There _ able.dimension able.tells)
          λ dim. Works-pure tt

  model-Works : Works There (model s config)
  unfolding model
  model-Works =
      Works-bind (gets (λ st. st.model_loaded)) _ (Works-gets (λ st. st.model_loaded))
        λ loaded. Works-if loaded _ _ (Works-pure tt) load-Works

  batch-Works : (texts : List String) → Works There (embed_batch s config texts)
  unfolding embed_batch
  batch-Works texts =
      Works-bind _ _ model-Works λ _. external-There _ (able.vectors texts) (able.encodes texts)

  module _ (envelope : Fields) (id key : String)
      (has_key : get "idempotency_key" envelope ≡ some (str key)) where
    finish-Works :
        (message : String) (payload : Option Fields) (n : ℕ)
        → Works There (finish s config envelope (str id) document_id message payload n)
    unfolding finish
    finish-Works message payload n = Works-bind _ _ tick-Works λ now.
        Works-bind _ _ (update-Works "embedded" (some now) none none) λ _.
          Works-bind _ _ (event-Works (some "embedding") "embedded" (some message) payload) λ _.
            rw (item-returned "idempotency_key" envelope (str key) has_key)
              (record-Works id key _ _)

    embed_chunks-Works :
        (chunks : List Chunk)
        → Works There (embed_chunks s config envelope (str id) document_id chunks)
    unfolding embed_chunks
    embed_chunks-Works [] = finish-Works _ none 0
    embed_chunks-Works (c ∷ chunks) =
        Works-bind _ _ (batch-Works (map (λ x. x.content) (c ∷ chunks))) λ vectors.
          let n = length (rows_of (c ∷ chunks) vectors) in
          Works-bind _ _ (write-Works (rows_of (c ∷ chunks) vectors)) λ _.
            Works-bind (modify (on_metrics (embedded n))) _
              (Works-modify (λ st. on_metrics (embedded n) st) (λ st h. h))
              λ _.
                finish-Works (concat ("Embedded " ∷ decimal n ∷ " chunks" ∷ []))
                  (some (count_of "chunks" n)) n

    pub process-Works :
        (document : Document)
        → Works There (process s config envelope (str id) document_id document)
    unfolding process
    process-Works document = Works-bind _ _ (update-Works "embedding" none none none) λ _.
        Works-bind _ _
          (event-Works (some document.status) "embedding" (some "Embedding started") none)
          λ _. Works-bind _ _ chunks-Works embed_chunks-Works
