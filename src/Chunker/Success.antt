-- ===== src/Chunker/Success.antt =====
-- `process` of workers/chunker/internal/worker/worker.go where every call works.
use digital_cip.Prelude.{
  arith, ◌≡◌, refl, sym, ap, ◌∙◌, ℕ, suc, pos, eq_ℤ, String, false, Option, none, some, List, [],
  ◌∷◌, ◌==◌, ◌||◌, length,
}
use digital_cip.Prelude.Text.{concat, decimal, is_empty}
use digital_cip.Json.{Fields}
use digital_cip.Error.{ok, returned}
use digital_cip.Tables
use digital_cip.Tables.{Db}
use digital_cip.World.{State}
use digital_cip.Exec.Calm.{calm}
use digital_cip.Sql.Statements.{select_document, is_recorded}
use digital_cip.Sql.Laws.{select-update_found, select_document-id}
use digital_cip.Sql.Changes.{with_db, with_documents, with_event, with_processed}
use digital_cip.Consumer.Effects.{on_channel, published_also, basic_publish}
use digital_cip.Ocr.Handle.{is_terminal, lacks_text}
use digital_cip.Chunker.Accepted.{split-cons}
use digital_cip.Chunker.Config.{Config}
use digital_cip.Chunker.Envelope.{Envelope}
use digital_cip.Chunker.Split.{split}
use digital_cip.Chunker.Db.{Document, with_status, processed_row, scan_document}
use digital_cip.Chunker.Db.Replace.{replaced, without_chunks}
use digital_cip.Chunker.Db.Calm.{
  insert_chunks-calm, update_status-calm, event_row, record_event-calm, record_processed-calm,
  already_processed-calm, fetch_document-calm, documents-with_chunks,
}
use digital_cip.Chunker.Handle.{
  Host, all_pieces, rows_of, chunk_count, next_envelope, next_message, publish_next, store_chunks,
  process_document, process, finish,
}

abbrev pub ticked : State → State
ticked st = record st { clock = suc st.clock }

module _ (host : Host) (config : Config) (env : Envelope) where
  -- the status and its event
  abbrev pub marked :
      (status from message : String) (chunked_at : Option String) (payload : Option Fields)
      → State
      → State
  marked status from message chunked_at payload st =
      let st' =
        with_db
          (with_documents (with_status status chunked_at none none st.clock) (some env.document_id))
          st in
      with_db (with_event (event_row env.document_id st' "chunk" from status message payload)) st'

  abbrev pub begun : (from : String) → State → State
  begun from = marked "chunking" from "Chunking started" none none

  abbrev pub finished : ℕ → State → State
  finished n st =
      marked "chunked" "chunking" (concat ("Created " ∷ decimal n ∷ " chunks" ∷ []))
        (some (host.timestamp st.clock)) (some (chunk_count n)) (ticked st)

  abbrev pub listed : ℕ → State → State
  listed n st =
      with_db
        (with_processed (
          processed_row env.message_id env.idempotency_key "chunk" config.service_name
            env.document_id (chunk_count n) st.clock))
        st

  abbrev pub told : ℕ → State → State
  told n st =
      on_channel
        (published_also (
          next_message host config (
            next_envelope host config env n (host.new_string st.clock)
              (host.rfc3339 (suc st.clock)))))
        (ticked (ticked st))

  abbrev pub done : List String → State → State
  done pieces st = told (length pieces) (
      listed (length pieces)
        (finished (length pieces) (replaced env.document_id (rows_of pieces) st)))

  publish_next-calm :
      (n : ℕ) (st : State) → publish_next host config env n (calm st) ≡ (ok tt, calm (told n st))
  unfolding publish_next basic_publish
  publish_next-calm n st = refl

  store_chunks-calm :
      (doc : Document) (d : Tables.Document) (pieces : List String) (st : State)
      → doc.id ≡ env.document_id
      → select_document (some env.document_id) st.db.documents ≡ some d
      → store_chunks host config env doc pieces (calm st) ≡ (ok tt, calm (done pieces st))
  unfolding store_chunks
  store_chunks-calm doc d pieces st same found =
      let n = length pieces in
      let stored = replaced env.document_id (rows_of pieces) st in
      let found' : select_document (some env.document_id) stored.db.documents ≡ some d =
        ap (select_document (some env.document_id)) (
          documents-with_chunks env.document_id (rows_of pieces) st.clock
            (without_chunks env.document_id st.db))
        ∙ found in
      let f = with_status "chunked" (some (host.timestamp st.clock)) none none (suc st.clock) in
      let st' : State = with_db (with_documents f (some env.document_id)) (ticked stored) in
      rw (
        same,
        insert_chunks-calm env.document_id d pieces st found,
        update_status-calm env.document_id (ticked stored) "chunked"
            (some (host.timestamp st.clock)) none none,
        record_event-calm env.document_id st' "chunk" "chunking" "chunked"
            (concat ("Created " ∷ decimal n ∷ " chunks" ∷ [])) (some (chunk_count n)) (f d)
            (select-update_found f (λ x. refl) (some env.document_id) stored.db.documents d found'),
        record_processed-calm env.document_id (finished n stored) env.message_id env.idempotency_key
            "chunk" config.service_name (chunk_count n),
        publish_next-calm n (listed n (finished n stored)),
      )

-- What `process` finds when it gets to work: a message that is not recorded, about a document that
-- is there, has a content type, is neither `embedded` nor `failed`, and whose text is one that the
-- OCR worker accepts.
pub record Ready (env : Envelope) (st : State) : Type 0 where
  pub row : Tables.Document
  pub content_type : String
  pub text : String
  pub numbered : eq_ℤ env.document_id (pos 0) ≡ false
  pub fresh : is_recorded (some env.message_id) st.db.processed_messages ≡ false
  pub found : select_document (some env.document_id) st.db.documents ≡ some row
  pub typed : row.content_type ≡ some content_type
  pub live : is_terminal row.status ≡ false
  pub has_text : row.raw_text ≡ some text
  pub accepted : lacks_text text ≡ false

not_empty : (text : String) → lacks_text text ≡ false → is_empty text ≡ false
unfolding lacks_text
not_empty text h = ground arith

module _ (host : Host) (config : Config) (env : Envelope) (st : State) (r : Ready env st) where
  abbrev pub pieces_of : List String
  pieces_of = all_pieces (split r.text config.chunk_size config.chunk_overlap)

  doc : Document
  doc = record {
    id = env.document_id;
    status = r.row.status;
    content_type = r.content_type;
    raw_text = r.text;
    object_key = r.row.object_key;
  }

  same_id : r.row.id ≡ env.document_id
  same_id = sym (select_document-id env.document_id st.db.documents r.row r.found)

  scanned :
      scan_document (select_document (some env.document_id) st.db.documents) ≡ returned (some doc)
  unfolding doc scan_document
  scanned = rw (r.found, scan_document, r.typed, r.has_text, same_id) refl

  finish-calm :
      (d : Tables.Document) (st' : State)
      → select_document (some env.document_id) st'.db.documents ≡ some d
      → finish host config env doc pieces_of (calm st')
        ≡ (ok tt, calm (done host config env pieces_of st'))
  unfolding finish doc
  finish-calm d st' found =
      let (p, ps, cut) = split-cons r.text r.accepted config.chunk_size config.chunk_overlap in
      rw cut (store_chunks-calm host config env doc d (p ∷ ps) st' refl found)

  live : (r.row.status == "embedded" || r.row.status == "failed") ≡ false
  unfolding is_terminal
  live = r.live

  -- `process` sets the status to `chunking` and, once the chunks are stored, to `chunked` with the
  -- time, adds an event for each of the two, takes the pieces of the text for the document's
  -- chunks, records the message and publishes one message for the embedder.
  pub process-Ready :
      process host config env (calm st)
      ≡ (ok tt, calm (done host config env pieces_of (begun host config env r.row.status st)))
  unfolding process process_document doc
  process-Ready =
      let f = with_status "chunking" none none none st.clock in
      let found' =
        select-update_found f (λ x. refl) (some env.document_id) st.db.documents r.row r.found in
      let st' : State = with_db (with_documents f (some env.document_id)) st in
      rw
        (
          r.numbered,
          already_processed-calm env.message_id st,
          r.fresh,
          fetch_document-calm env.document_id st (some doc) scanned,
          live,
          not_empty r.text r.accepted,
          update_status-calm env.document_id st "chunking" none none none,
          record_event-calm env.document_id st' "chunk" r.row.status "chunking" "Chunking started"
              none (f r.row) found',
        )
        (finish-calm (f r.row) (begun host config env r.row.status st) found')
