-- ===== src/Pipeline/ChunkJob.antt =====
-- What the chunker's `process` makes of a document's status, whatever the message says and whichever
-- of its calls fail.
use digital_cip.Prelude.{
  ◌≡◌, sym, ap, ◌∙◌, ℤ, pos, eq_ℤ, Bool, String, Option, none, some, inl, inr, Option-cases,
}
use digital_cip.Error.{returned}
use digital_cip.Tables
use digital_cip.Tables.{Db}
use digital_cip.World.{State}
use digital_cip.Exec.{pure}
use digital_cip.Exec.Rules.{Meets, Meets-bind, Meets-if, Meets-raise}
use digital_cip.Exec.Keeps.{Keeps}
use digital_cip.Sql.Statements.{select_document, is_recorded}
use digital_cip.Sql.Laws.{select_document-id}
use digital_cip.Ocr.Handle.Frame.{returned-injective}
use digital_cip.Chunker.Config.{Config}
use digital_cip.Chunker.Envelope.{Envelope}
use digital_cip.Chunker.Db.{Document, scan_document, fetch_document, already_processed}
use digital_cip.Chunker.Db.Rules.{
  statement-Meets, wrapped-Meets, beside-returned, scan_document-row,
}
use digital_cip.Chunker.Handle.{Host, wrapped, process_document, process}
use digital_cip.Broker.Stages.{Stage}
use digital_cip.Pipeline.Track.{Track, Track-same}
use digital_cip.Pipeline.ChunkCalls.{statement-Rows}
use digital_cip.Pipeline.ChunkCourse.{begin-Kept}

-- What the worker has read is the row of its own document.
Read : Option Document → State → Type 0
Read none st = Unit
Read (some doc) st =
    (row : Tables.Document) × (select_document (some doc.id) st.db.documents ≡ some row)
    × (row.status ≡ doc.status)

nothing : {doc : Document} → scan_document none ≡ returned (some doc) → ⊥
unfolding scan_document
nothing h = cc

scanned :
    (id : ℤ) (st : State) (doc : Option Document)
    → scan_document (select_document (some id) st.db.documents) ≡ returned doc
    → Read doc st
unfolding Read scan_document
scanned id st none h = tt
scanned id st (some doc) h = elim (Option-cases (select_document (some id) st.db.documents)) [
  | inl e ↦ absurd (nothing (ap scan_document (sym e) ∙ h))
  | inr (row, e) ↦
      let (status, same) = scan_document-row row doc (ap scan_document (sym e) ∙ h) in
      (
        row,
        ap (λ k. select_document (some k) st.db.documents)
              (same ∙ sym (select_document-id id st.db.documents row e))
            ∙ e,
        sym status,
      )
]

Read-rows :
    (doc : Option Document) (st st' : State)
    → st'.db.documents ≡ st.db.documents
    → Read doc st
    → Read doc st'
unfolding Read
Read-rows none st st' e h = tt
Read-rows (some doc) st st' e (row, found, same) =
    (row, ap (select_document (some doc.id)) e ∙ found, same)

module _ (host : Host) (config : Config) (j : ℤ) (a : String) where
  document-Kept :
      (env : Envelope) (doc : Option Document)
      → Meets
          (λ st. Track Stage.chunk j a st × Read doc st)
          (process_document host config env doc)
          (λ _. Track Stage.chunk j a)
          (λ _. Track Stage.chunk j a)
  unfolding Read process_document
  document-Kept env none = record { at = λ w h. h.0 }
  document-Kept env (some doc) = record {
    at = λ w (t, (row, found, same)).
        (begin-Kept host config j a doc env).at w
          (t, record { row = row; found = found; holds = same });
  }

  seen-Kept :
      (m : String)
      → Meets
          (Track Stage.chunk j a)
          (wrapped "idempotency check failed" (already_processed m))
          (λ _. Track Stage.chunk j a)
          (λ _. Track Stage.chunk j a)
  unfolding already_processed
  seen-Kept m =
      wrapped-Meets (λ _. Track Stage.chunk j a) _
        (statement-Rows (Track-same Stage.chunk j a none)
          (λ now db. returned (is_recorded (some m) db.processed_messages, db))
          λ now old db b h. sym (ap (λ (r : Bool × Db). r.1.documents) (returned-injective h)))
        (λ st e t h. h)

  fetch-Kept :
      (id : ℤ)
      → Meets
          (Track Stage.chunk j a)
          (wrapped "fetch" (fetch_document id))
          (λ doc st. Track Stage.chunk j a st × Read doc st)
          (λ _. Track Stage.chunk j a)
  unfolding fetch_document
  fetch-Kept id =
      wrapped-Meets (λ _. Track Stage.chunk j a) _
        (statement-Meets _
          (λ st doc db h e.
            let (read, same) = beside-returned _ e in
            (
              Track-same Stage.chunk j a none st _ (ap (λ (x : Db). x.documents) same) h,
              Read-rows doc st _ (ap (λ (x : Db). x.documents) same) (scanned id st doc read),
            ))
          (λ st f h. h) (λ st x f h. h.0) (λ st e f h. h))
        (λ st e t h. h)

  pub chunk-Kept : (env : Envelope) → Keeps (Track Stage.chunk j a) (process host config env)
  unfolding process
  chunk-Kept env = record {
    meets =
        Meets-if (eq_ℤ env.document_id (pos 0)) _ _ (λ e. Meets-raise _)
          λ e. Meets-bind (seen-Kept env.message_id) λ seen.
            Meets-if seen (pure tt) _ (λ e. record { at = λ w h. h })
              λ e. Meets-bind (fetch-Kept env.document_id) (document-Kept env);
  }
