-- ===== src/Pipeline/ChunkCourse.antt =====
-- What the chunker's work on one document makes of a document's status, whichever of its calls
-- fail.
use digital_cip.Prelude.{refl, ℤ, String, Option, none, some, List, [], ◌∷◌, ◌==◌, ◌||◌, length}
use digital_cip.Prelude.Text.{is_empty, concat, decimal}
use digital_cip.Error.{permanent, returned}
use digital_cip.World.{State}
use digital_cip.Exec.{Exec}
use digital_cip.Exec.Rules.{Meets, Meets-bind, Meets-try, Meets-if, Meets-raise, Meets-strengthen}
use digital_cip.Ocr.Handle.{is_terminal}
use digital_cip.Sql.Rules.{answered}
use digital_cip.Sql.Changes.{with_documents}
use digital_cip.Chunker.Config.{Config}
use digital_cip.Chunker.Envelope.{Envelope}
use digital_cip.Chunker.Split.{split}
use digital_cip.Chunker.Db.{Document, ignore, update_status, with_status}
use digital_cip.Chunker.Db.Rules.{statement-Meets, wrapped-Meets}
use digital_cip.Chunker.Handle.{
  Host, all_pieces, rows_of, chunk_count, wrapped, store_chunks, fail_without_chunks, finish,
  process_document,
}
use digital_cip.Broker.Stages.{Stage}
use digital_cip.Pipeline.{Moves, starts_chunking, completes_chunking, fails_chunking}
use digital_cip.Pipeline.Track.{Track, On, Track-same, On-same, On-update}
use digital_cip.Pipeline.ChunkCalls.{
  IsOfRows, ignore-Rows, event-Rows, processed-Rows, insert-Rows, now-Rows, publish-Rows,
}

module _ (host : Host) (config : Config) (j : ℤ) (a : String) (doc : Document) where
  abbrev Kept : State → Type 0
  Kept = Track Stage.chunk j a

  abbrev At : String → State → Type 0
  At = On Stage.chunk j a (some doc.id)

  Kept-rows : IsOfRows Kept
  Kept-rows = Track-same Stage.chunk j a (some doc.id)

  At-rows : (b : String) → IsOfRows (At b)
  At-rows b = On-same Stage.chunk j a (some doc.id) b

  update-On :
      (b status : String) (c r f : Option String)
      → Moves Stage.chunk b status
      → Meets (At b) (update_status doc.id status c r f) (λ _. At status) (λ _. Kept)
  unfolding update_status
  update-On b status c r f move =
      statement-Meets
        (λ now db. returned (tt, with_documents (with_status status c r f now) (some doc.id) db))
        (λ st x db h e.
          answered (λ _. At status) st e
            (On-update Stage.chunk j a (some doc.id) (with_status status c r f st.clock) (λ d. refl)
              b status (λ d. refl) move st h))
        (λ st f h. h.0) (λ st x f h. h.0) (λ st e f h. h)

  wrapped-On :
      {b c : String} {m : Exec (Unit {0})} (what : String)
      → Meets (At b) m (λ _. At c) (λ _. Kept)
      → Meets (At b) (wrapped what m) (λ _. At c) (λ _. Kept)
  wrapped-On what h = wrapped-Meets (λ _. Kept) what h (λ st e t k. k)

  -- what leaves the rows, before more work
  steady-On :
      {A : Type 0} {b : String} {m : Exec A}
      → Meets (At b) m (λ _. At b) (λ _. At b)
      → Meets (At b) m (λ _. At b) (λ _. Kept)
  steady-On = Meets-strengthen (λ x st h. h) (λ e st h. h.0)

  ignored-Kept :
      {b : String} {m : Exec (Unit {0})}
      → Meets (At b) m (λ _. Kept) (λ _. Kept)
      → Meets (At b) (ignore m) (λ _. Kept) (λ _. Kept)
  ignored-Kept h = Meets-try {E' = λ _. Kept} h (λ e. record { at = λ w k. k })

  fail-Kept : Meets (At "chunking") (fail_without_chunks host config doc) (λ _. Kept) (λ _. Kept)
  unfolding fail_without_chunks
  fail-Kept =
      Meets-bind (steady-On (now-Rows (At-rows "chunking") host config host.timestamp)) λ now.
        Meets-bind {R = λ _. Kept}
          (ignored-Kept (
            Meets-strengthen (λ x st h. h.0) (λ e st h. h)
              (update-On "chunking" "failed" none (some "no chunks produced") (some now)
                fails_chunking)))
          λ _.
            Meets-bind {R = λ _. Kept}
              (ignore-Rows Kept-rows
                (event-Rows Kept-rows doc.id "chunk" "chunking" "failed" "no chunks produced" none))
              λ _. Meets-raise (permanent "permanent: no chunks produced")

  store-Kept :
      (env : Envelope) (pieces : List String)
      → Meets (At "chunking") (store_chunks host config env doc pieces) (λ _. Kept) (λ _. Kept)
  unfolding store_chunks
  store-Kept env pieces =
      Meets-bind
        (wrapped-On "insert chunks"
          (steady-On (insert-Rows (At-rows "chunking") doc.id (rows_of pieces))))
        λ _.
          Meets-bind (steady-On (now-Rows (At-rows "chunking") host config host.timestamp)) λ now.
            Meets-bind
              (Meets-strengthen (λ x st h. h.0) (λ e st h. h)
                (wrapped-On "status update"
                  (update-On "chunking" "chunked" (some now) none none completes_chunking)))
              λ _.
                Meets-bind {R = λ _. Kept}
                  (ignore-Rows Kept-rows (
                    event-Rows Kept-rows doc.id "chunk" "chunking" "chunked"
                      (concat ("Created " ∷ decimal (length pieces) ∷ " chunks" ∷ []))
                      (some (chunk_count (length pieces)))))
                  λ _.
                    Meets-bind {R = λ _. Kept}
                      (ignore-Rows Kept-rows (
                        processed-Rows Kept-rows env.message_id env.idempotency_key "chunk"
                          config.service_name doc.id (chunk_count (length pieces))))
                      λ _. publish-Rows Kept-rows host config env (length pieces)

  finish-Kept :
      (env : Envelope) (pieces : List String)
      → Meets (At "chunking") (finish host config env doc pieces) (λ _. Kept) (λ _. Kept)
  unfolding finish
  finish-Kept env [] = fail-Kept
  finish-Kept env (p ∷ ps) = store-Kept env (p ∷ ps)

  pub begin-Kept :
      (env : Envelope)
      → Meets (At doc.status) (process_document host config env (some doc)) (λ _. Kept) (λ _. Kept)
  unfolding process_document is_terminal
  begin-Kept env =
      Meets-if (doc.status == "embedded" || doc.status == "failed") _ _
        (λ ended. record { at = λ w h. h.0 })
        λ going.
          Meets-if (is_empty doc.raw_text) _ _ (λ e. record { at = λ w h. h.0 })
            λ e.
              Meets-bind
                (wrapped-On "status update"
                  (update-On doc.status "chunking" none none none (starts_chunking going)))
                λ _.
                  Meets-bind {R = λ _. At "chunking"}
                    (ignore-Rows (At-rows "chunking") (
                      event-Rows (At-rows "chunking") doc.id "chunk" doc.status "chunking"
                        "Chunking started" none))
                    λ _.
                      finish-Kept env
                        (all_pieces (split doc.raw_text config.chunk_size config.chunk_overlap))
