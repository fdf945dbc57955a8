-- ===== src/Pipeline/EmbedCourse.antt =====
-- What the embedder's work on one document makes of a document's status, whichever of its calls
-- fail.
use digital_cip.Prelude.{
  ◌≡◌, refl, sym, ◌∙◌, ℕ, ℤ, false, String, Option, none, some, List, [], ◌∷◌, length, map,
}
use digital_cip.Prelude.Text.{concat, decimal}
use digital_cip.Json.{Value, Fields}
use digital_cip.Error.{Error, permanent, transient, foreign, returned}
use digital_cip.Tables.{Vector, Chunk, Document}
use digital_cip.Services.{Services}
use digital_cip.World.{State}
use digital_cip.Exec.{Exec, modify, try}
use digital_cip.Exec.Rules.{Meets, Raises, Meets-bind, Meets-lift, Meets-try, Meets-strengthen}
use digital_cip.Exec.Keeps.{Raises-keeps}
use digital_cip.Sql.Statements.{bigint_key}
use digital_cip.Consumer.Effects.{on_metrics}
use digital_cip.Ocr.Handle.{is_terminal, utc_now}
use digital_cip.Ocr.Handle.Frame.{returned-injective}
use digital_cip.Embedder.Config.{Config}
use digital_cip.Embedder.Db.{update_document, record_event, write_embeddings}
use digital_cip.Embedder.Db.Rules.{
  fetch_chunks-Meets, write_embeddings-Meets, update_document-Meets, record_event-Meets,
  record_processed-Meets,
}
use digital_cip.Embedder.Embeddings.{embed_batch}
use digital_cip.Embedder.Embeddings.Rules.{embed_batch-Meets}
use digital_cip.Embedder.Handle.{rows_of, count_of, embedded, finish, embed_chunks, process, rescue}
use digital_cip.Broker.Stages.{Stage}
use digital_cip.Pipeline.{Moves, starts_embedding, completes_embedding}
use digital_cip.Pipeline.Track.{Track, On, Track-same, On-same, On-update}

module _ (s : Services) (config : Config) (j : ℤ) (a : String) (document_id : Value)
    (key : Option ℤ) (keyed : bigint_key s document_id ≡ returned key) where
  abbrev Kept : State → Type 0
  Kept = Track Stage.embed j a

  abbrev At : String → State → Type 0
  At = On Stage.embed j a key

  update-On :
      (b status : String) (e r f : Option String)
      → Moves Stage.embed b status
      → Meets (At b) (update_document s document_id status e r f) (λ _. At status) (Raises Kept)
  update-On b status e r f move =
      update_document-Meets (λ st h. h.0) s (At status) document_id status e r f (λ st h. h.0)
        λ st k h eq.
          rw (returned-injective (sym eq ∙ keyed))
            (On-update Stage.embed j a key _ (λ d. refl) b status (λ d. refl) move st h)

  event-On :
      (b : String) (from : Option String) (to : String) (message : Option String)
      (payload : Option Fields)
      → Meets
          (At b)
          (record_event s document_id "embed" from to message payload)
          (λ _. At b)
          (Raises Kept)
  event-On b from to message payload =
      record_event-Meets (λ st h. h.0) s (At b) document_id "embed" from to message payload
        (λ st h. h.0) λ st k row h e same. On-same Stage.embed j a key b st _ refl h

  now-On : (b : String) → Meets (At b) (utc_now s) (λ _. At b) (Raises Kept)
  unfolding utc_now
  now-On b = record { at = λ w h. On-same Stage.embed j a key b w.state _ refl h }

  finish-Kept :
      (envelope : Fields) (message_id : Value) (message : String) (payload : Option Fields) (n : ℕ)
      → Meets
          (At "embedding")
          (finish s config envelope message_id document_id message payload n)
          (λ _. Kept)
          (Raises Kept)
  unfolding finish
  finish-Kept envelope message_id message payload n = Meets-bind (now-On "embedding") λ now.
      Meets-bind {R = λ _. At "embedded"}
        (update-On "embedding" "embedded" (some now) none none completes_embedding)
        λ _. Meets-bind {R = λ _. At "embedded"} (event-On "embedded" _ _ _ _) λ _.
          Meets-bind {R = λ _. Kept} (Meets-lift _ (λ st x e h. h.0) (λ st f e h. h.0))
            λ idempotency_key.
              record_processed-Meets (λ st h. h) s Kept message_id idempotency_key document_id _ _
                (λ st h. h) λ st row h e. Track-same Stage.embed j a key st _ refl h

  batch-Kept :
      (texts : List String)
      → Meets (At "embedding") (embed_batch s config texts) (λ _. At "embedding") (Raises Kept)
  batch-Kept texts =
      Meets-strengthen (λ vs st h. h.0) (λ e st h. h)
        (embed_batch-Meets s config {Q = At "embedding"} (λ st h. h.0) (λ st h. h.0) (λ st h e. h)
          (λ st h. On-same Stage.embed j a key "embedding" st _ refl h) texts)

  write-Kept :
      (rows : List (ℤ × Vector))
      → Meets (At "embedding") (write_embeddings s rows) (λ _. At "embedding") (Raises Kept)
  write-Kept rows =
      write_embeddings-Meets (λ st h. h.0) s (At "embedding") rows (λ st h. h.0)
        λ st h. On-same Stage.embed j a key "embedding" st _ refl h

  counted-Kept :
      (n : ℕ)
      → Meets
          (At "embedding")
          (modify (on_metrics (embedded n)))
          (λ _. At "embedding")
          (Raises Kept)
  counted-Kept n = record { at = λ w h. On-same Stage.embed j a key "embedding" w.state _ refl h }

  embed_chunks-Kept :
      (envelope : Fields) (message_id : Value) (chunks : List Chunk)
      → Meets
          (At "embedding")
          (embed_chunks s config envelope message_id document_id chunks)
          (λ _. Kept)
          (Raises Kept)
  unfolding embed_chunks
  embed_chunks-Kept envelope message_id [] =
      finish-Kept envelope message_id "Already embedded; nothing to do" none 0
  embed_chunks-Kept envelope message_id (c ∷ chunks) =
      Meets-bind (batch-Kept (map (λ x. x.content) (c ∷ chunks))) λ vectors.
        let n = length (rows_of (c ∷ chunks) vectors) in
        Meets-bind (write-Kept (rows_of (c ∷ chunks) vectors)) λ _.
          Meets-bind {A = Unit {0}} {R = λ _. At "embedding"} {m = modify (on_metrics (embedded n))}
            (counted-Kept n)
            λ _.
              finish-Kept envelope message_id (concat ("Embedded " ∷ decimal n ∷ " chunks" ∷ []))
                (some (count_of "chunks" n)) n

  process-Kept :
      (envelope : Fields) (message_id : Value) (document : Document)
      → is_terminal document.status ≡ false
      → Meets
          (At document.status)
          (process s config envelope message_id document_id document)
          (λ _. Kept)
          (Raises Kept)
  unfolding process
  process-Kept envelope message_id document going =
      Meets-bind {R = λ _. At "embedding"}
        (update-On document.status "embedding" none none none (starts_embedding going))
        λ _. Meets-bind {R = λ _. At "embedding"} (event-On "embedding" _ _ _ none) λ _.
          Meets-bind {R = λ _. At "embedding"}
            (fetch_chunks-Meets (λ st h. h.0) s (λ _. At "embedding") document_id (λ st cs h. h.0)
              λ st k h e. h)
            λ chunks. embed_chunks-Kept envelope message_id chunks

  kept :
      {A : Type 0} {P : State → Type 0} {Q : A → State → Type 0} {m : Exec A}
      → Meets P m Q (Raises Kept)
      → Meets P m Q (λ _. Kept)
  kept = Meets-strengthen (λ x st h. h) (Raises-keeps Kept)

  rescue-Kept :
      (e : Error) → Meets (Raises Kept e) (rescue s config document_id e) (λ _. Kept) (λ _. Kept)
  unfolding rescue
  rescue-Kept (permanent m) = record { at = λ w h. absurd h }
  rescue-Kept (transient m) = record { at = λ w h. absurd h }
  rescue-Kept (foreign f) =
      Meets-bind {R = λ _. Kept}
        (kept (
          record_event-Meets (λ st h. h) s Kept document_id "embed" _ _ _ none (λ st h. h)
            λ st k row h e same. Track-same Stage.embed j a key st _ refl h))
        λ _. record { at = λ w h. h }

  pub try-Kept :
      (envelope : Fields) (message_id : Value) (document : Document)
      → is_terminal document.status ≡ false
      → Meets
          (At document.status)
          (try
            (process s config envelope message_id document_id document)
            (rescue s config document_id))
          (λ _. Kept)
          (λ _. Kept)
  try-Kept envelope message_id document going =
      Meets-try (process-Kept envelope message_id document going) rescue-Kept
