-- ===== src/Embedder/Handle/Attempt.antt =====
-- How the `try` of the embedder's `handle`, with its `except` clauses, ends, whichever of its calls
-- fail.
use digital_cip.Prelude.{
  ◌≡◌, refl, sym, ◌∙◌, ap, ℕ, ℤ, String, Option, none, some, List, [], ◌∷◌, length, length-map, map,
}
use digital_cip.Prelude.Text.{concat, decimal}
use digital_cip.Json.{Value, Fields}
use digital_cip.Error.{Error, permanent, transient, foreign, returned}
use digital_cip.Tables.{Vector, Chunk, Document}
use digital_cip.Services.{Services}
use digital_cip.World.{State}
use digital_cip.Exec.{modify}
use digital_cip.Exec.Rules.{Meets, Raises, Meets-bind, Meets-weaken, Meets-strengthen}
use digital_cip.Sql.Statements.{bigint_key}
use digital_cip.Sql.Chunks.{select_missing, set_embeddings}
use digital_cip.Consumer.Effects.{on_metrics}
use digital_cip.Ocr.Handle.Frame.{returned-injective}
use digital_cip.Embedder.Config.{Config}
use digital_cip.Embedder.Coverage.{select_missing-set_embeddings}
use digital_cip.Embedder.Db.{write_embeddings}
use digital_cip.Embedder.Db.Rules.{fetch_chunks-Meets, write_embeddings-Meets}
use digital_cip.Embedder.Embeddings.{embed_batch}
use digital_cip.Embedder.Embeddings.Rules.{embed_batch-Meets}
use digital_cip.Embedder.Handle.{rows_of, count_of, embedded, embed_chunks, process, rescue}
use digital_cip.Embedder.Handle.Progress.{
  IsLive, At, Any, Covered, Embedded, Live, Row-same, update-At, event-At, finish-Embedded,
}

-- The model's documented behaviour: one vector for each text.
abbrev pub OneEach : Services → Config → Type 0
OneEach s config =
    (texts : List String) (vectors : List Vector)
    → s.encode texts config.batch_size ≡ returned vectors
    → length vectors ≡ length texts

module _ (s : Services) (config : Config) (document_id : Value) (key : Option ℤ)
    (keyed : bigint_key s document_id ≡ returned key) (one_each : OneEach s config) where
  -- The chunks that were selected are still the ones without an embedding.
  abbrev Selected : List Chunk → List Chunk → Type 0
  Selected chunks cs = chunks ≡ select_missing key cs

  batch-Meets :
      (chunks : List Chunk)
      → Meets
          (At key IsLive (Selected chunks))
          (embed_batch s config (map (λ x. x.content) chunks))
          (λ vectors st. At key IsLive (Selected chunks) st × (length vectors ≡ length chunks))
          (Raises (Live key))
  batch-Meets chunks =
      Meets-strengthen
        (λ vs st h. (h.0, one_each _ vs h.1 ∙ length-map (λ (x : Chunk). x.content) chunks))
        (λ e st h. h)
        (embed_batch-Meets s config {Q = At key IsLive (Selected chunks)} (λ st h. (h.0, tt))
          (λ st h. (h.0, tt)) (λ st h e. h) (λ st h. h) (map (λ x. x.content) chunks))

  write-Meets :
      (chunks : List Chunk) (vectors : List Vector)
      → Meets
          (λ st. At key IsLive (Selected chunks) st × (length vectors ≡ length chunks))
          (write_embeddings s (rows_of chunks vectors))
          (λ _. At key IsLive (Covered key))
          (Raises (Live key))
  write-Meets chunks vectors =
      write_embeddings-Meets (λ st h. (h.0.0, tt)) s (At key IsLive (Covered key))
        (rows_of chunks vectors) (λ st h. (h.0, tt))
        λ st h. (Row-same key st.db _ refl (λ d r. r) h.0.0, covered chunks vectors st h.0.1 h.1)
    where
      covered :
          (chunks : List Chunk) (vectors : List Vector) (st : State)
          → chunks ≡ select_missing key st.db.document_chunks
          → length vectors ≡ length chunks
          → Covered key (set_embeddings st.clock (rows_of chunks vectors) st.db.document_chunks)
      covered chunks vectors st e same = rw e (
          select_missing-set_embeddings key st.clock st.db.document_chunks vectors
            (same ∙ ap length e))

  counted-Meets :
      (n : ℕ)
      → Meets
          (At key IsLive (Covered key))
          (modify (on_metrics (embedded n)))
          (λ _. At key IsLive (Covered key))
          (Raises (Live key))
  counted-Meets n = record { at = λ w h. h }

  embed_chunks-Embedded :
      (envelope : Fields) (message_id : Value) (chunks : List Chunk)
      → Meets
          (At key IsLive (Selected chunks))
          (embed_chunks s config envelope message_id document_id chunks)
          (λ _ st. Embedded key s message_id st.db)
          (Raises (Live key))
  unfolding embed_chunks
  embed_chunks-Embedded envelope message_id [] =
      Meets-weaken (λ st h. (h.0, sym h.1))
        (finish-Embedded s config document_id key keyed envelope message_id
          "Already embedded; nothing to do" none 0)
  embed_chunks-Embedded envelope message_id (c ∷ chunks) =
      Meets-bind (batch-Meets (c ∷ chunks)) λ vectors.
        let n = length (rows_of (c ∷ chunks) vectors) in
        Meets-bind (write-Meets (c ∷ chunks) vectors) λ _.
          Meets-bind {A = Unit {0}} {R = λ _. At key IsLive (Covered key)}
            {m = modify (on_metrics (embedded n))} (counted-Meets n)
            λ _.
              finish-Embedded s config document_id key keyed envelope message_id
                (concat ("Embedded " ∷ decimal n ∷ " chunks" ∷ [])) (some (count_of "chunks" n)) n

  pub process-Embedded :
      (envelope : Fields) (message_id : Value) (document : Document)
      → Meets
          (Live key)
          (process s config envelope message_id document_id document)
          (λ _ st. Embedded key s message_id st.db)
          (Raises (Live key))
  unfolding process
  process-Embedded envelope message_id document =
      Meets-bind
        (update-At s config document_id key keyed IsLive IsLive Any "embedding" none none none
          (λ st h. h) (λ st h. h) (λ now d h. refl))
        λ _.
          Meets-bind
            (event-At s config document_id key keyed IsLive Any (some document.status) "embedding"
              (some "Embedding started") none (λ st h. h))
            λ _.
              Meets-bind {R = λ chunks. At key IsLive (Selected chunks)}
                (fetch_chunks-Meets (λ st h. h) s (λ chunks. At key IsLive (Selected chunks))
                  document_id (λ st cs h. (h.0, tt))
                  λ st k h e. rw (returned-injective (sym e ∙ keyed)) (h.0, refl))
                λ chunks. embed_chunks-Embedded envelope message_id chunks

  -- How the `try` with its `except` clauses ends: never with `PermanentError`.
  abbrev pub Stopped : Error → State → Type 0
  Stopped (permanent m) st = ⊥
  Stopped (transient m) st = Live key st
  Stopped (foreign f) st = Live key st

  stopped : (e : Error) (st : State) → Raises (Live key) e st → Stopped e st
  stopped (permanent m) st h = absurd h
  stopped (transient m) st h = absurd h
  stopped (foreign f) st h = h

  pub rescue-Stopped :
      {Q : Unit {0} → State → Type 0} (e : Error)
      → Meets (Raises (Live key) e) (rescue s config document_id e) Q Stopped
  unfolding rescue
  rescue-Stopped (permanent m) = record { at = λ w h. absurd h }
  rescue-Stopped (transient m) = record { at = λ w h. absurd h }
  rescue-Stopped (foreign f) =
      Meets-bind {R = λ _. Live key}
        (Meets-strengthen (λ a st h. h) stopped
          (event-At s config document_id key keyed IsLive Any (some "embedding") "embedding" _ none
            (λ st h. h)))
        λ _. record { at = λ w h. h }
