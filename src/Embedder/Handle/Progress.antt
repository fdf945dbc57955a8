-- ===== src/Embedder/Handle/Progress.antt =====
-- What the embedder knows of its document on the way, and the last calls of its `try`, whichever of
-- its calls fail.
use digital_cip.Prelude.{
  ◌≡◌, refl, sym, ◌∙◌, ap, ℕ, ℤ, true, false, String, Option, none, some, List, [], ◌==◌,
}
use digital_cip.Json.{Value, Fields}
use digital_cip.Error.{Error, returned}
use digital_cip.Tables.{Chunk, Document, Db}
use digital_cip.Services.{Services}
use digital_cip.World.{State}
use digital_cip.Exec.Rules.{Meets, Raises, Meets-bind, Meets-lift}
use digital_cip.Sql.Statements.{bigint_key, text_column, select_document, is_recorded}
use digital_cip.Sql.Chunks.{select_missing}
use digital_cip.Sql.Laws.{is_recorded-insert_self}
use digital_cip.Ocr.Handle.{utc_now}
use digital_cip.Ocr.Handle.Attempt.{Row, Row-update}
use digital_cip.Ocr.Handle.Frame.{returned-injective}
use digital_cip.Embedder.Config.{Config}
use digital_cip.Embedder.Db.{update_document, record_event}
use digital_cip.Embedder.Db.Status.{with_progress}
use digital_cip.Embedder.Db.Rules.{
  update_document-Meets, record_event-Meets, record_processed-Meets,
}
use digital_cip.Embedder.Handle.{finish}

-- not `failed`
abbrev pub IsLive : Document → Type 0
IsLive d = (d.status == "failed") ≡ false

abbrev pub IsEmbedded : Document → Type 0
IsEmbedded d = d.status ≡ "embedded"

IsLive-of_IsEmbedded : (d : Document) → IsEmbedded d → IsLive d
IsLive-of_IsEmbedded d h = rw h refl

abbrev pub Any : List Chunk → Type 0
Any cs = Unit

module _ (key : Option ℤ) where
  -- The row is there, and what is known of the chunks.
  abbrev pub At : (Document → Type 0) → (List Chunk → Type 0) → State → Type 0
  At R C st = Row key R st.db × C st.db.document_chunks

  abbrev pub Live : State → Type 0
  Live = At IsLive Any

  -- No chunk of the document is without an embedding.
  abbrev pub Covered : List Chunk → Type 0
  Covered cs = select_missing key cs ≡ []

  -- The work is recorded: the row's status, an embedding for each chunk, and the message's id.
  pub record Embedded (s : Services) (message_id : Value) (db : Db) : Type 0 where
    pub done : Row key IsEmbedded db
    pub covered : select_missing key db.document_chunks ≡ []
    pub id : String
    pub stored : text_column s message_id ≡ returned id
    pub listed : is_recorded (some id) db.processed_messages ≡ true

  pub Row-same :
      {R R' : Document → Type 0} (db db' : Db)
      → db'.documents ≡ db.documents
      → ((d : Document) → R d → R' d)
      → Row key R db
      → Row key R' db'
  Row-same db db' same imp h = record {
    row = h.row;
    found = ap (select_document key) same ∙ h.found;
    holds = imp h.row h.holds;
  }

  pub live : (C : List Chunk → Type 0) (st : State) → At IsEmbedded C st → Live st
  live C st h = (Row-same st.db st.db refl IsLive-of_IsEmbedded h.0, tt)

module _ (s : Services) (config : Config) (document_id : Value) (key : Option ℤ)
    (keyed : bigint_key s document_id ≡ returned key) where
  pub update-At :
      (R R' : Document → Type 0) (C : List Chunk → Type 0) (status : String) (e r f : Option String)
      → ((st : State) → At key R C st → Live key st)
      → ((st : State) → At key R' C st → Live key st)
      → ((now : ℕ) (d : Document) → R d → R' (with_progress status e r f now d))
      → Meets
          (At key R C)
          (update_document s document_id status e r f)
          (λ _. At key R' C)
          (Raises (Live key))
  update-At R R' C status e r f before after change =
      update_document-Meets before s (At key R' C) document_id status e r f after λ st k h eq.
        rw (returned-injective (sym eq ∙ keyed))
          (Row-update key _ st.db (λ d. refl) (change st.clock) h.0, h.1)

  pub event-At :
      (R : Document → Type 0) (C : List Chunk → Type 0) (from : Option String) (to : String)
      (message : Option String) (payload : Option Fields)
      → ((st : State) → At key R C st → Live key st)
      → Meets
          (At key R C)
          (record_event s document_id "embed" from to message payload)
          (λ _. At key R C)
          (Raises (Live key))
  event-At R C from to message payload before =
      record_event-Meets before s (At key R C) document_id "embed" from to message payload before
        λ st k row h e ids. (Row-same key st.db _ refl (λ d r. r) h.0, h.1)

  pub utc_now-At :
      (R : Document → Type 0) (C : List Chunk → Type 0) {E : Error → State → Type 0}
      → Meets (At key R C) (utc_now s) (λ _. At key R C) E
  unfolding utc_now
  utc_now-At R C = record { at = λ w h. h }

  pub finish-Embedded :
      (envelope : Fields) (message_id : Value) (message : String) (payload : Option Fields) (n : ℕ)
      → Meets
          (At key IsLive (Covered key))
          (finish s config envelope message_id document_id message payload n)
          (λ _ st. Embedded key s message_id st.db)
          (Raises (Live key))
  unfolding finish
  finish-Embedded envelope message_id message payload n =
      Meets-bind (utc_now-At IsLive (Covered key)) λ now.
        Meets-bind {R = λ _. At key IsEmbedded (Covered key)}
          (update-At IsLive IsEmbedded (Covered key) "embedded" (some now) none none
            (λ st h. (h.0, tt)) (live key (Covered key)) (λ tick d h. refl))
          λ _.
            Meets-bind
              (event-At IsEmbedded (Covered key) (some "embedding") "embedded" (some message)
                payload (live key (Covered key)))
              λ _.
                Meets-bind {R = λ _. At key IsEmbedded (Covered key)}
                  (Meets-lift _ (λ st a e h. h) (λ st f e h. live key (Covered key) st h))
                  λ idempotency_key.
                    record_processed-Meets (live key (Covered key)) s
                      (λ st. Embedded key s message_id st.db) message_id idempotency_key document_id
                      _ _ (λ st h. live key (Covered key) st (h.done, h.covered))
                      λ st row h e. record {
                        done = Row-same key st.db _ refl (λ d r. r) h.0;
                        covered = h.1;
                        id = row.message_id;
                        stored = e;
                        listed = is_recorded-insert_self row st.db.processed_messages;
                      }
