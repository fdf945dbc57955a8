-- ===== src/Ocr/Handle/Attempt.antt =====
-- How the `try` of the OCR worker's `handle`, with its `except` clauses, ends, whichever of its
-- calls fail.
use mathlib.Core.Option
use digital_cip.Prelude.{◌≡◌, refl, sym, ◌∙◌, ap, ℕ, ℤ, true, false, String, Option, none, some}
use digital_cip.Json.{Value, Fields}
use digital_cip.Error.{Error, permanent, transient, foreign, returned}
use digital_cip.Tables.{Document, Db}
use digital_cip.Services.{Services}
use digital_cip.World.{State}
use digital_cip.Exec.{Exec, raise, ◌>>=◌}
use digital_cip.Exec.Rules.{
  Meets, Raises, Meets-bind, Meets-if, Meets-lift, Meets-raise, Meets-pure, Meets-strengthen,
}
use digital_cip.Sql.Statements.{bigint_key, text_column, select_document, is_recorded}
use digital_cip.Sql.Laws.{select-update_self, is_recorded-insert_self}
use digital_cip.Sql.Changes.{with_documents, with_processed}
use digital_cip.Ocr.Config.{Config}
use digital_cip.Ocr.Db.{update_document_status, record_event}
use digital_cip.Ocr.Db.Status.{with_status}
use digital_cip.Ocr.Db.Rules.{
  update_document_status-Meets, record_event-Meets, record_processed-Meets,
}
use digital_cip.Ocr.Extract.{extract_text}
use digital_cip.Ocr.Extract.Rules.{download_object-Reads, extract_text-Reads}
use digital_cip.Ocr.Handle.{utc_now, lacks_text, no_bytes, accept, complete, process, rescue}
use digital_cip.Ocr.Handle.Frame.{returned-injective}

-- The document is there, and its row satisfies `R`.
pub record Row (key : Option ℤ) (R : Document → Type 0) (db : Db) : Type 0 where
  pub row : Document
  pub found : select_document key db.documents ≡ some row
  pub holds : R row

abbrev pub IsCompleted : String → Document → Type 0
IsCompleted text d = (d.status ≡ "ocr_completed") × (d.raw_text ≡ some text)

abbrev pub IsFailed : String → Document → Type 0
IsFailed reason d = (d.status ≡ "failed") × (d.failure_reason ≡ some reason)

-- The work is recorded: the text, which is not blank, and the message's id.
pub record Recorded (s : Services) (message_id : Value) (key : Option ℤ) (db : Db) : Type 0 where
  pub text : String
  pub has_text : lacks_text text ≡ false
  pub completed : Row key (IsCompleted text) db
  pub id : String
  pub stored : text_column s message_id ≡ returned id
  pub listed : is_recorded (some id) db.processed_messages ≡ true

-- An UPDATE of the row that is there.
pub Row-update :
    (key : Option ℤ) (f : Document → Document) {R R' : Document → Type 0} (db : Db)
    → ((d : Document) → (f d).id ≡ d.id)
    → ((d : Document) → R d → R' (f d))
    → Row key R db
    → Row key R' (with_documents f key db)
Row-update key f db same_id change r = record {
  row = f r.row;
  found = select-update_self f same_id key db.documents ∙ ap (Option.map f) r.found;
  holds = change r.row r.holds;
}

module _ (s : Services) (config : Config) (document_id : Value) (key : Option ℤ)
    (keyed : bigint_key s document_id ≡ returned key) where
  abbrev pub Has : (Document → Type 0) → State → Type 0
  Has R st = Row key R st.db

  update-Has :
      {R R' : Document → Type 0} (I : State → Type 0) (status : String) (t r c f : Option String)
      → ((st : State) → Has R st → I st)
      → ((st : State) → Has R' st → I st)
      → ((now : ℕ) (d : Document) → R d → R' (with_status status t r c f now d))
      → Meets (Has R) (update_document_status s document_id status t r c f) (λ _. Has R') (Raises I)
  update-Has {R'} I status t r c f before after change =
      update_document_status-Meets before s (Has R') document_id status t r c f after λ st k h e.
        rw (returned-injective (sym e ∙ keyed))
          (Row-update key _ st.db (λ d. refl) (change st.clock) h)

  event-Has :
      {P : State → Type 0} (I : State → Type 0) (from : Option String) (to : String)
      (message : Option String) (payload : Option Fields) (actor : String)
      → ((st : State) → P st → I st)
      → ((st : State) (db : Db) → db.documents ≡ st.db.documents → P st → P (record st { db = db }))
      → Meets P (record_event s document_id "ocr" from to message payload actor) (λ _. P) (Raises I)
  event-Has {P} I from to message payload actor before same =
      record_event-Meets before s P document_id "ocr" from to message payload actor before
        λ st k row h e ids. same st _ refl h

  abbrev pub There : State → Type 0
  There = Has (λ _. Unit)

  -- What is left of the `try` when it raises: the row is there, and `TransientError` is not raised.
  abbrev pub Inside : Error → State → Type 0
  Inside (permanent m) st = There st
  Inside (transient m) st = ⊥
  Inside (foreign f) st = There st

  Inside-of_Raises : (e : Error) (st : State) → Raises There e st → Inside e st
  Inside-of_Raises (permanent m) st h = absurd h
  Inside-of_Raises (transient m) st h = h
  Inside-of_Raises (foreign f) st h = h

  inside :
      {A : Type 0} {P : State → Type 0} {Q : A → State → Type 0} {m : Exec A}
      → Meets P m Q (Raises There)
      → Meets P m Q Inside
  inside = Meets-strengthen (λ a st h. h) Inside-of_Raises

  abbrev pub Done : Value → State → Type 0
  Done message_id st = Recorded s message_id key st.db

  -- What the `try` returns is a request, never `None`.
  abbrev pub Requested : Value → Option Fields → State → Type 0
  Requested message_id none st = ⊥
  Requested message_id (some request) st = Done message_id st

  forget : {R : Document → Type 0} (st : State) → Has R st → There st
  forget st h = record { row = h.row; found = h.found; holds = tt }

  keep_row :
      {R : Document → Type 0} (st : State) (db : Db)
      → db.documents ≡ st.db.documents
      → Has R st
      → Has R (record st { db = db })
  keep_row st db same h = record {
    row = h.row;
    found = ap (select_document key) same ∙ h.found;
    holds = h.holds;
  }

  utc_now-There : {E : Error → State → Type 0} → Meets There (utc_now s) (λ _. There) E
  unfolding utc_now
  utc_now-There = record { at = λ w h. h }

  complete-Requested :
      (envelope : Fields) (message_id object_key : Value) (text : String) (meta : Fields)
      → lacks_text text ≡ false
      → Meets There
          (complete s config envelope message_id document_id object_key text meta)
          (Requested message_id)
          Inside
  unfolding complete
  complete-Requested envelope message_id object_key text meta has_text =
      Meets-bind {R = λ _. There} {E = Inside} utc_now-There λ now.
        Meets-bind {R = λ _. Has (IsCompleted text)}
          (inside (
            update-Has There "ocr_completed" (some text) none (some now) none (λ st h. h) forget
              (λ tick d h. (refl, refl))))
          λ _.
            Meets-bind {R = λ _. Has (IsCompleted text)}
              (inside (
                event-Has There (some "ocr_processing") "ocr_completed" _ _ "system" forget
                  keep_row))
              λ _.
                Meets-bind {R = λ _. Has (IsCompleted text)}
                  (inside (Meets-lift _ (λ st a e h. h) (λ st f e h. forget st h)))
                  λ idempotency_key.
                    Meets-bind {R = λ _. Done message_id}
                      (inside (
                        record_processed-Meets forget s (Done message_id) message_id idempotency_key
                          "ocr" document_id _ _ (λ st h. forget st h.completed)
                          λ st row h e. record {
                            text = text;
                            has_text = has_text;
                            completed = keep_row st (with_processed row st.db) refl h;
                            id = row.message_id;
                            stored = e;
                            listed = is_recorded-insert_self row st.db.processed_messages;
                          }))
                      λ _. Meets-pure _

  pub process-Requested :
      (envelope : Fields) (message_id object_key : Value) (document : Document)
      → Meets There
          (process s config envelope message_id document_id object_key document)
          (Requested message_id)
          Inside
  unfolding process
  process-Requested envelope message_id object_key document =
      Meets-bind {R = λ _. There}
        (inside
          (update-Has There "ocr_processing" none none none none forget forget (λ now d h. tt)))
        λ _.
          Meets-bind {R = λ _. There} (inside (event-Has There _ _ _ none "system" forget keep_row))
            λ _.
              Meets-bind {R = λ _. There} (inside (download_object-Reads s config object_key).meets)
                λ blob.
                  Meets-if (no_bytes blob) (raise (permanent "object body empty"))
                    (extract_text s config blob document.content_type
                      >>= accept s config envelope message_id document_id object_key)
                    (λ _. Meets-raise (permanent "object body empty"))
                    λ _.
                      Meets-bind {R = λ _. There}
                        (inside (extract_text-Reads s config blob document.content_type).meets)
                        λ found.
                          Meets-if (lacks_text found.0)
                            (raise (permanent "OCR produced empty text"))
                            (complete s config envelope message_id document_id object_key found.0
                              found.1)
                            (λ _. Meets-raise (permanent "OCR produced empty text"))
                            λ has_text.
                              complete-Requested envelope message_id object_key found.0 found.1
                                has_text

  -- How the `try` with its `except` clauses ends.
  abbrev pub Failed : Error → State → Type 0
  Failed (permanent m) st = Has (IsFailed m) st
  Failed (transient m) st = Unit
  Failed (foreign f) st = Unit

  pub failing :
      {A : Type 0} {P : State → Type 0} {Q : A → State → Type 0} {m : Exec A}
      → Meets P m Q (Raises (λ _. Unit))
      → Meets P m Q Failed
  failing = Meets-strengthen (λ a st h. h) widen
    where
      widen : (e : Error) (st : State) → Raises (λ _. Unit) e st → Failed e st
      widen (permanent m) st h = absurd h
      widen (transient m) st h = tt
      widen (foreign f) st h = tt

  pub rescue-Failed :
      {Q : Option Fields → State → Type 0} (e : Error)
      → Meets (Inside e) (rescue s config document_id e) Q Failed
  unfolding rescue
  rescue-Failed {Q} (permanent m) = Meets-bind {R = λ _. There} utc_now-There λ now.
      Meets-bind {R = λ _. Has (IsFailed m)}
        (failing (
          update-Has (λ _. Unit) "failed" none (some m) none (some now) (λ st h. tt) (λ st h. tt)
            (λ tick d h. (refl, refl))))
        λ _.
          Meets-bind {R = λ _. Has (IsFailed m)}
            (failing (event-Has (λ _. Unit) _ _ _ none "system" (λ st h. tt) keep_row))
            λ _. Meets-raise _
  rescue-Failed {Q} (transient m) = record { at = λ w h. absurd h }
  rescue-Failed {Q} (foreign f) =
      Meets-bind {R = λ _. There}
        (failing (event-Has (λ _. Unit) _ _ _ none "system" (λ st h. tt) keep_row))
        λ _. record { at = λ w h. tt }
