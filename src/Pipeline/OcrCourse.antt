-- ===== src/Pipeline/OcrCourse.antt =====
-- What the OCR worker's work on one document makes of a document's status, whichever of its calls
-- fail.
use digital_cip.Prelude.{◌≡◌, refl, sym, ◌∙◌, ℤ, false, String, Option, none, some}
use digital_cip.Json.{Value, Fields, str}
use digital_cip.Error.{Error, permanent, transient, foreign, returned}
use digital_cip.Tables.{Document}
use digital_cip.Services.{Services}
use digital_cip.World.{State}
use digital_cip.Exec.{Exec, raise, ◌>>=◌}
use digital_cip.Exec.Rules.{
  Meets, Raises, Meets-bind, Meets-if, Meets-lift, Meets-try, Meets-raise, Meets-pure,
  Meets-strengthen,
}
use digital_cip.Exec.Keeps.{Raises-keeps}
use digital_cip.Sql.Statements.{bigint_key}
use digital_cip.Ocr.Config.{Config}
use digital_cip.Ocr.Db.{update_document_status, record_event}
use digital_cip.Ocr.Db.Rules.{
  update_document_status-Meets, record_event-Meets, record_processed-Meets,
}
use digital_cip.Ocr.Extract.{extract_text}
use digital_cip.Ocr.Extract.Rules.{download_object-Reads, extract_text-Reads}
use digital_cip.Ocr.Handle.{
  item, get_of, or_else, is_terminal, no_bytes, lacks_text, utc_now, complete, accept, process,
  rescue, work_on,
}
use digital_cip.Ocr.Handle.Frame.{returned-injective}
use digital_cip.Broker.Stages.{Stage}
use digital_cip.Pipeline.{Moves, starts_ocr, completes_ocr, fails_ocr}
use digital_cip.Pipeline.Track.{Track, On, Track-same, On-same, On-update}

module _ (s : Services) (config : Config) (j : ℤ) (a : String) where
  abbrev pub Kept : State → Type 0
  Kept = Track Stage.ocr j a

  abbrev pub KeptBy : Error → State → Type 0
  KeptBy _ = Kept

  module _ (document_id : Value) (key : Option ℤ)
      (keyed : bigint_key s document_id ≡ returned key) where
    abbrev pub At : String → State → Type 0
    At = On Stage.ocr j a key

    update-On :
        (b status : String) (t r c f : Option String)
        → Moves Stage.ocr b status
        → Meets
            (At b)
            (update_document_status s document_id status t r c f)
            (λ _. At status)
            (Raises Kept)
    update-On b status t r c f move =
        update_document_status-Meets (λ st h. h.0) s (At status) document_id status t r c f
          (λ st h. h.0)
          λ st k h e.
            rw (returned-injective (sym e ∙ keyed))
              (On-update Stage.ocr j a key _ (λ d. refl) b status (λ d. refl) move st h)

    event-On :
        (b : String) (from : Option String) (to : String) (message : Option String)
        (payload : Option Fields)
        → Meets
            (At b)
            (record_event s document_id "ocr" from to message payload "system")
            (λ _. At b)
            (Raises Kept)
    event-On b from to message payload =
        record_event-Meets (λ st h. h.0) s (At b) document_id "ocr" from to message payload "system"
          (λ st h. h.0) λ st k row h e same. On-same Stage.ocr j a key b st _ refl h

    -- What holds when the `try` raises: the worker's own exception comes before the text is stored.
    abbrev Inside : Error → State → Type 0
    Inside (permanent m) st = At "ocr_processing" st
    Inside (transient m) st = ⊥
    Inside (foreign f) st = Kept st

    inside :
        {A : Type 0} {P : State → Type 0} {Q : A → State → Type 0} {m : Exec A}
        → Meets P m Q (Raises Kept)
        → Meets P m Q Inside
    inside = Meets-strengthen (λ x st h. h) widen
      where
        widen : (e : Error) (st : State) → Raises Kept e st → Inside e st
        widen (permanent m) st h = absurd h
        widen (transient m) st h = h
        widen (foreign f) st h = h

    outside :
        {A : Type 0} {P : State → Type 0} {Q : A → State → Type 0} {m : Exec A}
        → Meets P m Q (Raises Kept)
        → Meets P m Q KeptBy
    outside = Meets-strengthen (λ x st h. h) (Raises-keeps Kept)

    now-On : (b : String) {E : Error → State → Type 0} → Meets (At b) (utc_now s) (λ _. At b) E
    unfolding utc_now
    now-On b = record { at = λ w h. On-same Stage.ocr j a key b w.state _ refl h }

    complete-Kept :
        (envelope : Fields) (message_id object_key : Value) (text : String) (meta : Fields)
        → Meets
            (At "ocr_processing")
            (complete s config envelope message_id document_id object_key text meta)
            (λ _. Kept)
            Inside
    unfolding complete
    complete-Kept envelope message_id object_key text meta =
        Meets-bind (now-On "ocr_processing") λ now.
          Meets-bind {R = λ _. At "ocr_completed"}
            (inside (
              update-On "ocr_processing" "ocr_completed" (some text) none (some now) none
                completes_ocr))
            λ _.
              Meets-bind {R = λ _. At "ocr_completed"} (inside (event-On "ocr_completed" _ _ _ _))
                λ _.
                  Meets-bind {R = λ _. Kept}
                    (inside (Meets-lift _ (λ st x e h. h.0) (λ st f e h. h.0)))
                    λ idempotency_key.
                      Meets-bind {R = λ _. Kept}
                        (inside (
                          record_processed-Meets (λ st h. h) s Kept message_id idempotency_key "ocr"
                            document_id _ _ (λ st h. h)
                            λ st row h e. Track-same Stage.ocr j a key st _ refl h))
                        λ _. Meets-pure _

    process-Kept :
        (envelope : Fields) (message_id object_key : Value) (document : Document)
        → is_terminal document.status ≡ false
        → Meets
            (At document.status)
            (process s config envelope message_id document_id object_key document)
            (λ _. Kept)
            Inside
    unfolding process
    process-Kept envelope message_id object_key document going =
        Meets-bind {R = λ _. At "ocr_processing"}
          (inside
            (update-On document.status "ocr_processing" none none none none (starts_ocr going)))
          λ _.
            Meets-bind {R = λ _. At "ocr_processing"}
              (inside (event-On "ocr_processing" _ _ _ none))
              λ _.
                Meets-bind {R = λ _. At "ocr_processing"}
                  (reading (download_object-Reads s config object_key).meets)
                  λ blob.
                    Meets-if (no_bytes blob) (raise (permanent "object body empty"))
                      (extract_text s config blob document.content_type
                        >>= accept s config envelope message_id document_id object_key)
                      (λ _. Meets-raise (permanent "object body empty"))
                      λ _.
                        Meets-bind {R = λ _. At "ocr_processing"}
                          (reading (extract_text-Reads s config blob document.content_type).meets)
                          λ found.
                            Meets-if (lacks_text found.0)
                              (raise (permanent "OCR produced empty text"))
                              (complete s config envelope message_id document_id object_key found.0
                                found.1)
                              (λ _. Meets-raise (permanent "OCR produced empty text"))
                              λ _. complete-Kept envelope message_id object_key found.0 found.1
      where
        reading :
            {A : Type 0} {m : Exec A}
            → Meets
                (At "ocr_processing")
                m
                (λ _. At "ocr_processing")
                (Raises (At "ocr_processing"))
            → Meets (At "ocr_processing") m (λ _. At "ocr_processing") Inside
        reading = Meets-strengthen (λ x st h. h) widen
          where
            widen : (e : Error) (st : State) → Raises (At "ocr_processing") e st → Inside e st
            widen (permanent m) st h = absurd h
            widen (transient m) st h = h
            widen (foreign f) st h = h.0

    rescue-Kept : (e : Error) → Meets (Inside e) (rescue s config document_id e) (λ _. Kept) KeptBy
    unfolding rescue
    rescue-Kept (permanent m) = Meets-bind (now-On "ocr_processing") λ now.
        Meets-bind {R = λ _. At "failed"}
          (outside (update-On "ocr_processing" "failed" none (some m) none (some now) fails_ocr))
          λ _.
            Meets-bind {R = λ _. At "failed"} (outside (event-On "failed" _ _ _ none))
              λ _. record { at = λ w h. h.0 }
    rescue-Kept (transient m) = record { at = λ w h. absurd h }
    rescue-Kept (foreign f) =
        Meets-bind {R = λ _. Kept}
          (outside (
            record_event-Meets (λ st h. h) s Kept document_id "ocr" _ _ _ none "system" (λ st h. h)
              λ st k row h e same. Track-same Stage.ocr j a key st _ refl h))
          λ _. record { at = λ w h. h }

    pub work_on-Kept :
        (envelope : Fields) (message_id : Value) (d : Document)
        → is_terminal d.status ≡ false
        → Meets
            (At d.status)
            (work_on s config envelope message_id document_id d)
            (λ _. Kept)
            KeptBy
    unfolding work_on
    work_on-Kept envelope message_id d going =
        Meets-bind {R = λ _. At d.status}
          (Meets-lift (item "payload" envelope) (λ st x e h. h) (λ st f e h. h.0))
          λ payload.
            Meets-bind {R = λ _. At d.status}
              (Meets-lift (get_of "object_key" payload) (λ st x e h. h) (λ st f e h. h.0))
              λ asked.
                Meets-try
                  (process-Kept envelope message_id (or_else asked (str d.object_key)) d going)
                  rescue-Kept
