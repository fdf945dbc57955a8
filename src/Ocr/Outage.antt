-- ===== src/Ocr/Outage.antt =====
-- The OCR worker while the object store cannot be reached: `handle` of workers/ocr/app/worker.py gets
-- an exception from `download_object` and raises `TransientError` each time.
use digital_cip.Prelude.{◌≡◌, refl, ◌∙◌, ℕ, suc, pos, ℤ, false, String, some, none, [], ◌∷◌}
use digital_cip.Prelude.Text.{concat}
use digital_cip.Json.{Value, Fields, num, str, obj, get}
use digital_cip.Json.Laws.{get-set_ne}
use digital_cip.Error.{Foreign, foreign, transient, err, returned, raised, text_of}
use digital_cip.Tables.{Document, Db}
use digital_cip.Services.{Services}
use digital_cip.World.{State}
use digital_cip.Exec.Calm.{calm}
use digital_cip.Sql.Statements.{text_key, bigint_key, select_document, is_recorded}
use digital_cip.Sql.Laws.{select-update_found}
use digital_cip.Sql.Changes.{with_db, with_documents, with_event}
use digital_cip.Ocr.Config.{Config}
use digital_cip.Ocr.Db.Status.{with_status}
use digital_cip.Ocr.Db.Calm.{
  already_processed-calm, fetch_document-calm, update_document_status-calm, event_row,
  record_event-calm,
}
use digital_cip.Ocr.Extract.{external, download_object}
use digital_cip.Ocr.Handle.{
  get_of, is_terminal, process, rescue, work_on, handle_document, handle_message, handle,
}
use digital_cip.Ocr.Handle.Frame.{item-returned}
use digital_cip.Ocr.Handle.Success.{key_of, begun}
use digital_cip.Ocr.Consumer.{deliver}
use digital_cip.Broker.Retries.{Stubborn, again}

module _ (s : Services) (config : Config) (id : String) (document_id : Value) (k : ℤ)
    (payload : Fields) (f : Foreign) (keyed : bigint_key s document_id ≡ returned (some k)) where
  -- A message that names itself, its document and its payload.
  abbrev pub About : Fields → Type 0
  About envelope =
      (get "message_id" envelope ≡ some (str id))
      × (get "document_id" envelope ≡ some document_id)
      × (get "payload" envelope ≡ some (obj payload))

  -- The message is not recorded, and its document is there and has not come to an end.
  abbrev pub Blocked : Db → Type 0
  Blocked db =
      (is_recorded (some id) db.processed_messages ≡ false)
      × (row : Document) × (select_document (some k) db.documents ≡ some row)
      × (is_terminal row.status ≡ false)

  abbrev blocked_row : (db : Db) → Blocked db → Document
  blocked_row db h = h.1

  -- The status is `ocr_processing`, and two events are added.
  abbrev gave_up : Document → State → State
  gave_up d st =
      let st' = begun s config document_id k keyed d st in
      with_db
        (with_event (
          event_row s document_id k keyed st' "ocr" (some "ocr_processing") "ocr_processing"
            (some (concat ("transient: " ∷ text_of (foreign f) ∷ []))) none))
        st'

  module _ (down : (key : Value) → s.download_fileobj config.minio_bucket key ≡ raised f) where
    process-down :
        (envelope : Fields) (message_id object_key : Value) (d : Document) (st : State)
        → select_document (some k) st.db.documents ≡ some d
        → process s config envelope message_id document_id object_key d (calm st)
          ≡ (err (foreign f), calm (begun s config document_id k keyed d st))
    unfolding process download_object external
    process-down envelope message_id object_key d st found =
        let g = with_status "ocr_processing" none none none none st.clock in
        let st' : State = with_db (with_documents g (some k)) st in
        rw (
          update_document_status-calm s document_id k keyed st "ocr_processing" none none none none,
          record_event-calm s document_id k keyed st' "ocr" (some d.status) "ocr_processing"
              (some "OCR started") none (g d)
              (select-update_found g (λ x. refl) (some k) st.db.documents d found),
          down object_key,
        )

    work_on-down :
        (envelope : Fields) (message_id : Value) (d : Document) (st : State)
        → get "payload" envelope ≡ some (obj payload)
        → select_document (some k) st.db.documents ≡ some d
        → work_on s config envelope message_id document_id d (calm st)
          ≡ (err (transient (text_of (foreign f))), calm (gave_up d st))
    unfolding work_on get_of rescue
    work_on-down envelope message_id d st has_payload found =
        let g = with_status "ocr_processing" none none none none st.clock in
        rw (
          item-returned "payload" envelope (obj payload) has_payload,
          process-down envelope message_id (key_of payload d) d st found,
          record_event-calm s document_id k keyed (begun s config document_id k keyed d st) "ocr"
              (some "ocr_processing") "ocr_processing"
              (some (concat ("transient: " ∷ text_of (foreign f) ∷ []))) none (g d)
              (select-update_found g (λ x. refl) (some k) st.db.documents d found),
        )

    deliver-down :
        (envelope : Fields) (st : State)
        → About envelope
        → (blocked : Blocked st.db)
        → deliver s config envelope (calm st)
          ≡ (err (transient (text_of (foreign f))), calm (gave_up (blocked_row st.db blocked) st))
    unfolding deliver handle handle_message handle_document text_key
    deliver-down envelope st (names_itself, names_document, has_payload) (fresh, d, found, live) =
        rw (
          item-returned "message_id" envelope (str id) names_itself,
          item-returned "document_id" envelope document_id names_document,
          already_processed-calm (str id) (some id) st refl,
          fresh,
          fetch_document-calm s document_id k keyed st,
          found,
          live,
          work_on-down envelope (str id) d st has_payload found,
        )

    gave_up-Blocked :
        (st : State) (blocked : Blocked st.db) → Blocked (gave_up (blocked_row st.db blocked) st).db
    unfolding is_terminal
    gave_up-Blocked st (fresh, d, found, live) =
        let g = with_status "ocr_processing" none none none none st.clock in
        (fresh, g d, select-update_found g (λ x. refl) (some k) st.db.documents d found, refl)

    About-again : (envelope : Fields) (a : ℕ) → About envelope → About (again envelope a)
    About-again envelope a (names_itself, names_document, has_payload) =
        let v = num (pos (suc a)) in
        (
          get-set_ne "attempt" "message_id" v envelope refl ∙ names_itself,
          get-set_ne "attempt" "document_id" v envelope refl ∙ names_document,
          get-set_ne "attempt" "payload" v envelope refl ∙ has_payload,
        )

    -- While the object store cannot be reached, the OCR worker gives up each attempt at a message
    -- that is not recorded, and whose document has not come to an end.
    pub deliver-Stubborn : Stubborn (deliver s config) About Blocked
    deliver-Stubborn = record {
      reason = text_of (foreign f);
      after = λ envelope st about blocked. gave_up (blocked_row st.db blocked) st;
      fails = λ envelope st about blocked. deliver-down envelope st about blocked;
      quiet = λ envelope st about blocked. refl;
      still = λ envelope st about blocked. gave_up-Blocked st blocked;
      again_about = About-again;
    }
