-- ===== src/Ocr/Handle/Ending.antt =====
-- How a call of the OCR worker's `handle` ends, whichever of its calls fail.
use digital_cip.Prelude.{◌≡◌, refl, sym, ◌∙◌, ap, ℤ, Option, none, some, ◌⊎◌, inl, inr}
use digital_cip.Json.{Value, Fields, get, str}
use digital_cip.Error.{Error, permanent, transient, foreign, returned}
use digital_cip.Tables.{Document, Db}
use digital_cip.Services.{Services}
use digital_cip.World.{State, World}
use digital_cip.Exec.{Exec, pure, ◌>>=◌}
use digital_cip.Exec.Rules.{
  Meets, Post, Raises, Meets-bind, Meets-if, Meets-lift, Meets-try, Meets-pure, Meets-weaken,
  Meets-strengthen,
}
use digital_cip.Sql.Statements.{bigint_key, select_document}
use digital_cip.Ocr.Config.{Config}
use digital_cip.Ocr.Db.{fetch_document}
use digital_cip.Ocr.Db.Rules.{already_processed-Meets, fetch_document-Meets}
use digital_cip.Ocr.Handle.{
  item, get_of, or_else, is_terminal, work_on, handle_document, handle_message, handle,
}
use digital_cip.Ocr.Handle.Attempt.{
  Recorded, Row, IsFailed, There, Requested, Failed, process-Requested, rescue-Failed,
}
use digital_cip.Ocr.Handle.Frame.{item-returned, returned-injective}

module _ (s : Services) (config : Config) (document_id : Value) (key : Option ℤ)
    (keyed : bigint_key s document_id ≡ returned key) where
  -- What `handle` leaves, by how it ends, if it began with the tables `old`.
  abbrev pub Ended : Db → Value → Option Fields → State → Type 0
  Ended old message_id none st = st.db ≡ old
  Ended old message_id (some request) st = Recorded s message_id key st.db

  abbrev pub Broken : Db → Error → State → Type 0
  Broken old (permanent m) st =
      (st.db ≡ old) × (select_document key old.documents ≡ none) ⊎ Row key (IsFailed m) st.db
  Broken old (transient m) st = Unit
  Broken old (foreign f) st = Unit

  Ended-of_Requested :
      (old : Db) (message_id : Value) (r : Option Fields) (st : State)
      → Requested s config document_id key keyed message_id r st
      → Ended old message_id r st
  Ended-of_Requested old message_id none st h = absurd h
  Ended-of_Requested old message_id (some r) st h = h

  Broken-of_Failed :
      (old : Db) (e : Error) (st : State)
      → Failed s config document_id key keyed e st
      → Broken old e st
  Broken-of_Failed old (permanent m) st h = inr h
  Broken-of_Failed old (transient m) st h = tt
  Broken-of_Failed old (foreign f) st h = tt

  abbrev Begun : Db → Option Document → State → Type 0
  Begun old document st = (st.db ≡ old) × (select_document key old.documents ≡ document)

  work_on-Ended :
      (old : Db) (envelope : Fields) (message_id : Value) (d : Document)
      → Meets
          (Begun old (some d))
          (work_on s config envelope message_id document_id d)
          (Ended old message_id)
          (Broken old)
  unfolding work_on
  work_on-Ended old envelope message_id d =
      Meets-bind {R = λ _. Begun old (some d)}
        (Meets-lift (item "payload" envelope) (λ st a e h. h) (λ st f e h. tt))
        λ payload.
          Meets-bind {R = λ _. Begun old (some d)}
            (Meets-lift (get_of "object_key" payload) (λ st a e h. h) (λ st f e h. tt))
            λ asked.
              Meets-weaken {P = There s config document_id key keyed} {P' = Begun old (some d)}
                (λ st h. record {
                  row = d;
                  found = ap (λ db. select_document key db.documents) h.0 ∙ h.1;
                  holds = tt;
                })
                (Meets-strengthen (Ended-of_Requested old message_id) (Broken-of_Failed old) (
                  Meets-try
                    (process-Requested s config document_id key keyed envelope message_id
                      (or_else asked (str d.object_key)) d)
                    (rescue-Failed s config document_id key keyed)))

  handle_document-Ended :
      (old : Db) (envelope : Fields) (message_id : Value) (document : Option Document)
      → Meets
          (Begun old document)
          (handle_document s config envelope message_id document_id document)
          (Ended old message_id)
          (Broken old)
  unfolding handle_document
  handle_document-Ended old envelope message_id none = record { at = λ w h. inl h }
  handle_document-Ended old envelope message_id (some d) =
      Meets-if (is_terminal d.status) (pure none)
        (work_on s config envelope message_id document_id d)
        (λ _. Meets-weaken (λ st h. h.0) (Meets-pure none))
        (λ _. work_on-Ended old envelope message_id d)

  untouched :
      {A : Type 0} {old : Db} {P : State → Type 0} {Q : A → State → Type 0} {m : Exec A}
      → Meets P m Q (Raises (λ st. st.db ≡ old))
      → Meets P m Q (Broken old)
  untouched {old} = Meets-strengthen (λ a st h. h) widen
    where
      widen : (e : Error) (st : State) → Raises (λ st. st.db ≡ old) e st → Broken old e st
      widen (permanent m) st h = absurd h
      widen (transient m) st h = tt
      widen (foreign f) st h = tt

  handle_message-Ended :
      (old : Db) (envelope : Fields) (message_id : Value)
      → Meets
          (λ st. st.db ≡ old)
          (handle_message s config envelope message_id document_id)
          (Ended old message_id)
          (Broken old)
  unfolding handle_message
  handle_message-Ended old envelope message_id =
      Meets-bind {R = λ _ st. st.db ≡ old}
        (untouched (
          already_processed-Meets (λ st h. h) (λ _ st. st.db ≡ old) message_id (λ st b h. h)
            (λ st m h e. h)))
        λ seen.
          Meets-if seen (pure none)
            (fetch_document s document_id
              >>= handle_document s config envelope message_id document_id)
            (λ _. Meets-pure none)
            λ fresh.
              Meets-bind {R = λ document. Begun old document}
                (untouched (
                  fetch_document-Meets (λ st h. h) s (λ document. Begun old document) document_id
                    (λ st b h. h.0)
                    λ st k h e.
                      rw (returned-injective (sym e ∙ keyed))
                        (h, ap (λ (db : Db). select_document key db.documents) (sym h))))
                λ document. handle_document-Ended old envelope message_id document

  handle-Ended_from :
      (old : Db) (envelope : Fields) (message_id : Value)
      → get "message_id" envelope ≡ some message_id
      → get "document_id" envelope ≡ some document_id
      → Meets (λ st. st.db ≡ old) (handle s config envelope) (Ended old message_id) (Broken old)
  unfolding handle
  handle-Ended_from old envelope message_id has_id has_document = record {
    at = λ w p.
        rw
          (
            item-returned "message_id" envelope message_id has_id,
            item-returned "document_id" envelope document_id has_document,
          )
          ((handle_message-Ended old envelope message_id).at w p);
  }

-- However its calls fare: if `handle` asks for the next message, the document's row has the status
-- `ocr_completed` and a text that is not blank, and the message's id is recorded as processed; if
-- it returns `None`, the tables are as they were; and if it raises `PermanentError`, either the
-- document does not exist and the tables are as they were, or its row has the status `failed` with
-- the exception's text as the reason.
pub handle-Ended :
    (s : Services) (config : Config) (envelope : Fields) (message_id document_id : Value)
    (key : Option ℤ) (w : World)
    → get "message_id" envelope ≡ some message_id
    → get "document_id" envelope ≡ some document_id
    → (keyed : bigint_key s document_id ≡ returned key)
    → Post
        (Ended s config document_id key keyed w.db message_id)
        (Broken s config document_id key keyed w.db)
        (handle s config envelope w)
handle-Ended s config envelope message_id document_id key w has_id has_document keyed =
    (handle-Ended_from s config document_id key keyed w.db envelope message_id has_id
        has_document).at
      w refl
