-- ===== src/Embedder/Handle/Ending.antt =====
-- How a call of the embedder's `handle` ends, whichever of its calls fail.
use digital_cip.Prelude.{
  ◌≡◌, refl, sym, ◌∙◌, ap, ℤ, Bool, false, String, Option, none, some, ◌⊎◌, inl, inr, arith,
}
use digital_cip.Json.{Value, Fields, get}
use digital_cip.Error.{Error, permanent, transient, foreign, returned}
use digital_cip.Tables.{Document, Db}
use digital_cip.Services.{Services}
use digital_cip.World.{State, World}
use digital_cip.Exec.{Exec, pure, try, ◌>>=◌}
use digital_cip.Exec.Rules.{
  Meets, Post, Raises, Meets-bind, Meets-if, Meets-try, Meets-weaken, Meets-strengthen,
}
use digital_cip.Sql.Statements.{text_key, bigint_key, select_document, is_recorded}
use digital_cip.Ocr.Handle.{is_terminal}
use digital_cip.Ocr.Handle.Frame.{item-returned, returned-injective}
use digital_cip.Ocr.Handle.Idle.{IsSettled}
use digital_cip.Embedder.Config.{Config}
use digital_cip.Embedder.Db.{fetch_document}
use digital_cip.Embedder.Db.Rules.{already_processed-Meets, fetch_document-Meets}
use digital_cip.Embedder.Handle.{process, rescue, handle_document, handle_message, handle}
use digital_cip.Embedder.Handle.Progress.{IsLive, Embedded, Live}
use digital_cip.Embedder.Handle.Attempt.{OneEach, Stopped, process-Embedded, rescue-Stopped}

IsLive-of_going : (d : Document) → is_terminal d.status ≡ false → IsLive d
unfolding is_terminal
IsLive-of_going d h = ground arith

module _ (s : Services) (message_id : Value) (m : Option String) (key : Option ℤ) (old : Db) where
  -- What `handle` leaves, by how it ends, if it began with the tables `old`.
  abbrev pub Embeds : Unit {0} → State → Type 0
  Embeds _ st = (st.db ≡ old) × IsSettled m key old ⊎ Embedded key s message_id st.db

  abbrev pub Stops : Error → State → Type 0
  Stops (permanent x) st = (st.db ≡ old) × (select_document key old.documents ≡ none)
  Stops (transient x) st = Live key st
  Stops (foreign f) st = (st.db ≡ old) ⊎ Live key st

module _ (s : Services) (config : Config) (message_id document_id : Value) (m : Option String)
    (key : Option ℤ) (named : text_key message_id ≡ returned m)
    (keyed : bigint_key s document_id ≡ returned key) (one_each : OneEach s config) (old : Db) where
  abbrev EmbedsHere : Unit {0} → State → Type 0
  EmbedsHere = Embeds s message_id m key old

  abbrev StopsHere : Error → State → Type 0
  StopsHere = Stops s message_id m key old

  abbrev Same : State → Type 0
  Same st = st.db ≡ old

  abbrev Known : Bool → State → Type 0
  Known seen st = (st.db ≡ old) × (seen ≡ is_recorded m old.processed_messages)

  abbrev Found : Option Document → State → Type 0
  Found document st = (st.db ≡ old) × (select_document key old.documents ≡ document)

  Stops-of_Stopped :
      (e : Error) (st : State)
      → Stopped s config document_id key keyed one_each e st
      → StopsHere e st
  Stops-of_Stopped (permanent x) st h = absurd h
  Stops-of_Stopped (transient x) st h = h
  Stops-of_Stopped (foreign f) st h = inr h

  Stops-of_Same : (e : Error) (st : State) → Raises Same e st → StopsHere e st
  Stops-of_Same (permanent x) st h = absurd h
  Stops-of_Same (transient x) st h = absurd h
  Stops-of_Same (foreign f) st h = inl h

  untouched :
      {A : Type 0} {P : State → Type 0} {Q : A → State → Type 0} {m : Exec A}
      → Meets P m Q (Raises Same)
      → Meets P m Q StopsHere
  untouched = Meets-strengthen (λ a st h. h) Stops-of_Same

  try-Embeds :
      (envelope : Fields) (d : Document)
      → is_terminal d.status ≡ false
      → Meets
          (Found (some d))
          (try (process s config envelope message_id document_id d) (rescue s config document_id))
          EmbedsHere
          StopsHere
  try-Embeds envelope d going =
      Meets-weaken {P = Live key} {P' = Found (some d)}
        (λ st h. (
          record {
            row = d;
            found = ap (λ (db : Db). select_document key db.documents) h.0 ∙ h.1;
            holds = IsLive-of_going d going;
          },
          tt,
        ))
        (Meets-strengthen (λ a st h. inr h) Stops-of_Stopped
          (Meets-try
            (process-Embedded s config document_id key keyed one_each envelope message_id d)
            (rescue-Stopped s config document_id key keyed one_each)))

  document-Embeds :
      (envelope : Fields) (document : Option Document)
      → Meets
          (Found document)
          (handle_document s config envelope message_id document_id document)
          EmbedsHere
          StopsHere
  unfolding handle_document
  document-Embeds envelope none = record { at = λ w h. h }
  document-Embeds envelope (some d) =
      Meets-if (is_terminal d.status) (pure tt)
        (try (process s config envelope message_id document_id d) (rescue s config document_id))
        (λ ended. record { at = λ w h. inl (h.0, inr (d, h.1, ended)) }) (try-Embeds envelope d)

  message-Embeds :
      (envelope : Fields)
      → Meets Same (handle_message s config envelope message_id document_id) EmbedsHere StopsHere
  unfolding handle_message
  message-Embeds envelope =
      Meets-bind {R = Known}
        (untouched (
          already_processed-Meets (λ st h. h) Known message_id (λ st b h. h.0)
            λ st k h e. (
              h,
              rw (returned-injective (sym e ∙ named))
                  (ap (λ (db : Db). is_recorded m db.processed_messages) h),
            )))
        λ seen.
          Meets-if seen (pure tt)
            (fetch_document s document_id
              >>= handle_document s config envelope message_id document_id)
            (λ e. record { at = λ w h. inl (h.0, inl (sym h.1 ∙ e)) })
            λ e.
              Meets-bind {R = Found}
                (untouched (
                  fetch_document-Meets (λ st h. h.0) s Found document_id (λ st b h. h.0)
                    λ st k h e.
                      rw (returned-injective (sym e ∙ keyed))
                        (h.0, ap (λ (db : Db). select_document key db.documents) (sym h.0))))
                (document-Embeds envelope)

-- However the embedder's calls fare, if the model answers with one vector for each text: if `handle`
-- returns, either the message was recorded or its document at an end before, and the tables are
-- as they were, or the document's row has the status `embedded`, no chunk of it is without an
-- embedding, and the message's id is recorded as processed. If it raises `PermanentError`, the
-- document does not exist and the tables are as they were; if `TransientError`, the document is
-- there and not `failed`; if an exception of a library, one of these two holds.
pub embed-Ended :
    (s : Services) (config : Config) (envelope : Fields) (message_id document_id : Value)
    (m : Option String) (key : Option ℤ) (w : World)
    → get "message_id" envelope ≡ some message_id
    → get "document_id" envelope ≡ some document_id
    → text_key message_id ≡ returned m
    → bigint_key s document_id ≡ returned key
    → OneEach s config
    → Post
        (Embeds s message_id m key w.db)
        (Stops s message_id m key w.db)
        (handle s config envelope w)
unfolding handle
embed-Ended s config envelope message_id document_id m key w has_id has_document named keyed
      one_each =
    rw
      (
        item-returned "message_id" envelope message_id has_id,
        item-returned "document_id" envelope document_id has_document,
      )
      ((message-Embeds s config message_id document_id m key named keyed one_each w.db envelope).at
        w refl)
