-- ===== src/Embedder/Handle/Success.antt =====
-- The embedder's `handle` where every call works and the document is there.
use digital_cip.Prelude.{◌≡◌, refl, sym, ap, ◌∙◌, ℤ, false, inl, inr, String, some}
use mathlib.Core.Bool.{false≢true}
use mathlib.Core.Option.{some-injective}
use mathlib.Core.Path.{subst}
use digital_cip.Json.{Value, Fields, str, get}
use digital_cip.Error.{Result, ok, returned}
use digital_cip.Tables.{Document}
use digital_cip.Services.{Services}
use digital_cip.World.{State, World}
use digital_cip.Exec.{try}
use digital_cip.Exec.Calm.{calm}
use digital_cip.Exec.Rules.{Post}
use digital_cip.Exec.Works.{Done, Works-try}
use digital_cip.Sql.Transaction.{transaction-calm}
use digital_cip.Sql.Statements.{text_key, bigint_key, select_document, is_recorded}
use digital_cip.Ocr.Handle.{is_terminal}
use digital_cip.Ocr.Handle.Frame.{item-returned}
use digital_cip.Ocr.Handle.Attempt.{Row}
use digital_cip.Ocr.Handle.Idle.{IsSettled}
use digital_cip.Embedder.Config.{Config}
use digital_cip.Embedder.Connection.{connection}
use digital_cip.Embedder.Db.{already_processed, fetch_document}
use digital_cip.Embedder.Handle.{process, rescue, handle_document, handle_message, handle}
use digital_cip.Embedder.Handle.Progress.{Embedded}
use digital_cip.Embedder.Handle.Attempt.{OneEach}
use digital_cip.Embedder.Handle.Ending.{Embeds, Stops, embed-Ended}
use digital_cip.Embedder.Handle.Completion.{Able, connection-calm, process-Works}

-- What `handle` finds when it gets to work: a message that names itself and its document and was not
-- recorded, and a document that has not come to an end.
pub record Ready (s : Services) (envelope : Fields) (st : State) : Type 0 where
  pub id : String
  pub document_id : Value
  pub key : String
  pub row_id : ℤ
  pub row : Document
  pub names_itself : get "message_id" envelope ≡ some (str id)
  pub names_document : get "document_id" envelope ≡ some document_id
  pub has_key : get "idempotency_key" envelope ≡ some (str key)
  pub keyed : bigint_key s document_id ≡ returned (some row_id)
  pub fresh : is_recorded (some id) st.db.processed_messages ≡ false
  pub found : select_document (some row_id) st.db.documents ≡ some row
  pub live : is_terminal row.status ≡ false

seen-calm :
    (id : String) (st : State)
    → already_processed (str id) (calm st)
      ≡ (ok (is_recorded (some id) st.db.processed_messages), calm st)
unfolding already_processed text_key
seen-calm id st = transaction-calm connection _ st _ st.db (connection-calm st) refl

fetch-calm :
    (s : Services) (document_id : Value) (k : ℤ) (st : State)
    → bigint_key s document_id ≡ returned (some k)
    → fetch_document s document_id (calm st)
      ≡ (ok (select_document (some k) st.db.documents), calm st)
unfolding fetch_document
fetch-calm s document_id k st keyed =
    transaction-calm connection _ st _ st.db (connection-calm st) (rw keyed refl)

module _ (s : Services) (config : Config) (envelope : Fields) (st : State)
    (r : Ready s envelope st) where
  handle-try :
      handle s config envelope (calm st)
      ≡ try
          (process s config envelope (str r.id) r.document_id r.row)
          (rescue s config r.document_id)
          (calm st)
  unfolding handle handle_message handle_document
  handle-try = rw (
    item-returned "message_id" envelope (str r.id) r.names_itself,
    item-returned "document_id" envelope r.document_id r.names_document,
    seen-calm r.id st,
    r.fresh,
    fetch-calm s r.document_id r.row_id st r.keyed,
    r.found,
    r.live,
  )

  unsettled : IsSettled (some r.id) (some r.row_id) st.db → ⊥
  unsettled (inl recorded) = false≢true (sym r.fresh ∙ recorded)
  unsettled (inr (d, found, ended)) = false≢true (
      sym r.live
      ∙ ap (λ (x : Document). is_terminal x.status) (some-injective r.row d (sym r.found ∙ found))
      ∙ ended)

  abbrev Finished : Result (Unit {0}) × World → Type 0
  Finished done = (done.0 ≡ ok tt) × Embedded (some r.row_id) s (str r.id) done.1.db

  finished :
      (done : Result (Unit {0}) × World)
      → Done (λ x. Row (some r.row_id) (λ d. Unit) x.db) done
      → Post
          (Embeds s (str r.id) (some r.id) (some r.row_id) st.db)
          (Stops s (str r.id) (some r.id) (some r.row_id) st.db)
          done
      → Finished done
  finished done d h = subst Finished (sym d.answer) (
    refl,
    after d.state (
        subst
          (Post (Embeds s (str r.id) (some r.id) (some r.row_id) st.db)
            (Stops s (str r.id) (some r.id) (some r.row_id) st.db))
          d.answer h),
  )
    where
      after :
          (st' : State)
          → Embeds s (str r.id) (some r.id) (some r.row_id) st.db tt st'
          → Embedded (some r.row_id) s (str r.id) st'.db
      after st' (inl h) = absurd (unsettled h.1)
      after st' (inr h) = h

-- Where every call works, the model can be loaded and answers with one vector for each text, and the
-- message and its document are `Ready`, the embedder's `handle` returns, and then the document's
-- row has the status `embedded`, no chunk of it is without an embedding, and the message's id is
-- recorded as processed.
pub embed-Ready :
    (s : Services) (config : Config) (envelope : Fields) (st : State)
    → Able s config
    → OneEach s config
    → (r : Ready s envelope st)
    → let done = handle s config envelope (calm st) in
      (done.0 ≡ ok tt) × Embedded (some r.row_id) s (str r.id) done.1.db
unfolding text_key
embed-Ready s config envelope st able one_each r =
    finished s config envelope st r (handle s config envelope (calm st))
      (rw (handle-try s config envelope st r) (
        (Works-try _ _ (
            process-Works s config able r.document_id r.row_id r.keyed envelope r.id r.key r.has_key
              r.row)).at
          st (record { row = r.row; found = r.found; holds = tt })))
      (embed-Ended s config envelope (str r.id) r.document_id (some r.id) (some r.row_id) (calm st)
        r.names_itself r.names_document refl r.keyed one_each)
