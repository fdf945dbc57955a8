-- ===== src/Ocr/Handle/Idle.antt =====
-- The messages that `handle` lets pass.
use digital_cip.Prelude.{
  ◌≡◌, refl, sym, ◌∙◌, ap, ℤ, Bool, true, false, String, Option, none, some, ◌⊎◌, inl, inr,
}
use mathlib.Core.Bool.{false≢true}
use mathlib.Core.Option.{some-injective}
use digital_cip.Json.{Value, Fields, get}
use digital_cip.Error.{returned}
use digital_cip.Tables.{Document, Db}
use digital_cip.Services.{Services}
use digital_cip.World.{State, World}
use digital_cip.Exec.{pure, ◌>>=◌}
use digital_cip.Exec.Rules.{Meets, Post, Raises, Meets-bind, Meets-if, Meets-weaken}
use digital_cip.Sql.Statements.{text_key, bigint_key, select_document, is_recorded}
use digital_cip.Ocr.Config.{Config}
use digital_cip.Ocr.Db.{fetch_document}
use digital_cip.Ocr.Db.Rules.{already_processed-Meets, fetch_document-Meets}
use digital_cip.Ocr.Handle.{is_terminal, handle_document, handle_message, handle}
use digital_cip.Ocr.Handle.Frame.{item-returned, returned-injective}

-- The message is recorded, or its document is `embedded` or `failed`.
abbrev pub IsSettled : Option String → Option ℤ → Db → Type 0
IsSettled m key db =
    (is_recorded m db.processed_messages ≡ true)
    ⊎ ((d : Document) × (select_document key db.documents ≡ some d) × (is_terminal d.status ≡ true))

module _ (s : Services) (config : Config) (message_id document_id : Value) (m : Option String)
    (key : Option ℤ) (named : text_key message_id ≡ returned m)
    (keyed : bigint_key s document_id ≡ returned key) (old : Db) where
  abbrev Same : State → Type 0
  Same st = st.db ≡ old

  abbrev Passed : Option Fields → State → Type 0
  Passed r st = (r ≡ none) × (st.db ≡ old)

  abbrev Known : Bool → State → Type 0
  Known seen st = (st.db ≡ old) × (seen ≡ is_recorded m old.processed_messages)

  abbrev Found : Option Document → State → Type 0
  Found document st = (st.db ≡ old) × (document ≡ select_document key old.documents)

  document-Passed :
      (envelope : Fields) (d : Document)
      → select_document key old.documents ≡ some d
      → is_terminal d.status ≡ true
      → (document : Option Document)
      → Meets
          (Found document)
          (handle_document s config envelope message_id document_id document)
          Passed
          (Raises Same)
  unfolding handle_document
  document-Passed envelope d found ended none = record { at = λ w p. cc (p.1 ∙ found) }
  document-Passed envelope d found ended (some d') = record {
    at = λ w p.
        rw (ap (λ (x : Document). is_terminal x.status) (some-injective d' d (p.1 ∙ found)) ∙ ended)
          (refl, p.0);
  }

  fetch-Found : Meets Same (fetch_document s document_id) Found (Raises Same)
  fetch-Found =
      fetch_document-Meets (λ st h. h) s Found document_id (λ st b h. h.0)
        λ st k h e. (
          h,
          rw (returned-injective (sym e ∙ keyed))
              (ap (λ (db : Db). select_document key db.documents) h),
        )

  fresh-Passed :
      (envelope : Fields) (seen : Bool)
      → IsSettled m key old
      → seen ≡ false
      → Meets
          (Known seen)
          (fetch_document s document_id
            >>= handle_document s config envelope message_id document_id)
          Passed
          (Raises Same)
  fresh-Passed envelope seen (inl recorded) e = record {
    at = λ w p. absurd (false≢true (sym e ∙ p.1 ∙ recorded));
  }
  fresh-Passed envelope seen (inr (d, found, ended)) e =
      Meets-bind (Meets-weaken (λ st h. h.0) fetch-Found) (document-Passed envelope d found ended)

  message-Passed :
      (envelope : Fields)
      → IsSettled m key old
      → Meets Same (handle_message s config envelope message_id document_id) Passed (Raises Same)
  unfolding handle_message
  message-Passed envelope settled =
      Meets-bind {R = Known}
        (already_processed-Meets (λ st h. h) Known message_id (λ st b h. h.0)
          λ st k h e. (
            h,
            rw (returned-injective (sym e ∙ named))
                (ap (λ (db : Db). is_recorded m db.processed_messages) h),
          ))
        λ seen.
          Meets-if seen (pure none)
            (fetch_document s document_id
              >>= handle_document s config envelope message_id document_id)
            (λ e. record { at = λ w p. (refl, p.0) }) (fresh-Passed envelope seen settled)

-- A redelivered message that is recorded as processed, and any message about a document that is
-- `embedded` or `failed`, changes no table, whichever calls fail: `handle` returns `None`, or an
-- exception of the database comes through, which is neither `PermanentError` nor `TransientError`.
pub handle-settled :
    (s : Services) (config : Config) (envelope : Fields) (message_id document_id : Value)
    (m : Option String) (key : Option ℤ) (w : World)
    → get "message_id" envelope ≡ some message_id
    → get "document_id" envelope ≡ some document_id
    → text_key message_id ≡ returned m
    → bigint_key s document_id ≡ returned key
    → IsSettled m key w.db
    → Post
        (λ r st. (r ≡ none) × (st.db ≡ w.db))
        (Raises (λ st. st.db ≡ w.db))
        (handle s config envelope w)
unfolding handle
handle-settled s config envelope message_id document_id m key w has_id has_document named keyed
      settled =
    rw
      (
        item-returned "message_id" envelope message_id has_id,
        item-returned "document_id" envelope document_id has_document,
      )
      ((message-Passed s config message_id document_id m key named keyed w.db envelope settled).at w
        refl)
