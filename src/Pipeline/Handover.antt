-- ===== src/Pipeline/Handover.antt =====
-- The OCR worker hands a document over to the chunker: the message that its `deliver` publishes, and
-- the chunker's `process` of it, where every call works.
use Prim.Native.String.{count}
use text.Mathlib.TextLemmas.{length-append}
use digital_cip.Prelude.{
  ◌≡◌, refl, ap, ◌+◌, suc, pos, eq_ℤ, String, false, none, some, List, [], ◌∷◌, ◌==◌, inl, inr,
  Bool-cases, eq_iff, arith,
}
use digital_cip.Prelude.Text.{concat}
use digital_cip.Json.{Fields, no_fields, field, num, str, obj}
use digital_cip.Tables.{Document, ProcessedMessage}
use digital_cip.Services.{Services}
use digital_cip.World.{State, Publication}
use digital_cip.Sql.Statements.{select_document, update_where, is_recorded, insert_processed}
use digital_cip.Sql.Laws.{select-update_found, is_recorded-append}
use digital_cip.Consumer.Effects.{on_channel, published_also}
use digital_cip.Ocr.Config.{Config}
use digital_cip.Ocr.Db.Status.{with_status}
use digital_cip.Ocr.Handle.{is_terminal}
use digital_cip.Ocr.Handle.Success as Ocr
use digital_cip.Ocr.Handle.Success.{Ready, key_of}
use digital_cip.Chunker.Envelope.{Envelope}
use digital_cip.Chunker.Config as ChunkerConfig
use digital_cip.Chunker.Success as Chunker
use digital_cip.Ocr.Consumer.{next_key, next_message}

-- `envelope['message_id'] + ':chunk'`
unfoldable pub chunk_id : String → String
chunk_id id = concat (id ∷ ":chunk" ∷ [])

count-chunk_id : (id : String) → count (chunk_id id) ≡ count id + 6
unfolding chunk_id concat
count-chunk_id id = length-append id ":chunk"

-- The chunker's message has another id than the OCR worker's.
chunk_id-ne : (id : String) → (id == chunk_id id) ≡ false
chunk_id-ne id = elim (Bool-cases (id == chunk_id id)) [
  | inl e ↦ absurd (omega (arith, ap count ((eq_iff id (chunk_id id)).0 e), count-chunk_id id))
  | inr e ↦ e
]

unrecorded :
    (m : String) (row : ProcessedMessage) (rows : List ProcessedMessage)
    → is_recorded (some row.message_id) rows ≡ false
    → is_recorded (some m) rows ≡ false
    → (row.message_id == m) ≡ false
    → is_recorded (some m) (insert_processed row rows) ≡ false
unfolding insert_processed
unrecorded m row rows new free ne = rw new (rw (is_recorded-append, free) ne)

module _ (s : Services) (config : Config) (envelope : Fields) (st : State)
    (r : Ready s config envelope st) where
  -- the state after `handle`
  abbrev pub read : State
  read = Ocr.listed s config r.document_id r.row_id r.keyed r.id r.key r.text r.pages (
      Ocr.finished s config r.document_id r.row_id r.keyed r.text r.pages
        (Ocr.begun s config r.document_id r.row_id r.keyed r.row st))

  abbrev pub handed_over : Publication
  handed_over =
      next_message s envelope (str (chunk_id r.id)) r.document_id (s.isoformat read.clock)
        (obj (field "object_key" (key_of r.payload r.row) no_fields))

  abbrev pub sent : State
  sent = on_channel (published_also handed_over) (record read { clock = suc read.clock })

  completed : Document
  completed =
      with_status "ocr_completed" (some r.text) none (some (s.isoformat st.clock)) none
        (suc st.clock) (with_status "ocr_processing" none none none none st.clock r.row)

  completed_found : select_document (some r.row_id) sent.db.documents ≡ some completed
  unfolding completed
  completed_found =
      let key = some r.row_id in
      let f = with_status "ocr_processing" none none none none st.clock in
      let g =
        with_status "ocr_completed" (some r.text) none (some (s.isoformat st.clock)) none
          (suc st.clock) in
      select-update_found g (λ d. refl) key (update_where f key st.db.documents) (f r.row)
        (select-update_found f (λ d. refl) key st.db.documents r.row r.found)

  -- the message as the chunker decodes it
  abbrev pub chunk_envelope : (trace tenant : String) → Envelope
  chunk_envelope trace tenant = record {
    message_id = chunk_id r.id;
    idempotency_key = next_key s (num r.row_id);
    trace_id = trace;
    stage = "chunk";
    document_id = r.row_id;
    tenant_id = tenant;
    attempt = pos 1;
    published_at = s.isoformat read.clock;
    payload = some (field "object_key" (key_of r.payload r.row) no_fields);
  }

  module _ (trace tenant content_type : String)
      (fresh : is_recorded (some (chunk_id r.id)) st.db.processed_messages ≡ false)
      (numbered : eq_ℤ r.row_id (pos 0) ≡ false)
      (typed : r.row.content_type ≡ some content_type) where
    chunker_ready : Chunker.Ready (chunk_envelope trace tenant) sent
    unfolding completed is_terminal
    chunker_ready = record {
      row = completed;
      content_type = content_type;
      text = r.text;
      numbered = numbered;
      fresh =
          unrecorded (chunk_id r.id) _ st.db.processed_messages r.fresh fresh (chunk_id-ne r.id);
      found = completed_found;
      typed = typed;
      live = refl;
      has_text = refl;
      accepted = r.some_text;
    }
