-- ===== src/Tests.antt =====
-- The theorems about the code, at the input of Fixture.antt.
pub mod Broker
pub mod Life
pub mod Statuses
pub mod Embedding
pub mod Chunking
use mathlib.Core.Option
use digital_cip.Prelude.{◌≡◌, refl, pos, true, none, some, [], ◌∷◌, inl}
use digital_cip.Prelude.Text.{is_blank}
use digital_cip.Json.{num, str, get}
use digital_cip.Error.{ok, returned}
use digital_cip.Exec.{pure, ◌>>=◌, ◌>>◌}
use digital_cip.Exec.Calm.{calm}
use digital_cip.Exec.Rules.{Post, Raises}
use digital_cip.Sql.Transaction.{transaction}
use digital_cip.Sql.Statements.{select_document, text_column}
use digital_cip.Sql.Changes.{Changes, with_db, with_documents, with_processed}
use digital_cip.Consumer.OnMessage as Generic
use digital_cip.Consumer.OnMessage.{Delivery, int_operand}
use digital_cip.Consumer.Gauge.{Closed}
use digital_cip.Consumer.Verdict.{Verdict}
use digital_cip.Consumer.Settlement
use digital_cip.Consumer.Tally
use digital_cip.Consumer.Tally.{Once}
use digital_cip.Ocr.Db.{
  connection, already_processed, record_processed, fetch_document, update_document_status,
}
use digital_cip.Sql.Update.{set_status}
use digital_cip.Ocr.Db.Status.{with_status, update_document_status_lem}
use digital_cip.Ocr.Db.Calm.{processed_row}
use digital_cip.Ocr.Db.RoundTrip.{
  already_processed-record_processed, untimed, fetch_document-update_document_status,
}
use digital_cip.Ocr.Extract.{extract_text}
use digital_cip.Ocr.Extract.Calm.{pages_meta, extract_text-calm}
use digital_cip.Ocr.Handle.{item, publish_request, handle, lacks_text}
use digital_cip.Ocr.Handle.Blank.{lacks_text_lem}
use digital_cip.Ocr.Handle.Ending.{Ended, Broken, handle-Ended}
use digital_cip.Ocr.Handle.Idle.{handle-settled}
use digital_cip.Ocr.Handle.Frame.{handle-Changes}
use digital_cip.Ocr.Handle.Success.{key_of, begun, finished, listed, handle-Ready}
use digital_cip.Ocr.Consumer.{deliver, on_message}
use digital_cip.Ocr.Delivery.{counted_once, on_message-balanced, on_message-recorded}
use digital_cip.Embedder.Connection as Embedder
use digital_cip.Embedder.Db.{update_document}
use digital_cip.Embedder.Db.Status.{with_progress, update_document_lem}
use digital_cip.Embedder.Handle as EmbedderHandle
use digital_cip.Embedder.Delivery.{embedder-balanced}
use digital_cip.Sql.Chunks.{select_missing, set_embeddings}
use digital_cip.Embedder.Handle.{rows_of}
use digital_cip.Embedder.Coverage.{select_missing-set_embeddings}
use digital_cip.Fixture.{
  uploaded, chunks, vectors, two_missing, embedder_config, services, config, envelope, delivery,
  fresh, seen, in_trouble, knows_message, knows_document, keyed_seven, named_first, seen_recorded,
  deliver-seen, second_attempt, page_text, ready,
}

handle-Ended_example :
    Post
      (Ended services config (num (pos 7)) (some (pos 7)) keyed_seven fresh.db (str "m1"))
      (Broken services config (num (pos 7)) (some (pos 7)) keyed_seven fresh.db)
      (handle services config envelope (in_trouble fresh))
handle-Ended_example =
    handle-Ended services config envelope (str "m1") (num (pos 7)) (some (pos 7)) (in_trouble fresh)
      knows_message knows_document keyed_seven

handle-settled_example :
    Post
      (λ r st. (r ≡ none) × (st.db ≡ seen.db))
      (Raises (λ st. st.db ≡ seen.db))
      (handle services config envelope (in_trouble seen))
handle-settled_example =
    handle-settled services config envelope (str "m1") (num (pos 7)) (some "m1") (some (pos 7))
      (in_trouble seen) knows_message knows_document named_first keyed_seven (inl seen_recorded)

handle-Changes_example :
    let after = (handle services config envelope (in_trouble fresh)).1 in
    Changes "ocr" (some (pos 7)) (returned "m1") fresh.db after.db
    × (after.db.document_chunks ≡ fresh.db.document_chunks)
unfolding item get text_column
handle-Changes_example =
    handle-Changes services config envelope (num (pos 7)) (some (pos 7)) (in_trouble fresh)
      knows_document keyed_seven

on_message-Verdict_example :
    let start =
      Settlement.began "ocr" config.max_retries (deliver services config) (in_trouble fresh) in
    let run = deliver services config envelope start in
    let after =
      Generic.on_message "ocr" config.max_retries
        (deliver services config)
        delivery
        (in_trouble fresh) in
    Verdict "ocr" config.max_retries run.1.channel run.1.metrics.failed_unhandled delivery envelope
      run.0 after.0 after.1.state
on_message-Verdict_example =
    Settlement.on_message-Verdict "ocr" config.max_retries (deliver services config) delivery
      envelope (in_trouble fresh) refl

on_message-balanced_example :
    Post
      (λ _. Closed (pos 0) [])
      (λ _. Closed (pos 0) [])
      (on_message services config delivery (in_trouble fresh))
on_message-balanced_example = on_message-balanced services config delivery (in_trouble fresh)

on_message-recorded_example :
    on_message services config delivery (calm seen)
    ≡ (ok tt, calm (counted_once services config 4 seen))
on_message-recorded_example =
    on_message-recorded services config delivery envelope (str "m1") (num (pos 7)) (some "m1") seen
      refl knows_message knows_document named_first seen_recorded

on_message-Once_example :
    Once
      (Tally.began seen)
      (Generic.on_message "ocr" config.max_retries (deliver services config) delivery (calm seen))
on_message-Once_example =
    Tally.on_message-Once "ocr" config.max_retries (deliver services config) delivery envelope
      (pos 2) seen (Tally.began seen) (ok tt) refl second_attempt deliver-seen

update_document_status_lem_example :
    update_document_status services (num (pos 7)) "failed" none (some "no text") none (some "now")
    ≡ transaction connection (
        set_status services
          (num (pos 7))
          (λ d now. with_status "failed" none (some "no text") none (some "now") now d))
update_document_status_lem_example =
    update_document_status_lem services (num (pos 7)) "failed" none (some "no text") none
      (some "now")

extract_text-calm_example :
    extract_text services config (37 ∷ 80 ∷ []) (some "application/pdf") (calm fresh)
    ≡ (ok ("a page\n\na page", pages_meta 2), calm fresh)
extract_text-calm_example = extract_text-calm services config fresh page_text

already_processed-record_processed_example :
    (record_processed services (str "m1") (str "7:ocr") "ocr" (num (pos 7)) "ocr-worker" none
        >>= λ _. already_processed (str "m1"))
      (calm fresh)
    ≡ (
      ok true,
      calm (
          with_db
            (with_processed (
              processed_row services
                (num (pos 7))
                (pos 7)
                keyed_seven
                fresh
                "m1"
                "7:ocr"
                "ocr"
                "ocr-worker"
                none))
            fresh),
    )
already_processed-record_processed_example =
    already_processed-record_processed services (num (pos 7)) (pos 7) fresh "m1" "7:ocr" "ocr"
      "ocr-worker" none keyed_seven

fetch_document-update_document_status_example :
    let after =
      (do
        update_document_status services
            (num (pos 7))
            "ocr_completed"
            (some "a page")
            none
            (some "2024-01-01T00:00:00+00:00")
            none
        found ← fetch_document services (num (pos 7))
        pure (Option.map untimed found))
        (calm fresh) in
    after.0
    ≡ ok (
        some (
          untimed record uploaded {
            status = "ocr_completed";
            raw_text = some "a page";
            updated_at = 10;
          }))
unfolding select_document
fetch_document-update_document_status_example =
    fetch_document-update_document_status services (num (pos 7)) (pos 7) fresh "ocr_completed"
      (some "a page") none (some 9) none keyed_seven

lacks_text_lem_example : lacks_text " \n" ≡ is_blank " \n"
lacks_text_lem_example = lacks_text_lem " \n"

handle-Ready_example : handle services config envelope (calm fresh) ≡ (
  ok (some (publish_request (key_of ready.payload ready.row))),
  calm (
      listed services config ready.document_id ready.row_id ready.keyed ready.id ready.key
        ready.text ready.pages
        (finished services config ready.document_id ready.row_id ready.keyed ready.text ready.pages
          (begun services config ready.document_id ready.row_id ready.keyed ready.row fresh))),
)
handle-Ready_example = handle-Ready services config envelope fresh ready

embedder-balanced_example :
    Post
      (λ _. Closed (pos 0) [])
      (λ _. Closed (pos 0) [])
      (EmbedderHandle.on_message services embedder_config delivery (in_trouble fresh))
embedder-balanced_example = embedder-balanced services embedder_config delivery (in_trouble fresh)

update_document_lem_example :
    update_document services (num (pos 7)) "embedded" (some "now") none none
    ≡ transaction Embedder.connection (
        set_status services
          (num (pos 7))
          (λ d now. with_progress "embedded" (some "now") none none now d))
update_document_lem_example =
    update_document_lem services (num (pos 7)) "embedded" (some "now") none none

select_missing-set_embeddings_example :
    select_missing
      (some (pos 7))
      (set_embeddings 10 (rows_of (select_missing (some (pos 7)) chunks) vectors) chunks)
    ≡ []
select_missing-set_embeddings_example =
    select_missing-set_embeddings (some (pos 7)) 10 chunks vectors two_missing
