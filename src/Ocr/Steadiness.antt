-- ===== src/Ocr/Steadiness.antt =====
-- The OCR worker in the world in which every call works.
use digital_cip.Prelude.{String, Option, none, some, List, [], ◌∷◌}
use digital_cip.Json.{Value, Fields}
use digital_cip.Error.{Error, permanent, Outcome}
use digital_cip.Tables.{Document}
use digital_cip.Services.{Services, Bytes, Image}
use digital_cip.Exec.Steady.{
  Steady, Steady-bind, Steady-pure, Steady-call, Steady-lift, steady_rules,
}
use digital_cip.Sql.Steadiness.{connect-Steady, transaction-Steady}
use digital_cip.Consumer.OnMessage.{Delivery}
use digital_cip.Consumer.Steadiness.{publish-Steady, on_message-Steady}
use digital_cip.Ocr.Config.{Config}
use digital_cip.Ocr.Db.{
  connection, already_processed, record_processed, fetch_document, update_document_status,
  record_event,
}
use digital_cip.Ocr.Extract.{external, download_object, read_pages, extract_text}
use digital_cip.Ocr.Handle.{
  utc_now, complete, accept, process, rescue, work_on, handle_document, handle_message, handle,
}
use digital_cip.Ocr.Consumer.{publish_next, forward, deliver, on_message}

seen-Steady : (m : Value) → Steady (already_processed m)
unfolding already_processed connection
seen-Steady m = transaction-Steady _ _ connect-Steady

external-Steady : {A : Type 0} (o : Outcome A) → Steady (external o)
unfolding external
external-Steady o = Steady-call _ (Steady-lift o)

module _ (s : Services) where
  record-Steady :
      (m k : Value) (stage : String) (d : Value) (consumer : String) (result : Option Fields)
      → Steady (record_processed s m k stage d consumer result)
  unfolding record_processed connection
  record-Steady m k stage d consumer result = transaction-Steady _ _ connect-Steady

  fetch-Steady : (d : Value) → Steady (fetch_document s d)
  unfolding fetch_document connection
  fetch-Steady d = transaction-Steady _ _ connect-Steady

  update-Steady :
      (d : Value) (status : String) (t r c f : Option String)
      → Steady (update_document_status s d status t r c f)
  unfolding update_document_status connection
  update-Steady d status t r c f = transaction-Steady _ _ connect-Steady

  event-Steady :
      (d : Value) (stage : String) (from : Option String) (to : String) (message : Option String)
      (payload : Option Fields) (actor : String)
      → Steady (record_event s d stage from to message payload actor)
  unfolding record_event connection
  event-Steady d stage from to message payload actor = transaction-Steady _ _ connect-Steady

  tick-Steady : Steady (utc_now s)
  unfolding utc_now
  tick-Steady = record { at = λ w h. h }

  next-Steady : (f : Fields) (payload : Value) → Steady (publish_next s f payload)
  unfolding publish_next
  next-Steady f payload = search (steady_rules, tick-Steady, publish-Steady) depth 12

  forward-Steady : (f : Fields) (r : Option Fields) → Steady (forward s f r)
  unfolding forward
  forward-Steady f none = search steady_rules
  forward-Steady f (some r) = search (steady_rules, next-Steady)

  module _ (config : Config) where
    download-Steady : (k : Value) → Steady (download_object s config k)
    unfolding download_object
    download-Steady k = external-Steady _

    pages-Steady : (images : List Image) → Steady (read_pages s config images)
    unfolding read_pages
    pages-Steady [] = search steady_rules
    pages-Steady (i ∷ images) =
        Steady-bind (external (s.image_to_string i config.ocr_lang)) _ (external-Steady _) λ page.
          Steady-bind (read_pages s config images) _ (pages-Steady images)
            λ pages. Steady-pure (page ∷ pages)

    text-Steady : (blob : Bytes) (t : Option String) → Steady (extract_text s config blob t)
    unfolding extract_text
    text-Steady blob t = search (steady_rules, external-Steady, pages-Steady) depth 12

    complete-Steady :
        (f : Fields) (m d k : Value) (text : String) (meta : Fields)
        → Steady (complete s config f m d k text meta)
    unfolding complete
    complete-Steady f m d k text meta =
        search (steady_rules, record-Steady, update-Steady, event-Steady, tick-Steady) depth 12

    accept-Steady :
        (f : Fields) (m d k : Value) (found : String × Fields)
        → Steady (accept s config f m d k found)
    unfolding accept
    accept-Steady f m d k (text, meta) = search (steady_rules, complete-Steady)

    process-Steady :
        (f : Fields) (m d k : Value) (document : Document)
        → Steady (process s config f m d k document)
    unfolding process
    process-Steady f m d k document =
        search
          (steady_rules, update-Steady, event-Steady, download-Steady, text-Steady, accept-Steady)
          depth 12

    rescue-Steady : (d : Value) (e : Error) → Steady (rescue s config d e)
    unfolding rescue
    rescue-Steady d (permanent m) =
        search (steady_rules, tick-Steady, update-Steady, event-Steady) depth 12
    rescue-Steady d _ = search (steady_rules, event-Steady) depth 12

    work_on-Steady :
        (f : Fields) (m d : Value) (document : Document) → Steady (work_on s config f m d document)
    unfolding work_on
    work_on-Steady f m d x = search (steady_rules, process-Steady, rescue-Steady) depth 12

    document-Steady :
        (f : Fields) (m d : Value) (document : Option Document)
        → Steady (handle_document s config f m d document)
    unfolding handle_document
    document-Steady f m d none = search steady_rules
    document-Steady f m d (some x) = search (steady_rules, work_on-Steady)

    message-Steady : (f : Fields) (m d : Value) → Steady (handle_message s config f m d)
    unfolding handle_message
    message-Steady f m d =
        search (steady_rules, seen-Steady, fetch-Steady, document-Steady) depth 12

    handle-Steady : (f : Fields) → Steady (handle s config f)
    unfolding handle
    handle-Steady f = search (steady_rules, message-Steady) depth 12

    deliver-Steady : (f : Fields) → Steady (deliver s config f)
    unfolding deliver
    deliver-Steady f = search (steady_rules, handle-Steady, forward-Steady)

    pub ocr-Steady : (d : Delivery) → Steady (on_message s config d)
    unfolding on_message
    ocr-Steady d = on_message-Steady "ocr" config.max_retries (deliver s config) deliver-Steady d
