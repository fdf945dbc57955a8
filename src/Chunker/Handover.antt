-- ===== src/Chunker/Handover.antt =====
-- What the OCR worker's `_publish_next` sends (workers/ocr/app/worker.py) and the chunker decodes
-- (`Envelope` of workers/chunker/internal/worker/worker.go).
use digital_cip.Environment.{in_int64}
use digital_cip.Prelude.{◌≡◌, refl, ℤ, pos, String, true, Option, none, some}
use digital_cip.Json.{Value, Fields, null, num, str, obj, get, get_or}
use digital_cip.Error.{returned}
use digital_cip.Services.{Services}
use digital_cip.Ocr.Consumer.{next_key, next_message}
use digital_cip.Chunker.Envelope.{text_value, unmarshal}

text_value-default :
    (o : Option Value) → text_value (some (elim o [ none ↦ null | some v ↦ v ])) ≡ text_value o
unfolding text_value
text_value-default none = refl
text_value-default (some v) = refl

text_value-get_or :
    (key : String) (fs : Fields) → text_value (some (get_or key null fs)) ≡ text_value (get key fs)
unfolding get_or
text_value-get_or key fs = text_value-default (get key fs)

-- The chunker decodes the message that the OCR worker publishes for a document: it names the same
-- document, the trace and the tenant are those of the OCR worker's message, where they are texts,
-- nulls or missing, and it is a first attempt.
pub unmarshal-next_message :
    (s : Services) (envelope payload : Fields) (id published_at trace tenant : String) (n : ℤ)
    → in_int64 n ≡ true
    → text_value (get "trace_id" envelope) ≡ returned trace
    → text_value (get "tenant_id" envelope) ≡ returned tenant
    → unmarshal (next_message s envelope (str id) (num n) published_at (obj payload)).body
      ≡ returned record {
        message_id = id;
        idempotency_key = next_key s (num n);
        trace_id = trace;
        stage = "chunk";
        document_id = n;
        tenant_id = tenant;
        attempt = pos 1;
        published_at = published_at;
        payload = some payload;
      }
unfolding unmarshal
unmarshal-next_message s envelope payload id published_at trace tenant n small traced tenanted =
    rw
      (
        text_value-get_or "trace_id" envelope,
        traced,
        small,
        text_value-get_or "tenant_id" envelope,
        tenanted,
      )
      refl
