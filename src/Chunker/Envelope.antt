-- ===== src/Chunker/Envelope.antt =====
-- `Envelope` of workers/chunker/internal/worker/worker.go, and what Go's `encoding/json` reads into
-- it and writes of it. Keys are taken as they are spelt; Go also takes them in another case.
use Prim.Native.Nat.{◌^◌}
use digital_cip.Prelude.{
  ◌-◌, ◌%◌, ◌≡◌, refl, ℤ, pos, negsuc, String, true, Option, none, some, ltb, if◌then◌else◌,
}
use digital_cip.Json.{Value, Fields, no_fields, field, null, num, str, obj, get}
use digital_cip.Environment.{in_int64}
use digital_cip.Error.{Outcome, returned, raised, other, ◌>>=◌}
use digital_cip.World.{Body, text, junk}

pub record Envelope : Type 0 where
  pub message_id : String
  pub idempotency_key : String
  pub trace_id : String
  pub stage : String
  pub document_id : ℤ
  pub tenant_id : String
  pub attempt : ℤ
  pub published_at : String
  pub payload : Option Fields

abbrev pub zero_envelope : Envelope
zero_envelope = record {
  message_id = "";
  idempotency_key = "";
  trace_id = "";
  stage = "";
  document_id = pos 0;
  tenant_id = "";
  attempt = pos 0;
  published_at = "";
  payload = none;
}

-- `int32(n)`: the low 32 bits, as a two's complement.
unfoldable pub to_int32 : ℤ → ℤ
to_int32 (pos n) = let r = n % 2 ^ 32 in if ltb r (2 ^ 31) then pos r else negsuc (2 ^ 32 - r - 1)
to_int32 (negsuc n) =
    let r = n % 2 ^ 32 in if ltb r (2 ^ 31) then negsuc r else pos (2 ^ 32 - r - 1)

-- A field of the struct, by its type: a missing key or a null leaves the zero value.
unfoldable pub text_value : Option Value → Outcome String
text_value none = returned ""
text_value (some null) = returned ""
text_value (some (str t)) = returned t
text_value (some _) = raised (other "json: cannot unmarshal into Go struct field of type string")

unfoldable pub int_value : Option Value → Outcome ℤ
unfolding in_int64
int_value none = returned (pos 0)
int_value (some null) = returned (pos 0)
int_value (some (num n)) =
    if in_int64 n
    then returned n
    else raised (other "json: cannot unmarshal number into Go struct field")
int_value (some _) = raised (other "json: cannot unmarshal into Go struct field of type int")

unfoldable pub map_value : Option Value → Outcome (Option Fields)
map_value none = returned none
map_value (some null) = returned none
map_value (some (obj fields)) = returned (some fields)
map_value (some _) = raised (other "json: cannot unmarshal into Go struct field of type map")

-- `json.Unmarshal(d.Body, &env)`
unfoldable pub unmarshal : Body → Outcome Envelope
unfolding text_value int_value map_value get
unmarshal (junk m) = raised (other m)
unmarshal (text null) = returned zero_envelope
unmarshal (text (obj fields)) = do
  message_id ← text_value (get "message_id" fields)
  idempotency_key ← text_value (get "idempotency_key" fields)
  trace_id ← text_value (get "trace_id" fields)
  stage ← text_value (get "stage" fields)
  document_id ← int_value (get "document_id" fields)
  tenant_id ← text_value (get "tenant_id" fields)
  attempt ← int_value (get "attempt" fields)
  published_at ← text_value (get "published_at" fields)
  payload ← map_value (get "payload" fields)
  returned record {
    message_id = message_id;
    idempotency_key = idempotency_key;
    trace_id = trace_id;
    stage = stage;
    document_id = document_id;
    tenant_id = tenant_id;
    attempt = attempt;
    published_at = published_at;
    payload = payload;
  }
unmarshal (text _) = raised (other "json: cannot unmarshal into Go value of type worker.Envelope")

abbrev opt_obj : Option Fields → Value
opt_obj none = null
opt_obj (some fields) = obj fields

-- `json.Marshal(env)`
unfoldable pub marshal : Envelope → Body
marshal env = text (
    obj (
      field "message_id" (str env.message_id) (
        field "idempotency_key" (str env.idempotency_key) (
          field "trace_id" (str env.trace_id) (
            field "stage" (str env.stage) (
              field "document_id" (num env.document_id) (
                field "tenant_id" (str env.tenant_id) (
                  field "attempt" (num env.attempt) (
                    field "published_at" (str env.published_at)
                      (field "payload" (opt_obj env.payload) no_fields))))))))))

map_value-opt_obj : (p : Option Fields) → map_value (some (opt_obj p)) ≡ returned p
unfolding map_value
map_value-opt_obj none = refl
map_value-opt_obj (some fs) = refl

-- What is written is read back.
pub unmarshal-marshal :
    (env : Envelope)
    → in_int64 env.document_id ≡ true
    → in_int64 env.attempt ≡ true
    → unmarshal (marshal env) ≡ returned env
unfolding unmarshal marshal
unmarshal-marshal env h k = rw (h, k, map_value-opt_obj env.payload) refl
