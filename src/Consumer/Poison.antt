-- ===== src/Consumer/Poison.antt =====
-- Messages that `on_message` cannot work on, where the broker's calls work.
use digital_cip.Prelude.{◌≡◌, ℤ, false, String}
use digital_cip.Json.{Value, Fields, obj}
use digital_cip.Error.{Foreign, foreign, ok, err, raised}
use digital_cip.World.{State, Body, text, junk, Reason}
use digital_cip.Exec.{Exec}
use digital_cip.Exec.Calm.{calm}
use digital_cip.Consumer.Effects.{failed, nacked_also, basic_nack, monotonic}
use digital_cip.Consumer.OnMessage.{Delivery, as_dict, settle_error, work, load, on_message}
use digital_cip.Consumer.Tally.{began}
use digital_cip.Consumer.Transient.{closing}

-- The body is no JSON text, or no dict, or the handler raises an exception of a library on it
-- before it changes anything.
pub data IsPoison (deliver : Fields → Exec (Unit {0})) (body : Body) : Type 0 where
  no_json : (m : String) → body ≡ junk m → IsPoison deliver body
  no_dict : (v : Value) (f : Foreign) → body ≡ text v → as_dict v ≡ raised f → IsPoison deliver body
  refused :
      (envelope : Fields) (f : Foreign)
      → body ≡ text (obj envelope)
      → ((st : State) → deliver envelope (calm st) ≡ (err (foreign f), calm st))
      → IsPoison deliver body

module _ (stage : String) (max_retries : ℤ) (deliver : Fields → Exec (Unit {0}))
    (d : Delivery) where
  abbrev pub refused_by : State → State
  refused_by st = record st {
    metrics = failed Reason.unhandled st.metrics;
    channel = nacked_also d.tag false st.channel;
  }

  load-poison :
      (body : Body) (st : State)
      → IsPoison deliver body
      → load stage max_retries deliver d body (calm st) ≡ (ok tt, calm (refused_by st))
  unfolding load work settle_error basic_nack as_dict
  load-poison body st (no_json m e) = rw e
  load-poison body st (no_dict v f e raises) = rw (e, raises)
  load-poison body st (refused envelope f e fails) = rw (e, fails st)

  pub on_message-poison :
      (st : State)
      → IsPoison deliver d.body
      → on_message stage max_retries deliver d (calm st)
        ≡ (ok tt, calm (closing st.clock (refused_by (began st))))
  unfolding on_message monotonic
  on_message-poison st h = rw (load-poison d.body (began st) h)
