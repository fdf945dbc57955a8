-- ===== src/Chunker/Run.antt =====
-- The loop of `Run` in workers/chunker/internal/worker/worker.go.
use digital_cip.Prelude.{List, [], ◌∷◌}
use digital_cip.Error.{foreign, other}
use digital_cip.Exec.{Exec, pure, raise, call, ◌>>◌}
use digital_cip.Consumer.OnMessage.{Delivery}
use digital_cip.Chunker.Config.{Config}
use digital_cip.Chunker.Handle.{Host}
use digital_cip.Chunker.Worker.{handle}

-- What a round of `select` gets: the end of the context, the end of the deliveries, or a delivery.
-- Where several are ready Go takes any, so any order of events is one that it may see.
pub data Event : Type 0 where
  cancelled deliveries_ended : Event
  delivered : Delivery → Event

pub data Standing : Type 0 where
  waiting stopped : Standing

module _ (host : Host) (config : Config) where
  -- the `for` loop
  unfoldable pub rounds : List Event → Exec Standing
  unfolding handle
  rounds [] = pure waiting
  rounds (cancelled ∷ events) = pure stopped
  rounds (deliveries_ended ∷ events) = raise (foreign (other "amqp channel closed"))
  rounds (delivered d ∷ events) = handle host config d >> rounds events

  -- `Consume` is one call of the broker.
  unfoldable pub run : List Event → Exec Standing
  unfolding call rounds
  run events = call (pure tt) >> rounds events
