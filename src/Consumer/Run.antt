-- ===== src/Consumer/Run.antt =====
-- `run_consumer` of consumer.py. What happens to the worker from outside is a list of events, in
-- their order. The object of the connection is not modelled; its calls may fail.
pub mod Balance
pub mod Shutdown
use digital_cip.Prelude.{Bool, true, false, String, List, [], ◌∷◌, if◌then◌else◌}
use digital_cip.Error.{
  Error, permanent, transient, foreign, amqp_connection, other, Result, ok, err,
}
use digital_cip.World.{World, Fate, works, fails, lands, next_fate, later_fates}
use digital_cip.Exec.{Exec, pure, try, call, ◌>>=◌, ◌>>◌}
use digital_cip.Consumer.OnMessage.{Delivery}
use digital_cip.Consumer.Connect.{RetryCall, connect}

-- A message arrives, SIGTERM or SIGINT arrives, `start_consuming` raises `AMQPConnectionError` or
-- another exception, and the two seconds after a lost connection are over.
pub data Event : Type 0 where
  delivered : Delivery → Event
  signalled : Event
  dropped : String → Event
  broken : String → Event
  slept : Event

-- Inside `start_consuming`, or in the `except` clause before it has slept.
pub data Phase : Type 0 where
  consuming reconnecting : Phase

-- How `run_consumer` stands after the events: it goes on, it has returned, or it has raised.
pub data Standing : Type 0 where
  goes_on : Phase → (flag : Bool) → Standing
  finished : Standing
  crashed : Error → Standing

-- a call on the connection or on the channel
unfoldable pub channel_call : Exec (Unit {0})
unfolding call
channel_call = call (pure tt)

-- `_connect`, `connection.channel`, `basic_qos` and `basic_consume`
unfoldable pub subscribe : RetryCall → Exec (Unit {0})
unfolding channel_call
subscribe retry_call = do connect retry_call; channel_call; channel_call; channel_call

-- `connection.close()`, whose exceptions are dropped
unfoldable pub close : World → Standing × World
unfolding channel_call
close w = (finished, (try channel_call (λ e. pure tt) w).1)

-- Whether `channel.stop_consuming()` came through; its exceptions are dropped.
abbrev pub stops : Fate → Bool
stops works = true
stops (fails e) = false
stops (lands e) = true

abbrev pub stop_consuming : World → Bool × World
stop_consuming w = (stops (next_fate w.fates), record w { fates = later_fates w.fates })

module _ (retry_call : RetryCall) (on_message : Delivery → Exec (Unit {0})) where
  -- `except AMQPConnectionError`; any other exception leaves the loop.
  abbrev pub handle_error : Bool → Error → World → Standing × World
  handle_error flag (foreign (amqp_connection m)) w = (goes_on reconnecting flag, w)
  handle_error flag e w = (crashed e, w)

  abbrev pub called_back : Bool → Result (Unit {0}) × World → Standing × World
  called_back flag (ok _, w) = (goes_on consuming flag, w)
  called_back flag (err e, w) = handle_error flag e w

  -- `while not shutdown['flag']` after the `except` clause
  abbrev pub subscribed : Bool → Result (Unit {0}) × World → Standing × World
  subscribed flag (ok _, w) = if flag then close w else (goes_on consuming flag, w)
  subscribed flag (err e, w) = (crashed e, w)

  -- While it sleeps and connects, the worker takes no message; `stop` then has no consumer to stop.
  unfoldable pub step : Phase → Bool → Event → World → Standing × World
  unfolding close subscribe
  step consuming flag (delivered d) w = called_back flag (on_message d w)
  step consuming flag signalled w =
      let (stopped, w') = stop_consuming w in
      if stopped then close w' else (goes_on consuming true, w')
  step consuming flag (dropped m) w = (goes_on reconnecting flag, w)
  step consuming flag (broken m) w = (crashed (foreign (other m)), w)
  step consuming flag slept w = (goes_on consuming flag, w)
  step reconnecting flag signalled w = (goes_on reconnecting true, (stop_consuming w).1)
  step reconnecting flag slept w = subscribed flag (subscribe retry_call w)
  step reconnecting flag e w = (goes_on reconnecting flag, w)

  unfoldable pub run : List Event → Standing × World → Standing × World
  run [] at = at
  run (e ∷ es) (goes_on phase flag, w) = run es (step phase flag e w)
  run (e ∷ es) at = at

  abbrev pub starts : Result (Unit {0}) × World → Standing × World
  starts (ok _, w) = (goes_on consuming false, w)
  starts (err e, w) = (crashed e, w)

  unfoldable pub run_consumer : List Event → World → Standing × World
  unfolding subscribe run
  run_consumer es w = run es (starts (subscribe retry_call w))
