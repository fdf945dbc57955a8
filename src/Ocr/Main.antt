-- ===== src/Ocr/Main.antt =====
-- `main` of workers/ocr/app/worker.py, over its whole life.
use digital_cip.Prelude.{◌≡◌, ◌+◌, List, [], ◌∷◌, ◌++◌, length}
use digital_cip.Services.{Services}
use digital_cip.World.{World}
use digital_cip.Consumer.Connect.{RetryCall, IsRetry}
use digital_cip.Consumer.Main
use digital_cip.Consumer.Main.{main-Balanced, main-stops}
use digital_cip.Consumer.Run.{Event, signalled, slept, Standing, run_consumer}
use digital_cip.Consumer.Run.Balance.{messages, Balanced}
use digital_cip.Consumer.Run.Shutdown.{IsOver, IsCalm}
use digital_cip.Ocr.Config.{Config}
use digital_cip.Ocr.Consumer.{on_message}
use digital_cip.Ocr.Delivery.{on_message-balanced}
use digital_cip.Ocr.Steadiness.{ocr-Steady}

module _ (retry_call : RetryCall) (s : Services) (config : Config) where
  -- the call of `run_consumer` with this worker's handler
  unfoldable pub consume : List Event → World → Standing × World
  consume = run_consumer retry_call (on_message s config)

  unfoldable pub main : List Event → World → Standing × World
  unfolding consume
  main = Main.main consume

-- Whatever messages and signals the OCR worker gets, and whichever calls of the outside fail, the
-- gauge of messages in flight is in the end, also after a crash, what it was in the beginning, and
-- no more durations were taken than messages came.
pub ocr_life-Balanced :
    (retry_call : RetryCall) (s : Services) (config : Config) (es : List Event) (w : World)
    → IsRetry retry_call
    → Balanced w.metrics.in_flight
        (messages es + length w.metrics.durations)
        (main retry_call s config es w).1.state
unfolding main
ocr_life-Balanced retry_call s config es w is_retry =
    main-Balanced retry_call (on_message s config) is_retry (on_message-balanced s config) es w

-- Where the calls of the outside work, a signal ends the OCR worker, whatever messages, losses of the
-- connection and signals came before, at the latest when it has connected again; it then takes no
-- later message: neither its standing nor the world depends on what comes after.
pub ocr_life-stops :
    (retry_call : RetryCall) (s : Services) (config : Config) (es fs : List Event) (w : World)
    → IsRetry retry_call
    → IsCalm w
    → IsOver (main retry_call s config (es ++ (signalled ∷ slept ∷ fs)) w).0
      × (main retry_call s config (es ++ (signalled ∷ slept ∷ fs)) w
          ≡ main retry_call s config (es ++ (signalled ∷ slept ∷ [])) w)
unfolding main
ocr_life-stops retry_call s config es fs w is_retry h =
    main-stops retry_call (on_message s config) is_retry (ocr-Steady s config) es fs w h
