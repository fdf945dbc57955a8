-- ===== src/Tests/Life.antt =====
-- The theorems about a worker's life, with a consumer that gets messages and signals.
use digital_cip.Prelude.{◌≡◌, refl, ℕ, zero, suc, pos, List, [], ◌∷◌, ◌++◌, arith}
use digital_cip.Error.{Foreign, foreign, amqp_connection, Result, ok, err}
use digital_cip.World.{World, works, fails}
use digital_cip.Exec.{Exec}
use digital_cip.Exec.Calm.{calm}
use digital_cip.Consumer.Connect.{
  RetryCall, IsRetry, failing, connect, connect_in_time, connect_gives_up,
}
use digital_cip.Consumer.Run.{Event, delivered, signalled, dropped, slept}
use digital_cip.Consumer.Run.Balance.{Balanced}
use digital_cip.Consumer.Run.Shutdown.{IsOver}
use digital_cip.Ocr.Main
use digital_cip.Ocr.Main.{ocr_life-Balanced, ocr_life-stops}
use digital_cip.Embedder.Main as EmbedderMain
use digital_cip.Embedder.Main.{embedder_life-Balanced, embedder_life-stops}
use digital_cip.Fixture.{services, config, embedder_config, delivery, fresh, in_trouble}

attempts_from : Exec (Unit {0}) → Result (Unit {0}) × World → ℕ → Result (Unit {0}) × World
attempts_from m (ok _, w) n = (ok tt, w)
attempts_from m (err e, w) zero = (err e, w)
attempts_from m (err e, w) (suc n) = attempts_from m (m w) n

attempts : RetryCall
attempts zero m w = m w
attempts (suc n) m w = attempts_from m (m w) n

attempts-IsRetry : IsRetry attempts
unfolding attempts attempts_from
attempts-IsRetry = record {
  returns = λ n m w w' h. rw h;
  tries_again = λ n m e w w' h. rw h;
  reraises = λ m e w w' h. rw h;
}

abbrev refused : Foreign
refused = amqp_connection "refused"

-- The broker drops the connection, the worker connects again and gets a message.
abbrev before : List Event
before = delivered delivery ∷ dropped "heartbeat" ∷ slept ∷ delivered delivery ∷ []

connect_in_time_example :
    connect attempts (record { state = fresh; fates = fails refused ∷ fails refused ∷ works ∷ [] })
    ≡ (ok tt, record { state = fresh; fates = [] })
connect_in_time_example =
    connect_in_time attempts fresh (refused ∷ refused ∷ []) [] attempts-IsRetry (omega arith)

abbrev nineteen : List Foreign
nineteen =
    refused ∷ refused ∷ refused ∷ refused ∷ refused ∷ refused ∷ refused ∷ refused ∷ refused
    ∷ refused ∷ refused ∷ refused ∷ refused ∷ refused ∷ refused ∷ refused ∷ refused ∷ refused
    ∷ refused ∷ []

connect_gives_up_example :
    connect attempts
      (record { state = fresh; fates = failing nineteen (fails refused ∷ works ∷ []) })
    ≡ (err (foreign refused), record { state = fresh; fates = works ∷ [] })
connect_gives_up_example =
    connect_gives_up attempts fresh nineteen refused (works ∷ []) attempts-IsRetry refl

ocr_life-Balanced_example :
    Balanced (pos 0) 2 (Main.main attempts services config before (in_trouble fresh)).1.state
ocr_life-Balanced_example =
    ocr_life-Balanced attempts services config before (in_trouble fresh) attempts-IsRetry

ocr_life-stops_example :
    IsOver
      (Main.main attempts services config
        (before ++ (signalled ∷ slept ∷ delivered delivery ∷ []))
        (calm fresh)).0
    × (Main.main attempts services config
          (before ++ (signalled ∷ slept ∷ delivered delivery ∷ []))
          (calm fresh)
        ≡ Main.main attempts services config (before ++ (signalled ∷ slept ∷ [])) (calm fresh))
ocr_life-stops_example =
    ocr_life-stops attempts services config before (delivered delivery ∷ []) (calm fresh)
      attempts-IsRetry refl

embedder_life-Balanced_example :
    Balanced
      (pos 0)
      2
      (EmbedderMain.main attempts services embedder_config before (in_trouble fresh)).1.state
embedder_life-Balanced_example =
    embedder_life-Balanced attempts services embedder_config before (in_trouble fresh)
      attempts-IsRetry

embedder_life-stops_example :
    IsOver
      (EmbedderMain.main attempts services embedder_config
        (before ++ (signalled ∷ slept ∷ delivered delivery ∷ []))
        (calm fresh)).0
    × (EmbedderMain.main attempts services embedder_config
          (before ++ (signalled ∷ slept ∷ delivered delivery ∷ []))
          (calm fresh)
        ≡ EmbedderMain.main attempts services embedder_config
            (before ++ (signalled ∷ slept ∷ []))
            (calm fresh))
embedder_life-stops_example =
    embedder_life-stops attempts services embedder_config before (delivered delivery ∷ [])
      (calm fresh) attempts-IsRetry refl
