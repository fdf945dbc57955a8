-- ===== src/Consumer/Metrics.antt =====
-- `start_metrics_server` of metrics.py: a call of the outside, which touches no state.
use digital_cip.Prelude.{◌≡◌, refl}
use digital_cip.Error.{ok}
use digital_cip.World.{State, World, Fate, works, fails, lands, next_fate}
use digital_cip.Exec.{Exec, settle, pure, call}
use digital_cip.Exec.Calm.{calm}

-- `start_http_server(CONFIG.metrics_port)`
unfoldable pub start_metrics_server : Exec (Unit {0})
unfolding call
start_metrics_server = call (pure tt)

pub call-state :
    (fate : Fate) (w : World) → (settle {A = Unit {0}} fate (ok tt, w) w).1.state ≡ w.state
call-state works w = refl
call-state (fails f) w = refl
call-state (lands f) w = refl

pub start_metrics_server-state : (w : World) → (start_metrics_server w).1.state ≡ w.state
unfolding start_metrics_server
start_metrics_server-state w = call-state (next_fate w.fates) _

pub start_metrics_server-calm : (st : State) → start_metrics_server (calm st) ≡ (ok tt, calm st)
unfolding start_metrics_server
start_metrics_server-calm st = refl
