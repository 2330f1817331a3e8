-- ===== src/Supervisor/Signal.antt =====
-- supervisor/signal/supervisorStopModule.go: the blocks without transactions in a row. The lock
-- makes each operation one step.
use blockchain_sharding.Base.{ℕ, ◌+◌, Bool, leb}

pub record StopSignal : Type 0 where
  pub stop_gap : ℕ
  pub stop_threshold : ℕ

unfoldable pub new_stop_signal : ℕ → StopSignal
new_stop_signal stop_threshold = record { stop_gap = 0; stop_threshold = stop_threshold }

unfoldable pub stop_gap_inc : StopSignal → StopSignal
stop_gap_inc ss = record ss { stop_gap = ss.stop_gap + 1 }

unfoldable pub stop_gap_reset : StopSignal → StopSignal
stop_gap_reset ss = record ss { stop_gap = 0 }

unfoldable pub gap_enough : StopSignal → Bool
gap_enough ss = leb ss.stop_threshold ss.stop_gap
