-- ===== src/Process/Schedule/Tests.antt =====
-- A turn at a concrete processor (ProcessManager::schedule in kernel/process/process.cpp).
use wandos.Base.{◌≡◌, refl, [], ◌∷◌, arith}
use wandos.Base.Int.{pos}
use wandos.Process.Schedule.{Cpu, default_time_slice}
use wandos.Process.Schedule.Turns.{ticks, waiting, turn}

abbrev busy : Cpu
busy = record {
  current = 5;
  time_slice = λ t. pos 3;
  queues = record { nr_running = 2; runnable_list = 6 ∷ 7 ∷ [] } ∷ [];
}

turn_example :
    let s' = ticks 3 0 9 busy in
    (s'.current ≡ 6) × (waiting 0 s' ≡ 7 ∷ 5 ∷ []) × (s'.time_slice 5 ≡ pos default_time_slice)
turn_example = turn 2 0 9 6 (7 ∷ []) busy refl refl refl (omega arith)
