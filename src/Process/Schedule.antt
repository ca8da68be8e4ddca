-- ===== src/Process/Schedule.antt =====
-- kernel/process/process.cpp, ProcessManager::schedule: what a timer tick does to the task that a
-- processor runs. The record for the debugger is left out.
use wandos.Base.{ℕ, zero, suc, Bool, true, false, List, ◌==◌, if◌then◌else◌}
use wandos.Base.Chain.{update}
use wandos.Base.Int.{ℤ, pos, negsuc}
use wandos.Process.RunQueue.{RunQueue, enqueue_task, pick_next_task}
pub mod Turns
pub mod Tests

-- The current task of the processor, the time slice of each task, and the run queues.
pub record Cpu : Type 0 where
  pub current : ℕ
  pub time_slice : ℕ → ℤ
  pub queues : List RunQueue

abbrev pub default_time_slice : ℕ
default_time_slice = 100

-- `--slice`, for an `int32_t` above its least value.
abbrev pub decrement : ℤ → ℤ
decrement (pos zero) = negsuc 0
decrement (pos (suc n)) = pos n
decrement (negsuc n) = negsuc (suc n)

-- `slice > 0`
abbrev pub is_positive : ℤ → Bool
is_positive (pos zero) = false
is_positive (pos (suc n)) = true
is_positive (negsuc n) = false

-- On the processor `cpu` with the idle task `idle`, for a current task that is not null.
pub schedule : ℕ → ℕ → Cpu → Bool × Cpu
schedule cpu idle s =
    let left = decrement (s.time_slice s.current) in
    let ticked = update s.time_slice s.current left in
    let picked = pick_next_task idle cpu s.queues in
    if is_positive left
    then (false, record s { time_slice = ticked })
    else if picked.0 == s.current
    then (false, record s { time_slice = ticked; queues = picked.1 })
    else (
      true,
      record {
        current = picked.0;
        time_slice = update ticked s.current (pos default_time_slice);
        queues = enqueue_task s.current cpu picked.1;
      },
    )
