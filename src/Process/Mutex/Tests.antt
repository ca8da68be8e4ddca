-- ===== src/Process/Mutex/Tests.antt =====
-- Runs of the model of lib/mutex.cpp, and its theorems at concrete inputs.
use wandos.Base.{ℕ, ◌≡◌, refl, true, false, none, some, List, [], ◌∷◌, arith}
use wandos.Process.Mutex.{
  Mutex, Task, init, failed, attempt, lock, resume, unlock, wait_forever, is_waiting, remove_pid,
  wake, wake_next_waiter,
}
use wandos.Process.Mutex.Exclusion.{
  Event, locks, resumes, unlocks, run, step, start, mutual_exclusion,
}
use wandos.Process.Mutex.Laws.{finish, finish-lock_timeout, lock_again_hangs}

abbrev held_by_five : Mutex
held_by_five = record {
  locked = true;
  owner = 5;
  recursion = 1;
  recursive = false;
  wait_list = 7 ∷ [];
}

abbrev seven : Task
seven = record { task_id = 7; ready = false; sleep_ticks = 1 }

-- Task 7 takes the lock after task 5 has given it up.
abbrev history : List Event
history = locks 5 0 ∷ locks 7 wait_forever ∷ unlocks 5 ∷ resumes 7 wait_forever 1 ∷ []

history_holder : (run (start false (seven ∷ [])) history).held 7 ≡ 1
unfolding run step init lock attempt resume remove_pid unlock wake_next_waiter wake is_waiting
history_holder = refl

mutual_exclusion_example : ◌≡◌ {A = ℕ} 7 7
unfolding run step init lock attempt resume remove_pid unlock wake_next_waiter wake is_waiting
mutual_exclusion_example =
    mutual_exclusion false (seven ∷ []) history 7 7 (omega arith) (omega arith) (omega arith)
      (omega arith)

finish-lock_timeout_example :
    (let r = lock (some 9) 3 held_by_five in finish 3 9 3 r.0 r.1) ≡ some (failed, held_by_five)
unfolding is_waiting
finish-lock_timeout_example = finish-lock_timeout held_by_five 9 3 refl (omega arith)

lock_again_hangs_example :
    (let r = lock (some 5) wait_forever held_by_five in finish 10 5 wait_forever r.0 r.1) ≡ none
unfolding is_waiting
lock_again_hangs_example = lock_again_hangs held_by_five 10 refl refl refl
