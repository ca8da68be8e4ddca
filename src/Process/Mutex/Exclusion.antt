-- ===== src/Process/Mutex/Exclusion.antt =====
-- Mutual exclusion of class Mutex (lib/mutex.cpp) over any interleaving of the tasks' steps.
use wandos.Base.{
  ℕ, suc, ◌^◌, length, All, Bool-cases, inl, inr, ltb, refl, ◌+◌, ◌-◌, ◌≤◌, ◌<◌, ◌≡◌, ◌≢◌, Bool,
  true, false, ◌&&◌, some, List, [], ◌∷◌, arith, ◌==◌, if◌then◌else◌,
}
use native.Mathlib.Nat.{add-zero}
use wandos.Process.Mutex.{
  Mutex, Progress, acquired, attempt, is_waiting, wake_next_waiter, lock, resume, init, remove_pid,
  Task, unlock,
}

-- A step of a task: a call of `lock` with a timeout, its continuation after a sleep with the ticks
-- that it has counted, or a call of `unlock`.
pub data Event : Type 0 where
  locks : ℕ → ℕ → Event
  resumes : ℕ → ℕ → ℕ → Event
  unlocks : ℕ → Event

-- The mutex and the tasks, and how often each task has the lock: the calls of `lock` that returned
-- true, less the calls of `unlock` that did.
pub record World : Type 0 where
  pub mutex : Mutex
  pub tasks : List Task
  pub held : ℕ → ℕ

abbrev pub took : Progress → ℕ → (ℕ → ℕ) → ℕ → ℕ
took acquired pid held q = if q == pid then held q + 1 else held q
took _ pid held q = held q

abbrev pub gave : Bool → ℕ → (ℕ → ℕ) → ℕ → ℕ
gave true pid held q = if q == pid then held q - 1 else held q
gave false pid held q = held q

unfoldable pub step : World → Event → World
step w (locks pid timeout) =
    let r = lock (some pid) timeout w.mutex in record w { mutex = r.1; held = took r.0 pid w.held }
step w (resumes pid timeout elapsed) =
    let r = resume pid timeout elapsed w.mutex in
    record w { mutex = r.1; held = took r.0 pid w.held }
step w (unlocks pid) =
    let r = unlock (some pid) w.mutex w.tasks in
    record { mutex = r.1; tasks = r.2; held = gave r.0 pid w.held }

unfoldable pub run : World → List Event → World
run w [] = w
run w (e ∷ es) = run (step w e) es

abbrev pub pid_of : Event → ℕ
pid_of (locks pid timeout) = pid
pid_of (resumes pid timeout elapsed) = pid
pid_of (unlocks pid) = pid

-- The owner of a locked mutex, and it alone, has the lock, as often as `recursion` says; a mutex
-- that is not locked has no owner.
pub record Inv (n : ℕ) (w : World) : Type 0 where
  pub counted :
      (q : ℕ) → w.held q ≡ (if w.mutex.locked && w.mutex.owner == q then w.mutex.recursion else 0)
  pub taken : w.mutex.locked ≡ true → 0 < w.mutex.recursion
  pub free : w.mutex.locked ≡ false → w.mutex.owner ≡ 0
  pub plain : w.mutex.recursive ≡ false → w.mutex.recursion ≤ 1
  pub bound : w.mutex.recursion ≤ n

weaken : (n : ℕ) (w : World) → Inv n w → Inv (n + 1) w
weaken n w v = record {
  counted = v.counted;
  taken = v.taken;
  free = v.free;
  plain = v.plain;
  bound = omega (arith, v.bound);
}

attempt-Inv :
    (n : ℕ) (w : World) (pid timeout elapsed : ℕ) (waiters : List ℕ)
    → pid ≢ 0
    → Inv n w
    → let r = attempt pid timeout elapsed (record w.mutex { wait_list = waiters }) in
      Inv (n + 1) (record w { mutex = r.1; held = took r.0 pid w.held })
unfolding attempt
attempt-Inv n w pid timeout elapsed waiters z v = record {
  counted = λ q. ground (arith, v.counted q);
  taken = ground arith;
  free = ground arith;
  plain = ground arith;
  bound = ground arith;
}

lock-Inv :
    (n : ℕ) (w : World) (pid timeout : ℕ)
    → pid ≢ 0
    → n + 1 < 2 ^ 32
    → Inv n w
    → let r = lock (some pid) timeout w.mutex in
      Inv (n + 1) (record w { mutex = r.1; held = took r.0 pid w.held })
unfolding lock
lock-Inv n w pid timeout z b v = elim (Bool-cases (is_waiting pid w.mutex.wait_list)) [
  | inl e ↦ rw e (weaken n w v)
  | inr e ↦ elim (Bool-cases (w.mutex.recursive && w.mutex.owner == pid)) [
    | inl f ↦
        rw (e, f)
          (record {
            counted = λ q. ground (arith, v.counted q);
            taken = ground arith;
            free = ground arith;
            plain = ground arith;
            bound = ground arith;
          })
    | inr f ↦ rw (e, f) (attempt-Inv n w pid timeout 0 w.mutex.wait_list z v)
  ]
]

wake_next_waiter-keeps :
    (m : Mutex) (ts : List Task)
    → let r = wake_next_waiter m ts in
      (r.0.locked ≡ m.locked)
      × (r.0.owner ≡ m.owner)
      × (r.0.recursion ≡ m.recursion)
      × (r.0.recursive ≡ m.recursive)
unfolding wake_next_waiter
wake_next_waiter-keeps m ts = ground arith

unlock-Inv :
    (n : ℕ) (w : World) (pid : ℕ)
    → pid ≢ 0
    → Inv n w
    → let r = unlock (some pid) w.mutex w.tasks in
      Inv (n + 1) (record { mutex = r.1; tasks = r.2; held = gave r.0 pid w.held })
unfolding unlock
unlock-Inv n w pid z v = elim (Bool-cases (w.mutex.owner == pid)) [
  | inr e ↦ rw e (weaken n w v)
  | inl e ↦ elim (Bool-cases (w.mutex.recursive && ltb 1 w.mutex.recursion)) [
    | inl f ↦
        rw (e, f)
          (record {
            counted = λ q. ground (arith, v.counted q, v.free);
            taken = ground arith;
            free = ground arith;
            plain = ground arith;
            bound = ground arith;
          })
    | inr f ↦
        let k =
          wake_next_waiter-keeps (record w.mutex { locked = false; owner = 0; recursion = 0 })
            w.tasks in
        rw (e, f)
          (record {
            counted = λ q. ground (arith, v.counted q, v.free, v.plain, k);
            taken = λ h. ground (arith, k);
            free = λ h. k.1;
            plain = λ h. omega (arith, k.2);
            bound = omega (arith, k.2);
          })
  ]
]

step-Inv :
    (n : ℕ) (w : World) (e : Event)
    → pid_of e ≢ 0
    → n + 1 < 2 ^ 32
    → Inv n w
    → Inv (n + 1) (step w e)
unfolding step
step-Inv n w (locks pid timeout) z b v = lock-Inv n w pid timeout z b v
step-Inv n w (resumes pid timeout elapsed) z b v =
    unfold resume in attempt-Inv n w pid timeout elapsed (remove_pid pid w.mutex.wait_list) z v
step-Inv n w (unlocks pid) z b v = unlock-Inv n w pid z v

run-Inv :
    (n : ℕ) (w : World) (es : List Event)
    → All (λ e. pid_of e ≢ 0) es
    → n + length es < 2 ^ 32
    → Inv n w
    → Inv (n + length es) (run w es)
unfolding run
run-Inv n w [] z b v = rw (add-zero n) v
run-Inv n w (e ∷ es) z b v =
    let shift : n + 1 + length es ≡ n + suc (length es) = omega arith in
    rw (← shift)
      (run-Inv (n + 1) (step w e) es z.1 (omega arith) (step-Inv n w e z.0 (omega arith) v))

abbrev pub start : Bool → List Task → World
start recursive ts = record { mutex = init recursive; tasks = ts; held = λ _. 0 }

-- After any interleaving of fewer than 2 ^ 32 steps of tasks whose ids are not 0, on a mutex that
-- was new at the start, two tasks that both have the lock are one task.
pub mutual_exclusion :
    (recursive : Bool) (ts : List Task) (es : List Event) (p q : ℕ)
    → All (λ e. pid_of e ≢ 0) es
    → length es < 2 ^ 32
    → 0 < (run (start recursive ts) es).held p
    → 0 < (run (start recursive ts) es).held q
    → p ≡ q
mutual_exclusion recursive ts es p q z b hp hq =
    let v = run-Inv 0 (start recursive ts) es z (omega arith) init-Inv in
    ground (arith, v.counted p, v.counted q)
  where
    init-Inv : Inv 0 (start recursive ts)
    init-Inv =
        unfold init in
        record {
          counted = λ q. refl;
          taken = λ h. cc;
          free = λ h. refl;
          plain = λ h. omega arith;
          bound = omega arith;
        }

-- `owner` is 0 on a new recursive mutex, so that `lock` by task 0 returns true and leaves
-- the mutex unlocked, and the next task's `lock` returns true as well.
pub task_zero_excludes_no_one :
    (ts : List Task) (pid t1 t2 : ℕ)
    → pid ≢ 0
    → let w = run (start true ts) (locks 0 t1 ∷ locks pid t2 ∷ []) in
      (w.held 0 ≡ 1) × (w.held pid ≡ 1)
unfolding run step
task_zero_excludes_no_one ts pid t1 t2 z = unfold init lock attempt is_waiting in ground arith
