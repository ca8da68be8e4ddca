-- ===== src/Process/Mutex/Laws.antt =====
-- How calls of `lock` end while the mutex (lib/mutex.cpp) stays locked, and whom `unlock` wakes.
use wandos.Base.{
  ℕ, zero, suc, ◌+◌, ◌-◌, ◌%◌, ◌^◌, ◌≤◌, ◌<◌, ◌≡◌, ◌≢◌, refl, ap, ◌∙◌, true, false, Option, none,
  some, List, [], ◌∷◌, ◌++◌, arith, inl, inr, dec_lt, ◌⊎◌, Bool-cases, if◌then◌else◌, ◌&&◌, ◌==◌,
}
use wandos.Process.Mutex.{
  Mutex, wait_forever, Progress, acquired, failed, sleeping, attempt, lock, resume, add_waiter,
  remove_pid, is_waiting, Task, wake, wake_next_waiter, unlock,
}

-- A call of `lock` from a step's result to its end, when no other task's step comes in between:
-- `none` means that the rounds, one sleep each, ran out.
pub finish : ℕ → ℕ → ℕ → Progress → Mutex → Option (Progress × Mutex)
finish fuel pid timeout acquired m = some (acquired, m)
finish fuel pid timeout failed m = some (failed, m)
finish zero pid timeout (sleeping k) m = none
finish (suc fuel) pid timeout (sleeping k) m =
    let r = resume pid timeout k m in finish fuel pid timeout r.0 r.1

finish-failed :
    (fuel pid timeout : ℕ) (m : Mutex) → finish fuel pid timeout failed m ≡ some (failed, m)
unfolding finish
finish-failed zero pid timeout m = refl
finish-failed (suc fuel) pid timeout m = refl

finish-acquired :
    (fuel pid timeout : ℕ) (m : Mutex) → finish fuel pid timeout acquired m ≡ some (acquired, m)
unfolding finish
finish-acquired zero pid timeout m = refl
finish-acquired (suc fuel) pid timeout m = refl

remove_pid-append :
    (pid : ℕ) (qs : List ℕ) → is_waiting pid qs ≡ false → remove_pid pid (qs ++ pid ∷ []) ≡ qs
unfolding remove_pid is_waiting
remove_pid-append pid [] h = ground arith
remove_pid-append pid (q ∷ qs) h = ground (arith, remove_pid-append pid qs)

-- After its sleep the caller finds the mutex as it was before it queued up.
resume-add_waiter :
    (pid timeout k : ℕ) (m : Mutex)
    → is_waiting pid m.wait_list ≡ false
    → resume pid timeout k (add_waiter pid m) ≡ attempt pid timeout k m
unfolding resume
resume-add_waiter pid timeout k m h =
    ap (λ qs. attempt pid timeout k (record m { wait_list = qs }))
      (remove_pid-append pid m.wait_list h)

attempt-sleeping :
    (pid timeout k : ℕ) (m : Mutex)
    → m.locked ≡ true
    → 0 < timeout
    → (timeout ≡ wait_forever) ⊎ (k < timeout)
    → attempt pid timeout k m ≡ (sleeping ((k + 1) % 2 ^ 32), add_waiter pid m)
unfolding attempt
attempt-sleeping pid timeout k m l z h = ground arith

attempt-failed :
    (pid timeout k : ℕ) (m : Mutex)
    → m.locked ≡ true
    → timeout < wait_forever
    → timeout ≤ k
    → attempt pid timeout k m ≡ (failed, m)
unfolding attempt
attempt-failed pid timeout k m l t h = ground arith

-- One more round.
finish-sleeping :
    (fuel pid timeout k : ℕ) (m : Mutex)
    → m.locked ≡ true
    → is_waiting pid m.wait_list ≡ false
    → 0 < timeout
    → (timeout ≡ wait_forever) ⊎ (k < timeout)
    → (let r = attempt pid timeout k m in finish (suc fuel) pid timeout r.0 r.1)
      ≡ (let r = attempt pid timeout ((k + 1) % 2 ^ 32) m in finish fuel pid timeout r.0 r.1)
unfolding finish
finish-sleeping fuel pid timeout k m l w z h = rw (attempt-sleeping pid timeout k m l z h) (
    ap (λ (r : Progress × Mutex). finish fuel pid timeout r.0 r.1)
      (resume-add_waiter pid timeout ((k + 1) % 2 ^ 32) m w))

-- From the head of the loop, with a timeout: the ticks that are left are enough rounds.
finish-attempt_timeout :
    (fuel pid timeout k : ℕ) (m : Mutex)
    → m.locked ≡ true
    → is_waiting pid m.wait_list ≡ false
    → timeout < wait_forever
    → k ≤ timeout
    → timeout - k ≤ fuel
    → (let r = attempt pid timeout k m in finish fuel pid timeout r.0 r.1) ≡ some (failed, m)
finish-attempt_timeout zero pid timeout k m l w t h f =
    rw (attempt-failed pid timeout k m l t (omega arith)) (unfold finish in refl)
finish-attempt_timeout (suc fuel) pid timeout k m l w t h f = elim (dec_lt k timeout) [
  | no c ↦ rw (attempt-failed pid timeout k m l t (omega arith)) (unfold finish in refl)
  | yes c ↦
      let small : (k + 1) % 2 ^ 32 ≡ k + 1 = omega arith in
      finish-sleeping fuel pid timeout k m l w (omega arith) (inr c)
      ∙ rw small
          (finish-attempt_timeout fuel pid timeout (k + 1) m l w t (omega arith) (omega arith))
]

-- With no timeout it does not return, after any number of rounds.
pub finish-forever :
    (fuel pid k : ℕ) (m : Mutex)
    → m.locked ≡ true
    → is_waiting pid m.wait_list ≡ false
    → (let r = attempt pid wait_forever k m in finish fuel pid wait_forever r.0 r.1) ≡ none
finish-forever zero pid k m l w =
    rw (attempt-sleeping pid wait_forever k m l (omega arith) (inl refl)) (unfold finish in refl)
finish-forever (suc fuel) pid k m l w =
    finish-sleeping fuel pid wait_forever k m l w (omega arith) (inl refl)
    ∙ finish-forever fuel pid ((k + 1) % 2 ^ 32) m l w

lock-plain :
    (m : Mutex) (pid timeout : ℕ)
    → m.recursive ≡ false
    → is_waiting pid m.wait_list ≡ false
    → lock (some pid) timeout m ≡ attempt pid timeout 0 m
unfolding lock
lock-plain m pid timeout p w = ground arith

-- The three ways through `lock` from its start: a caller that is in the queue, the owner of a
-- recursive mutex, and every other caller, which comes to the loop.
lock_cases :
    (m : Mutex) (pid timeout : ℕ)
    → lock (some pid) timeout m ≡ (
        if is_waiting pid m.wait_list
        then (failed, m)
        else if m.recursive && m.owner == pid
        then (acquired, record m { recursion = (m.recursion + 1) % 2 ^ 32 })
        else attempt pid timeout 0 m)
unfolding lock
lock_cases m pid timeout = refl

-- `lock` with a timeout, on a locked mutex, when no other task's step comes in between: it returns,
-- after at most `timeout` sleeps of one tick. A caller that is in the queue already gets false at
-- once, and the owner of a recursive mutex gets true at once, with one more level of recursion; any
-- other caller gets false. But for that level the mutex and its queue are as they were.
pub finish-lock_timeout :
    (m : Mutex) (pid timeout : ℕ)
    → m.locked ≡ true
    → timeout < wait_forever
    → (let r = lock (some pid) timeout m in finish timeout pid timeout r.0 r.1)
      ≡ some (
          if is_waiting pid m.wait_list
          then (failed, m)
          else if m.recursive && m.owner == pid
          then (acquired, record m { recursion = (m.recursion + 1) % 2 ^ 32 })
          else (failed, m))
finish-lock_timeout m pid timeout l t = elim (Bool-cases (is_waiting pid m.wait_list)) [
  | inl w ↦ rw (lock_cases m pid timeout) (rw w (finish-failed timeout pid timeout m))
  | inr w ↦ elim (Bool-cases (m.recursive && m.owner == pid)) [
    | inl o ↦ rw (lock_cases m pid timeout) (rw (w, o) (finish-acquired timeout pid timeout _))
    | inr o ↦ rw (lock_cases m pid timeout) (
        rw (w, o)
          (finish-attempt_timeout timeout pid timeout 0 m l w t (omega arith) (omega arith)))
  ]
]

-- The owner of a mutex that is not recursive, which locks it again with no timeout, hangs: it is
-- in no queue, so the test for a deadlock does not see it.
pub lock_again_hangs :
    (m : Mutex) (fuel : ℕ)
    → m.locked ≡ true
    → m.recursive ≡ false
    → is_waiting m.owner m.wait_list ≡ false
    → (let r = lock (some m.owner) wait_forever m in finish fuel m.owner wait_forever r.0 r.1)
      ≡ none
lock_again_hangs m fuel l p w =
    rw (lock-plain m m.owner wait_forever p w) (finish-forever fuel m.owner 0 m l w)

-- `unlock` by the owner, when it gives the lock up, takes the first waiter off the queue and makes
-- the first task with its id ready; by another task it changes nothing and returns false.
pub unlock_lem :
    (m : Mutex) (pid w : ℕ) (ws : List ℕ) (ts : List Task)
    → (m.owner ≢ pid → unlock (some pid) m ts ≡ (false, m, ts))
      × (m.owner ≡ pid
          → (m.recursive ≡ false) ⊎ (m.recursion ≤ 1)
          → m.wait_list ≡ w ∷ ws
          → unlock (some pid) m ts ≡ (
            true,
            record m { locked = false; owner = 0; recursion = 0; wait_list = ws },
            wake w ts,
          ))
unfolding unlock wake_next_waiter
unlock_lem m pid w ws ts = (λ h. ground arith, λ h r e. ground (arith, e))
