-- ===== src/Process/Schedule/Turns.antt =====
-- The turns of the tasks of a processor (ProcessManager::schedule in kernel/process/process.cpp).
use wandos.Base.{
  ℕ, zero, suc, ◌<◌, ◌≡◌, refl, true, false, List, [], ◌∷◌, ◌++◌, arith, ◌==◌, length, length-set,
  set, get_or, get_or-set_self,
}
use wandos.Base.Chain.{update}
use wandos.Base.Int.{pos}
use wandos.Process.RunQueue.{RunQueue, new_queue, enqueue_task, pick_next_task, dequeued}
use wandos.Process.Schedule.{Cpu, default_time_slice, schedule}

-- `k` ticks.
pub ticks : ℕ → ℕ → ℕ → Cpu → Cpu
ticks zero cpu idle s = s
ticks (suc k) cpu idle s = ticks k cpu idle (schedule cpu idle s).1

-- The tasks that wait for the processor.
abbrev pub waiting : ℕ → Cpu → List ℕ
waiting cpu s = (get_or s.queues cpu new_queue).runnable_list

picked_head :
    (cpu idle t : ℕ) (rest : List ℕ) (qs : List RunQueue)
    → (get_or qs cpu new_queue).runnable_list ≡ t ∷ rest
    → pick_next_task idle cpu qs ≡ (t, set qs cpu (dequeued (get_or qs cpu new_queue) rest))
unfolding pick_next_task
picked_head cpu idle t rest qs e = rw (e, pick_next_task) refl

enqueued_list :
    (cpu p : ℕ) (rest : List ℕ) (q : RunQueue) (qs : List RunQueue)
    → cpu < length qs
    → (get_or (enqueue_task p cpu (set qs cpu (dequeued q rest))) cpu new_queue).runnable_list
      ≡ rest ++ p ∷ []
unfolding enqueue_task dequeued
enqueued_list cpu p rest q qs l =
    let there : cpu < length (set qs cpu (dequeued q rest)) =
      rw (length-set qs cpu (dequeued q rest)) l in
    rw
      (
        get_or-set_self (set qs cpu (dequeued q rest)) cpu _ new_queue there,
        get_or-set_self qs cpu (dequeued q rest) new_queue l,
      )
      refl

ticks_step :
    (k cpu idle : ℕ) (s : Cpu) → ticks (suc k) cpu idle s ≡ ticks k cpu idle (schedule cpu idle s).1
unfolding ticks
ticks_step k cpu idle s = refl

ticks_none : (cpu idle : ℕ) (s : Cpu) → ticks zero cpu idle s ≡ s
unfolding ticks
ticks_none cpu idle s = refl

module _ (cpu idle : ℕ) (s : Cpu) where
  runs_on :
      (k : ℕ)
      → s.time_slice s.current ≡ pos (suc (suc k))
      → (schedule cpu idle s).1
        ≡ record s { time_slice = update s.time_slice s.current (pos (suc k)) }
  unfolding schedule
  runs_on k left = rw left refl

  switches :
      (t : ℕ) (rest : List ℕ)
      → s.time_slice s.current ≡ pos (suc zero)
      → waiting cpu s ≡ t ∷ rest
      → (t == s.current) ≡ false
      → (schedule cpu idle s).1 ≡ record {
        current = t;
        time_slice =
            update (update s.time_slice s.current (pos zero)) s.current (pos default_time_slice);
        queues =
            enqueue_task s.current cpu
              (set s.queues cpu (dequeued (get_or s.queues cpu new_queue) rest));
      }
  unfolding schedule
  switches t rest left w other = rw (left, picked_head cpu idle t rest s.queues w, other) refl

-- With `k + 1` ticks left to the current task and others waiting, the first of these has the
-- processor after exactly these ticks; the task that had it waits behind all others, with a whole
-- time slice, and the order of the others is kept.
pub turn :
    (k cpu idle t : ℕ) (rest : List ℕ) (s : Cpu)
    → s.time_slice s.current ≡ pos (suc k)
    → waiting cpu s ≡ t ∷ rest
    → (t == s.current) ≡ false
    → cpu < length s.queues
    → let s' = ticks (suc k) cpu idle s in
      (s'.current ≡ t)
      × (waiting cpu s' ≡ rest ++ s.current ∷ [])
      × (s'.time_slice s.current ≡ pos default_time_slice)
turn zero cpu idle t rest s left w other l =
    let self : s.current == s.current ≡ true = ground arith in
    let list = enqueued_list cpu s.current rest (get_or s.queues cpu new_queue) s.queues l in
    rw
      (
        ticks_step zero cpu idle s,
        ticks_none cpu idle (schedule cpu idle s).1,
        switches cpu idle s t rest left w other,
      )
      (refl, list, rw self)
turn (suc k) cpu idle t rest s left w other l =
    let self : s.current == s.current ≡ true = ground arith in
    let s1 : Cpu = record s { time_slice = update s.time_slice s.current (pos (suc k)) } in
    let less : s1.time_slice s.current ≡ pos (suc k) = rw self in
    rw (ticks_step (suc k) cpu idle s, runs_on cpu idle s k left)
      (turn k cpu idle t rest s1 less w other l)
