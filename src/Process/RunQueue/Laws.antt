-- ===== src/Process/RunQueue/Laws.antt =====
-- The run queues (kernel/smp/smp_scheduler.cpp): first in, first out, each processor by itself.
use wandos.Base.{
  ℕ, zero, suc, ◌+◌, ◌%◌, ◌^◌, ◌≤◌, ◌≡◌, ◌≢◌, ◌⊎◌, inl, inr, refl, sym, ap, ◌∙◌, List, [], ◌∷◌,
  arith, ltb, get_or, set, length, Bool-cases,
}
use wandos.Process.RunQueue.{
  RunQueue, new_queue, dequeued, load_balance, pick_next_task, busiest_from, find_busiest_cpu,
}

-- The tasks that wait for the processor `cpu`.
abbrev pub waiting : ℕ → List RunQueue → List ℕ
waiting cpu qs = (get_or qs cpu new_queue).runnable_list

-- The counter of the queue at `cpu` is right, as far as it goes.
abbrev pub Counted : ℕ → List RunQueue → Type 0
Counted cpu qs = (get_or qs cpu new_queue).nr_running ≡ length (waiting cpu qs) % 2 ^ 32

pub pick_next_task-empty :
    (idle cpu : ℕ) (qs : List RunQueue)
    → waiting cpu qs ≡ []
    → pick_next_task idle cpu qs ≡ (idle, qs)
unfolding pick_next_task load_balance
pick_next_task-empty idle cpu qs e = rw (e, pick_next_task) (rw (e, load_balance) refl)

pub pick_next_task-first :
    (idle cpu t : ℕ) (rest : List ℕ) (qs : List RunQueue)
    → waiting cpu qs ≡ t ∷ rest
    → pick_next_task idle cpu qs ≡ (t, set qs cpu (dequeued (get_or qs cpu new_queue) rest))
unfolding pick_next_task
pick_next_task-first idle cpu t rest qs e = rw (e, pick_next_task) refl

-- `load_balance`, which looks for work where a processor has none, looks in the same processor's
-- queue: however many tasks wait for others, the idle task is picked and nothing is moved.
pub pick_next_task-never_steals :
    (idle cpu other : ℕ) (qs : List RunQueue)
    → waiting cpu qs ≡ []
    → waiting other qs ≢ []
    → (pick_next_task idle cpu qs ≡ (idle, qs)) × (load_balance idle cpu qs ≡ (idle, qs))
unfolding load_balance
pick_next_task-never_steals idle cpu other qs e f =
    (pick_next_task-empty idle cpu qs e, rw (e, load_balance) refl)

all_below :
    (rq : RunQueue) (qs : List RunQueue) (most : ℕ)
    → rq.nr_running ≤ most
    → ((i : ℕ) → (get_or qs i new_queue).nr_running ≤ most)
    → (i : ℕ) → (get_or (rq ∷ qs) i new_queue).nr_running ≤ most
all_below rq qs most h k zero = h
all_below rq qs most h k (suc i) = k i

-- The loop from `cpu` on, over what is left of `all`: its result has the most tasks of the queues
-- that are left, and no fewer than `best`, which `chosen` has.
busiest_from_lem :
    (best chosen cpu : ℕ) (qs all : List RunQueue)
    → ((i : ℕ) → get_or qs i new_queue ≡ get_or all (cpu + i) new_queue)
    → (best ≡ 0) ⊎ ((get_or all chosen new_queue).nr_running ≡ best)
    → let most = (get_or all (busiest_from best chosen cpu qs) new_queue).nr_running in
      best ≤ most × ((i : ℕ) → (get_or qs i new_queue).nr_running ≤ most)
unfolding busiest_from
busiest_from_lem best chosen cpu [] all h b = (ground arith, λ i. omega arith)
busiest_from_lem best chosen cpu (rq ∷ qs) all h b =
    let here : rq ≡ get_or all cpu new_queue =
      h 0 ∙ ap (λ k. get_or all k new_queue) (omega arith) in
    let later : (i : ℕ) → get_or qs i new_queue ≡ get_or all (cpu + 1 + i) new_queue =
      λ i. h (suc i) ∙ ap (λ k. get_or all k new_queue) (omega arith) in
    elim (Bool-cases (ltb best rq.nr_running)) [
      | inl f ↦
          let r =
            busiest_from_lem rq.nr_running cpu (cpu + 1) qs all later
              (inr (ap (λ q. q.nr_running) (sym here))) in
          rw f (ground (arith, r.0), all_below rq qs _ r.0 r.1)
      | inr f ↦
          let r = busiest_from_lem best chosen (cpu + 1) qs all later b in
          rw f (r.0, all_below rq qs _ (ground (arith, r.0)) r.1)
    ]

-- No processor has more tasks in its queue than the one that `find_busiest_cpu` returns.
pub find_busiest_cpu_lem :
    (cpu : ℕ) (qs : List RunQueue)
    → (get_or qs cpu new_queue).nr_running ≤ (get_or qs (find_busiest_cpu qs) new_queue).nr_running
unfolding find_busiest_cpu
find_busiest_cpu_lem cpu qs =
    (busiest_from_lem 0 0 0 qs qs (λ i. ap (λ k. get_or qs k new_queue) (omega arith)) (inl refl)).1
      cpu
