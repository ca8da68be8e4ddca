-- ===== src/Process/RunQueue.antt =====
-- kernel/smp/smp_scheduler.cpp: the run queues of the processors. `scheduler_runqueue` is a list, with
-- a queue for each processor; the one that a call runs on is an argument. A task is its id. The spin
-- lock that each function holds makes it atomic. In the code a list is linked through the tasks
-- themselves, so it is this list as long as no task is put in a queue while it waits in one.
use wandos.Base.{
  ℕ, zero, suc, ◌+◌, ◌-◌, ◌%◌, ◌^◌, List, [], ◌∷◌, ◌++◌, ltb, if◌then◌else◌, get_or, set, replicate,
}
pub mod Fifo
pub mod Laws
pub mod Tests

pub record RunQueue : Type 0 where
  pub nr_running : ℕ
  pub runnable_list : List ℕ

abbrev pub new_queue : RunQueue
new_queue = record { nr_running = 0; runnable_list = [] }

-- `init`, for `cpus` processors: their queues. The idle tasks are arguments below.
pub init : ℕ → List RunQueue
init cpus = replicate cpus new_queue

-- `enqueue_task`, by a processor or for the processor `cpu`.
unfoldable pub enqueue_task : ℕ → ℕ → List RunQueue → List RunQueue
enqueue_task p cpu qs =
    let rq = get_or qs cpu new_queue in
    set qs cpu (record {
      nr_running = (rq.nr_running + 1) % 2 ^ 32;
      runnable_list = rq.runnable_list ++ p ∷ [];
    })

-- What `load_balance` and `pick_next_task` do where the list is not empty: the first task leaves it.
-- `--` on a `uint32_t` wraps.
unfoldable pub dequeued : RunQueue → List ℕ → RunQueue
dequeued rq rest = record {
  nr_running = (rq.nr_running + 2 ^ 32 - 1) % 2 ^ 32;
  runnable_list = rest;
}

-- The queue is again that of the processor `cpu`; `idle` is its idle task.
pub load_balance : ℕ → ℕ → List RunQueue → ℕ × List RunQueue
unfolding dequeued
load_balance idle cpu qs =
    let rq = get_or qs cpu new_queue in
    elim rq.runnable_list [ [] ↦ (idle, qs) | t ∷ rest ↦ (t, set qs cpu (dequeued rq rest)) ]

unfoldable pub pick_next_task : ℕ → ℕ → List RunQueue → ℕ × List RunQueue
unfolding dequeued load_balance
pick_next_task idle cpu qs =
    let rq = get_or qs cpu new_queue in
    elim rq.runnable_list [
      | [] ↦ load_balance idle cpu qs
      | t ∷ rest ↦ (t, set qs cpu (dequeued rq rest))
    ]

-- The loop of `find_busiest_cpu` over the queues from `cpu` on, with its two variables.
pub busiest_from : ℕ → ℕ → ℕ → List RunQueue → ℕ
busiest_from max_tasks busiest_cpu cpu [] = busiest_cpu
busiest_from max_tasks busiest_cpu cpu (rq ∷ qs) =
    if ltb max_tasks rq.nr_running
    then busiest_from rq.nr_running cpu (cpu + 1) qs
    else busiest_from max_tasks busiest_cpu (cpu + 1) qs

pub find_busiest_cpu : List RunQueue → ℕ
unfolding busiest_from
find_busiest_cpu qs = busiest_from 0 0 0 qs
