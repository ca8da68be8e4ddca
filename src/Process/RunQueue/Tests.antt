-- ===== src/Process/RunQueue/Tests.antt =====
-- Runs of the model of the run queues, and its theorems at concrete inputs.
use wandos.Base.{ℕ, ◌≤◌, ◌++◌, ◌%◌, ◌^◌, length, ◌≡◌, ◌≢◌, refl, arith, List, [], ◌∷◌, get_or}
use wandos.Process.RunQueue.{
  RunQueue, new_queue, init, enqueue_task, pick_next_task, busiest_from, find_busiest_cpu,
}
use wandos.Process.RunQueue.Fifo.{
  Event, enqueues, picks, run, start, step, queued, Fresh, Within, run-fifo,
}
use wandos.Process.RunQueue.Laws.{waiting}

-- Of three processors, the second has two tasks and the third one.
abbrev loaded : List RunQueue
loaded =
    new_queue
    ∷ record { nr_running = 2; runnable_list = 5 ∷ 6 ∷ [] }
    ∷ record { nr_running = 1; runnable_list = 7 ∷ [] }
    ∷ []

built : enqueue_task 7 2 (enqueue_task 6 1 (enqueue_task 5 1 (init 3))) ≡ loaded
unfolding enqueue_task init
built = refl

picked : (pick_next_task 0 1 loaded).0 ≡ 5
unfolding pick_next_task
picked = refl

busiest : find_busiest_cpu loaded ≡ 1
unfolding find_busiest_cpu busiest_from
busiest = refl

some_wait : waiting 1 loaded ≢ []
some_wait = λ e. ground (arith, e)

-- Two tasks for the first processor, of which it picks one, and one for the second.
abbrev calls : List Event
calls = enqueues 0 5 ∷ enqueues 1 7 ∷ enqueues 0 6 ∷ picks 0 9 ∷ []

run-fifo_example :
    let w = run (start 2) calls in
    (w.entered 0 ≡ w.left 0 ++ waiting 0 w.queues)
    × ((get_or w.queues 0 new_queue).nr_running ≡ length (waiting 0 w.queues) % 2 ^ 32)
    × ((t : ℕ) → queued t w.queues ≤ 1)
unfolding Within Fresh queued step enqueue_task init
run-fifo_example =
    run-fifo 2 0 calls (omega arith, (omega arith, (omega arith, (omega arith, refl))))
      (refl, (refl, (refl, refl)))
