-- ===== src/Process/RunQueue/Fifo.antt =====
-- Each processor's run queue (kernel/smp/smp_scheduler.cpp) hands out the tasks that were put in it,
-- each once and in their order, whatever the other processors do.
use wandos.Base.{
  ℕ, zero, suc, ◌⊎◌, ◌+◌, ◌≤◌, replicate, ◌%◌, ◌^◌, ◌<◌, ◌≡◌, ap, refl, length-replicate,
  get_or-replicate, sym, inl, inr, ◌∙◌, List, [], ◌∷◌, ◌++◌, arith, ◌==◌, if◌then◌else◌, get_or,
  set, length, length-set, length-append, get_or-set_self, get_or-set_ne, append_assoc, Bool-cases,
}
use wandos.Process.RunQueue.{RunQueue, new_queue, enqueue_task, pick_next_task, init, dequeued}
use wandos.Process.RunQueue.Laws.{waiting, pick_next_task-empty, pick_next_task-first}

-- A call by or for the processor `cpu`.
pub data Event : Type 0 where
  enqueues : (cpu task : ℕ) → Event
  picks : (cpu idle : ℕ) → Event

-- The queues, with what was put in each and what was taken out of it, idle tasks aside.
pub record World : Type 0 where
  pub queues : List RunQueue
  pub entered : ℕ → List ℕ
  pub left : ℕ → List ℕ

abbrev pub cpu_of : Event → ℕ
cpu_of (enqueues cpu task) = cpu
cpu_of (picks cpu idle) = cpu

abbrev pub added : ℕ → ℕ → (ℕ → List ℕ) → ℕ → List ℕ
added cpu t f q = if cpu == q then f q ++ t ∷ [] else f q

unfoldable pub step : World → Event → World
unfolding enqueue_task
step w (enqueues cpu t) = record {
  queues = enqueue_task t cpu w.queues;
  entered = added cpu t w.entered;
  left = w.left;
}
step w (picks cpu idle) =
    let r = pick_next_task idle cpu w.queues in
    record {
      queues = r.1;
      entered = w.entered;
      left = elim (waiting cpu w.queues) [ [] ↦ w.left | t ∷ rest ↦ added cpu r.0 w.left ];
    }

pub run : World → List Event → World
unfolding step
run w [] = w
run w (e ∷ es) = run (step w e) es

-- The calls are about the first `n` processors.
unfoldable pub Within : ℕ → List Event → Type 0
Within n [] = ◌≡◌ {A = ℕ} 0 0
Within n (e ∷ es) = cpu_of e < n × Within n es

-- How often a task waits, in one list and in all queues.
unfoldable pub occurrences : ℕ → List ℕ → ℕ
occurrences t [] = 0
occurrences t (x ∷ xs) = (if x == t then 1 else 0) + occurrences t xs

unfoldable pub queued : ℕ → List RunQueue → ℕ
unfolding occurrences
queued t [] = 0
queued t (rq ∷ qs) = occurrences t rq.runnable_list + queued t qs

-- The lists are linked through the tasks, so a task is put in a queue only while it is in none.
unfoldable pub Fresh : World → List Event → Type 0
Fresh w [] = ◌≡◌ {A = ℕ} 0 0
Fresh w (picks cpu idle ∷ es) = Fresh (step w (picks cpu idle)) es
Fresh w (enqueues cpu t ∷ es) = (queued t w.queues ≡ 0) × Fresh (step w (enqueues cpu t)) es

occurrences-append :
    (u t : ℕ) (xs : List ℕ)
    → occurrences u (xs ++ t ∷ []) ≡ occurrences u xs + (if t == u then 1 else 0)
unfolding occurrences
occurrences-append u t [] = omega arith
occurrences-append u t (x ∷ xs) = omega (arith, occurrences-append u t xs)

queued-set :
    (u cpu : ℕ) (rq : RunQueue) (qs : List RunQueue)
    → cpu < length qs
    → queued u (set qs cpu rq) + occurrences u (waiting cpu qs)
      ≡ queued u qs + occurrences u rq.runnable_list
unfolding queued
queued-set u cpu rq [] h = absurd (omega arith)
queued-set u zero rq (x ∷ qs) h = omega arith
queued-set u (suc cpu) rq (x ∷ qs) h = omega (arith, queued-set u cpu rq qs (omega arith))

pub record Inv (n : ℕ) (w : World) : Type 0 where
  pub queues_n : length w.queues ≡ n
  pub fifo : (q : ℕ) → w.entered q ≡ w.left q ++ waiting q w.queues
  pub counted :
      (q : ℕ) → (get_or w.queues q new_queue).nr_running ≡ length (waiting q w.queues) % 2 ^ 32
  pub once : (t : ℕ) → queued t w.queues ≤ 1

enqueues-Inv :
    (n : ℕ) (w : World) (cpu t : ℕ)
    → cpu < n
    → queued t w.queues ≡ 0
    → Inv n w
    → Inv n (step w (enqueues cpu t))
unfolding step enqueue_task
enqueues-Inv n w cpu t l fresh v = record {
  queues_n = length-set w.queues cpu new' ∙ v.queues_n;
  fifo = λ q. elim (Bool-cases (cpu == q)) [
    | inl e ↦
        let same : q ≡ cpu = ground arith in
        rw same (
          ground (
            arith,
            ap (λ r. r.runnable_list) here,
            v.fifo cpu,
            append_assoc (w.left cpu) (waiting cpu w.queues) (t ∷ []),
          ))
    | inr e ↦ ground (arith, e, v.fifo q, get_or-set_ne w.queues cpu q new' new_queue)
  ];
  counted = λ q. elim (Bool-cases (cpu == q)) [
    | inl e ↦
        let same : q ≡ cpu = ground arith in
        rw (same, ap (λ r. r.runnable_list) here, ap (λ r. r.nr_running) here, enqueue_task)
          (ground (arith, v.counted cpu, length-append (waiting cpu w.queues) (t ∷ [])))
    | inr e ↦ ground (arith, e, v.counted q, get_or-set_ne w.queues cpu q new' new_queue)
  ];
  once = λ u.
      let moved = queued-set u cpu new' w.queues (omega (arith, v.queues_n)) in
      let longer = occurrences-append u t (waiting cpu w.queues) in
      elim (Bool-cases (t == u)) [
        | inl e ↦
            let same : u ≡ t = ground arith in
            let none_yet : queued u w.queues ≡ 0 = rw same fresh in
            omega (arith, moved, rw e at longer, none_yet)
        | inr e ↦ omega (arith, moved, rw e at longer, v.once u)
      ];
}
  where
    new' : RunQueue
    new' = record {
      nr_running = ((get_or w.queues cpu new_queue).nr_running + 1) % 2 ^ 32;
      runnable_list = waiting cpu w.queues ++ t ∷ [];
    }

    here : get_or (set w.queues cpu new') cpu new_queue ≡ new'
    here = get_or-set_self w.queues cpu new' new_queue (omega (arith, v.queues_n))

occurrences-cons : (u t : ℕ) (ts : List ℕ) → occurrences u ts ≤ occurrences u (t ∷ ts)
unfolding occurrences
occurrences-cons u t ts = omega arith

-- The first task leaves the queue of `cpu`.
taken :
    (n : ℕ) (w : World) (cpu t : ℕ) (ts : List ℕ)
    → cpu < n
    → Inv n w
    → waiting cpu w.queues ≡ t ∷ ts
    → Inv n (record {
      queues = set w.queues cpu (dequeued (get_or w.queues cpu new_queue) ts);
      entered = w.entered;
      left = added cpu t w.left;
    })
unfolding dequeued
taken n w cpu t ts l v k = record {
  queues_n = length-set w.queues cpu new' ∙ v.queues_n;
  fifo = λ q. elim (Bool-cases (cpu == q)) [
    | inl e ↦
        let same : q ≡ cpu = ground arith in
        rw same (
          ground (
            arith,
            k,
            ap (λ r. r.runnable_list) here,
            v.fifo cpu,
            append_assoc (w.left cpu) (t ∷ []) ts,
          ))
    | inr e ↦ ground (arith, e, v.fifo q, get_or-set_ne w.queues cpu q new' new_queue)
  ];
  counted = λ q. elim (Bool-cases (cpu == q)) [
    | inl e ↦
        let same : q ≡ cpu = ground arith in
        let one : length (waiting cpu w.queues) ≡ suc (length ts) = ap length k in
        rw (same, ap (λ r. r.runnable_list) here, ap (λ r. r.nr_running) here)
          (omega (arith, v.counted cpu, one))
    | inr e ↦ ground (arith, e, v.counted q, get_or-set_ne w.queues cpu q new' new_queue)
  ];
  once = λ u.
      let moved = queued-set u cpu new' w.queues (omega (arith, v.queues_n)) in
      let more = occurrences-cons u t ts in omega (arith, rw k at moved, more, v.once u);
}
  where
    new' : RunQueue
    new' = dequeued (get_or w.queues cpu new_queue) ts

    here : get_or (set w.queues cpu new') cpu new_queue ≡ new'
    here = get_or-set_self w.queues cpu new' new_queue (omega (arith, v.queues_n))

list-cases : (xs : List ℕ) → (xs ≡ []) ⊎ ((t : ℕ) × (ts : List ℕ) × (xs ≡ t ∷ ts))
list-cases [] = inl refl
list-cases (t ∷ ts) = inr (t, ts, refl)

picks-Inv : (n : ℕ) (w : World) (cpu idle : ℕ) → cpu < n → Inv n w → Inv n (step w (picks cpu idle))
unfolding step
picks-Inv n w cpu idle l v = elim (list-cases (waiting cpu w.queues)) [
  | inl e ↦
      rw (e, pick_next_task-empty idle cpu w.queues e)
        (record { queues_n = v.queues_n; fifo = v.fifo; counted = v.counted; once = v.once })
  | inr (t, ts, e) ↦
      rw (e, pick_next_task-first idle cpu t ts w.queues e) (taken n w cpu t ts l v e)
]

run-Inv :
    (n : ℕ) (w : World) (es : List Event) → Within n es → Fresh w es → Inv n w → Inv n (run w es)
unfolding run Within Fresh
run-Inv n w [] i f v = v
run-Inv n w (enqueues cpu t ∷ es) i f v =
    run-Inv n (step w (enqueues cpu t)) es i.1 f.1 (enqueues-Inv n w cpu t i.0 f.0 v)
run-Inv n w (picks cpu idle ∷ es) i f v =
    run-Inv n (step w (picks cpu idle)) es i.1 f (picks-Inv n w cpu idle i.0 v)

queued-replicate : (u n : ℕ) → queued u (replicate n new_queue) ≡ 0
unfolding queued
queued-replicate u zero = refl
queued-replicate u (suc n) = omega (arith, queued-replicate u n)

abbrev pub start : ℕ → World
start n = record { queues = init n; entered = λ _. []; left = λ _. [] }

start-Inv : (n : ℕ) → Inv n (start n)
unfolding init
start-Inv n = record {
  queues_n = length-replicate n new_queue;
  fifo = λ q. sym (nobody q);
  counted = λ q. rw (nobody q, ap (λ r. r.nr_running) (get_or-replicate n q new_queue)) refl;
  once = λ u. omega (arith, queued-replicate u n);
}
  where
    nobody : (q : ℕ) → waiting q (init n) ≡ []
    nobody q = ap (λ r. r.runnable_list) (get_or-replicate n q new_queue)

-- After any interleaving of calls about `n` processors on new queues, in which no task is put in a
-- queue while it waits in one: what was put in the queue of a processor is what it has picked from
-- it, followed by what waits there, in the same order; the counter is the number of waiting tasks,
-- modulo 2 ^ 32; and no task waits in two places.
pub run-fifo :
    (n q : ℕ) (es : List Event)
    → Within n es
    → Fresh (start n) es
    → let w = run (start n) es in
      (w.entered q ≡ w.left q ++ waiting q w.queues)
      × ((get_or w.queues q new_queue).nr_running ≡ length (waiting q w.queues) % 2 ^ 32)
      × ((t : ℕ) → queued t w.queues ≤ 1)
run-fifo n q es h f =
    let v = run-Inv n (start n) es h f (start-Inv n) in (v.fifo q, v.counted q, v.once)
