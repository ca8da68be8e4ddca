-- ===== src/Process/Mutex.antt =====
-- lib/mutex.cpp, class Mutex. The spin lock makes the code between its acquire and its release
-- atomic; `lock` gives it up only while the caller sleeps. So a call of `lock` is a first step and
-- one more step after each sleep of one tick, and other tasks' steps may come in between. The task
-- that calls is an argument; a call with no current task returns false (`none`).
use wandos.Base.{
  ℕ, zero, suc, ◌+◌, ◌-◌, ◌%◌, ◌^◌, Bool, true, false, ◌&&◌, ◌||◌, not, Option, none, some, List,
  [], ◌∷◌, ◌++◌, ltb, leb, ◌==◌, if◌then◌else◌,
}
pub mod Exclusion
pub mod Laws
pub mod Tests

-- The fields of class Mutex. `locked` is `state == MUTEX_LOCKED` and `recursive` is
-- `type == MUTEX_RECURSIVE`; `wait_list` has the waiters' task ids, the first to wake first.
pub record Mutex : Type 0 where
  pub locked : Bool
  pub owner : ℕ
  pub recursion : ℕ
  pub recursive : Bool
  pub wait_list : List ℕ

abbrev pub wait_forever : ℕ
wait_forever = 0xFFFFFFFF

pub init : Bool → Mutex
init recursive = record {
  locked = false;
  owner = 0;
  recursion = 0;
  recursive = recursive;
  wait_list = [];
}

-- What a step of `lock` ends in: the return value, or a sleep before which `elapsed` was counted up.
pub data Progress : Type 0 where
  acquired failed : Progress
  sleeping : ℕ → Progress

abbrev pub add_waiter : ℕ → Mutex → Mutex
add_waiter pid m = record m { wait_list = m.wait_list ++ pid ∷ [] }

-- `removeWaiter`: the first node with this task id.
pub remove_pid : ℕ → List ℕ → List ℕ
remove_pid pid [] = []
remove_pid pid (q ∷ qs) = if q == pid then qs else q ∷ remove_pid pid qs

-- `wouldDeadlock`
pub is_waiting : ℕ → List ℕ → Bool
is_waiting pid [] = false
is_waiting pid (q ∷ qs) = q == pid || is_waiting pid qs

-- The head of the loop in `lock`, and what follows the loop.
pub attempt : ℕ → ℕ → ℕ → Mutex → Progress × Mutex
attempt pid timeout elapsed m =
    if m.locked
    then (if timeout == 0 || not (timeout == wait_forever) && leb timeout elapsed
        then (failed, m)
        else (sleeping ((elapsed + 1) % 2 ^ 32), add_waiter pid m))
    else (acquired, record m { locked = true; owner = pid; recursion = 1 })

pub lock : Option ℕ → ℕ → Mutex → Progress × Mutex
unfolding attempt is_waiting
lock none timeout m = (failed, m)
lock (some pid) timeout m =
    if is_waiting pid m.wait_list
    then (failed, m)
    else if m.recursive && m.owner == pid
    then (acquired, record m { recursion = (m.recursion + 1) % 2 ^ 32 })
    else attempt pid timeout 0 m

-- After the sleep.
pub resume : ℕ → ℕ → ℕ → Mutex → Progress × Mutex
unfolding attempt remove_pid
resume pid timeout elapsed m =
    attempt pid timeout elapsed (record m { wait_list = remove_pid pid m.wait_list })

pub try_lock : Option ℕ → Mutex → Progress × Mutex
unfolding lock
try_lock current m = lock current 0 m

-- The part of a task control block that `wakeNextWaiter` writes.
pub record Task : Type 0 where
  pub task_id : ℕ
  pub ready : Bool
  pub sleep_ticks : ℕ

-- The loop over the ring of tasks, from the current one on.
pub wake : ℕ → List Task → List Task
wake pid [] = []
wake pid (t ∷ ts) =
    if t.task_id == pid then record t { ready = true; sleep_ticks = 0 } ∷ ts else t ∷ wake pid ts

pub wake_next_waiter : Mutex → List Task → Mutex × List Task
unfolding wake
wake_next_waiter m ts = elim m.wait_list [
  | [] ↦ (m, ts)
  | pid ∷ rest ↦ (record m { wait_list = rest }, wake pid ts)
]

pub unlock : Option ℕ → Mutex → List Task → Bool × Mutex × List Task
unfolding wake_next_waiter
unlock none m ts = (false, m, ts)
unlock (some pid) m ts =
    if not (m.owner == pid)
    then (false, m, ts)
    else if m.recursive && ltb 1 m.recursion
    then (true, record m { recursion = m.recursion - 1 }, ts)
    else let woken = wake_next_waiter (record m { locked = false; owner = 0; recursion = 0 }) ts in
      (true, woken.0, woken.1)

pub is_locked : Mutex → Bool
is_locked m = m.locked

pub get_owner : Mutex → ℕ
get_owner m = m.owner
