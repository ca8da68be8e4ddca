-- ===== src/LogBuffer.antt =====
-- lib/log_buffer.cpp, class LogBuffer. The buffer is a list of slots with indices from 0; the spin
-- lock that `enqueue` and `dequeue` hold makes each atomic. The processor's id and the ticks are
-- arguments, since other parts of the kernel give them.
use wandos.Base.{
  ℕ, zero, suc, ◌+◌, ◌-◌, ◌%◌, Bool, true, false, Option, none, some, List, [], ◌∷◌, leb, ◌==◌,
  if◌then◌else◌, get_or, set, take,
}
use wandos.Text.CString.{strncpy}
pub mod Refine
pub mod Tests

-- LOG_BUFFER_SIZE and MAX_LOG_MESSAGE_SIZE of include/lib/log_buffer.h
abbrev pub buffer_size : ℕ
buffer_size = 4096

abbrev pub max_message : ℕ
max_message = 512

pub record LogMessage : Type 0 where
  pub cpu_id : ℕ
  pub timestamp : ℕ
  pub level : ℕ
  pub message : List ℕ

pub record LogBuffer : Type 0 where
  pub buffer : List LogMessage
  pub head : ℕ
  pub tail : ℕ

abbrev pub no_message : LogMessage
no_message = record { cpu_id = 0; timestamp = 0; level = 0; message = [] }

-- `init` resets the two indices; what is in the slots stays.
pub init : LogBuffer → LogBuffer
init b = record b { head = 0; tail = 0 }

pub is_empty : LogBuffer → Bool
is_empty b = b.head == b.tail

pub is_full : LogBuffer → Bool
is_full b = (b.tail + 1) % buffer_size == b.head

-- `strncpy` of all but the last byte, and a 0 there.
pub copy_message : List ℕ → List ℕ → List ℕ
copy_message old text = set (strncpy old text (max_message - 1)) (max_message - 1) 0

-- The message that `enqueue` builds in the slot at `tail`.
pub filled : LogMessage → ℕ → ℕ → ℕ → List ℕ → LogMessage
unfolding copy_message
filled old cpu ticks level text = record {
  cpu_id = cpu;
  timestamp = ticks;
  level = level;
  message = copy_message old.message text;
}

-- A null message is `none`.
pub enqueue : LogBuffer → ℕ → ℕ → ℕ → Option (List ℕ) → Bool × LogBuffer
enqueue b cpu ticks level none = (false, b)
enqueue b cpu ticks level (some text) = if is_full b then (false, b) else (
  true,
  record b {
    buffer = set b.buffer b.tail (filled (get_or b.buffer b.tail no_message) cpu ticks level text);
    tail = (b.tail + 1) % buffer_size;
  },
)

-- The caller's message is `none` where it is not written.
pub dequeue : LogBuffer → Bool × Option LogMessage × LogBuffer
dequeue b = if is_empty b then (false, none, b) else (
  true,
  some (get_or b.buffer b.head no_message),
  record b { head = (b.head + 1) % buffer_size },
)

pub get_message_count : LogBuffer → ℕ
get_message_count b = if leb b.head b.tail then b.tail - b.head else buffer_size - b.head + b.tail
