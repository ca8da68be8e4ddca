-- ===== src/LogBuffer/Refine.antt =====
-- LogBuffer (lib/log_buffer.cpp) against a first-in, first-out queue of at most 4095 messages.
use wandos.Base.{
  ℕ, zero, suc, ◌+◌, ◌-◌, ◌%◌, ◌<◌, ◌≡◌, ◌≢◌, refl, ap, ◌∙◌, true, false, none, some, List, [], ◌∷◌,
  ◌++◌, arith, ◌==◌, get_or, set, length, length-set, get_or-set_self, get_or-set_ne, Bool-cases,
  inl, inr,
}
use mathlib.Core.Path.{ap₂}
use mathlib.Core.Logic.{◌⊎◌}
use wandos.LogBuffer.{
  LogMessage, LogBuffer, buffer_size, no_message, is_empty, is_full, filled, enqueue, dequeue,
  get_message_count,
}

pub record IsValid (b : LogBuffer) : Type 0 where
  pub slots : length b.buffer ≡ buffer_size
  pub head_in : b.head < buffer_size
  pub tail_in : b.tail < buffer_size

-- The `n` messages from index `h` on, going round.
abbrev pub window : List LogMessage → ℕ → ℕ → List LogMessage
window buf h zero = []
window buf h (suc n) = get_or buf h no_message ∷ window buf ((h + 1) % buffer_size) n

-- How many steps round the buffer lead from the head to the tail.
abbrev pub distance : ℕ → ℕ → ℕ
distance h t = (t + buffer_size - h) % buffer_size

-- The queue that a buffer stands for, oldest first.
abbrev pub contents : LogBuffer → List LogMessage
contents b = window b.buffer b.head (distance b.head b.tail)

length-window : (buf : List LogMessage) (h n : ℕ) → length (window buf h n) ≡ n
length-window buf h zero = refl
length-window buf h (suc n) = ap suc (length-window buf ((h + 1) % buffer_size) n)

-- Writing just past a window extends it by that message.
window-set :
    (buf : List LogMessage) (x : LogMessage) (n h i : ℕ)
    → length buf ≡ buffer_size
    → h < buffer_size
    → n < buffer_size
    → i ≡ (h + n) % buffer_size
    → window (set buf i x) h (suc n) ≡ window buf h n ++ x ∷ []
window-set buf x zero h i s hh hn e =
    let here : i ≡ h = omega arith in
    rw here (ap (λ m. m ∷ []) (get_or-set_self buf h x no_message (omega arith)))
window-set buf x (suc n) h i s hh hn e =
    ap₂ ◌∷◌ (get_or-set_ne buf i h x no_message (λ d. omega (arith, e, d)))
      (window-set buf x n ((h + 1) % buffer_size) i s (omega arith) (omega arith) (omega arith))

-- `get_message_count` is the number of messages in the queue.
pub get_message_count-contents :
    (b : LogBuffer) → IsValid b → get_message_count b ≡ length (contents b)
unfolding get_message_count
get_message_count-contents b v =
    ground (arith, length-window b.buffer b.head (distance b.head b.tail))

-- `enqueue` of a message puts it at the end of the queue and keeps the buffer valid; with 4095
-- messages in the queue, or for a null message, it returns false and changes nothing.
pub contents-enqueue :
    (b : LogBuffer) (cpu ticks level : ℕ) (text : List ℕ)
    → IsValid b
    → let new = filled (get_or b.buffer b.tail no_message) cpu ticks level text in
      let r = enqueue b cpu ticks level (some text) in
      IsValid r.1
      × (enqueue b cpu ticks level none ≡ (false, b))
      × (length (contents b) ≡ buffer_size - 1 → r ≡ (false, b))
      × (length (contents b) ≢ buffer_size - 1
          → (r.0 ≡ true) × (contents r.1 ≡ contents b ++ new ∷ []))
unfolding enqueue is_full
contents-enqueue b cpu ticks level text v =
    elim (Bool-cases ((b.tail + 1) % buffer_size == b.head)) [
      | inl f ↦ rw f (v, refl, λ h. refl, λ h. absurd (h (ground (arith, size))))
      | inr f ↦
          let next : distance b.head ((b.tail + 1) % buffer_size) ≡ suc (distance b.head b.tail) =
            ground arith in
          rw f (
            record {
              slots = length-set b.buffer b.tail new ∙ v.slots;
              head_in = v.head_in;
              tail_in = omega arith;
            },
            refl,
            (λ h. absurd (ground (arith, size))),
            λ h. (
              refl,
              rw next (
                  window-set b.buffer new (distance b.head b.tail) b.head b.tail v.slots v.head_in
                    (omega arith) (omega (arith, v.tail_in, v.head_in))),
            ),
          )
    ]
  where
    new : LogMessage
    new = filled (get_or b.buffer b.tail no_message) cpu ticks level text

    size : length (contents b) ≡ distance b.head b.tail
    size = length-window b.buffer b.head (distance b.head b.tail)

-- `dequeue` takes the oldest message off the queue and keeps the buffer valid; on an empty queue it
-- returns false and changes nothing.
pub contents-dequeue :
    (b : LogBuffer)
    → IsValid b
    → ((contents b ≡ []) × (dequeue b ≡ (false, none, b)))
      ⊎ (((dequeue b).0 ≡ true)
          × IsValid (dequeue b).2
          × ((m : LogMessage) × ((dequeue b).1 ≡ some m)
              × (contents b ≡ m ∷ contents (dequeue b).2)))
unfolding dequeue is_empty
contents-dequeue b v = elim (Bool-cases (b.head == b.tail)) [
  | inl f ↦
      let none_there : distance b.head b.tail ≡ 0 = ground arith in inl (rw none_there refl, rw f)
  | inr f ↦
      let one : distance b.head b.tail ≡ suc (distance ((b.head + 1) % buffer_size) b.tail) =
        ground arith in
      rw f (
        inr (
          refl,
          record { slots = v.slots; head_in = omega arith; tail_in = v.tail_in },
          (get_or b.buffer b.head no_message, refl, rw one refl),
        ))
]
