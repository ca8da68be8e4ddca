-- ===== src/LogBuffer/Tests.antt =====
-- Runs of the model of LogBuffer (lib/log_buffer.cpp), and its theorems at concrete inputs.
use wandos.Base.{
  ◌∙◌, ◌-◌, ◌≡◌, ◌≢◌, true, false, none, some, arith, [], ◌∷◌, ◌++◌, length, length-replicate,
  length-set, replicate, set, get_or,
}
use wandos.LogBuffer.{LogBuffer, LogMessage, buffer_size, no_message, filled, enqueue}
use wandos.LogBuffer.Refine.{IsValid, contents, contents-enqueue}

abbrev hello : LogMessage
hello = record { cpu_id = 1; timestamp = 7; level = 2; message = 104 ∷ 105 ∷ 0 ∷ [] }

-- One message in the last slot, so that the next index is 0.
abbrev one_message : LogBuffer
one_message = record { buffer = set (replicate 4096 no_message) 4095 hello; head = 4095; tail = 0 }

one_message-IsValid : IsValid one_message
one_message-IsValid = record {
  slots = length-set (replicate 4096 no_message) 4095 hello ∙ length-replicate 4096 no_message;
  head_in = omega arith;
  tail_in = omega arith;
}

contents-enqueue_example :
    let new = filled (get_or one_message.buffer 0 no_message) 3 9 1 (111 ∷ 107 ∷ 0 ∷ []) in
    let r = enqueue one_message 3 9 1 (some (111 ∷ 107 ∷ 0 ∷ [])) in
    IsValid r.1
    × (enqueue one_message 3 9 1 none ≡ (false, one_message))
    × (length (contents one_message) ≡ buffer_size - 1 → r ≡ (false, one_message))
    × (length (contents one_message) ≢ buffer_size - 1
        → (r.0 ≡ true) × (contents r.1 ≡ contents one_message ++ new ∷ []))
contents-enqueue_example =
    contents-enqueue one_message 3 9 1 (111 ∷ 107 ∷ 0 ∷ []) one_message-IsValid
