-- ===== src/Process/Pid/Laws.antt =====
-- What PidManager::alloc and PidManager::free of kernel/process/process.cpp do to the numbers taken.
use wandos.Base.{
  ℕ, zero, suc, ◌+◌, ◌-◌, ◌/◌, ◌%◌, ◌≤◌, ◌<◌, ◌≡◌, refl, ap, ◌∙◌, ◌⊎◌, inl, inr, Bool, true, false,
  ◌||◌, Option, none, some, [], ◌∷◌, arith, ltb, ◌==◌, if◌then◌else◌, get_or, set, replicate,
  length, length-set, All-set, get_or-set_self, get_or-set_ne, Option-cases, Bool-cases,
  length-replicate, get_or-replicate, ℕ_discrete, ℕ_discrete,
}
use wandos.Process.Pid.{
  Word, Bitmap, max_pid, initialize, find_clear, alloc_words, alloc, free, is_taken,
}
use wandos.Process.Pid.Search.{Words, alloc_words-Allocates}

-- A bitmap for all numbers.
pub record IsValid (b : Bitmap) : Type 0 where
  pub words : Words b
  pub shape : length b ≡ 1024

word_at : (b : Bitmap) (i : ℕ) → Words b → i < length b → length (get_or b i []) ≡ 32
word_at [] i h l = absurd (omega arith)
word_at (w ∷ b) zero h l = h.0
word_at (w ∷ b) (suc i) h l = word_at b i h.1 (omega arith)

-- `alloc` returns the lowest number below 32768 that is not taken, and takes it and no other; it
-- returns -1, and changes nothing, exactly when all 32768 are taken.
pub alloc_lem :
    (b : Bitmap)
    → IsValid b
    → ((alloc b ≡ (none, b)) × ((p : ℕ) → p < 32768 → is_taken b p ≡ true))
      ⊎ ((p : ℕ) × ((alloc b).0 ≡ some p)
          × (p < 32768)
          × (is_taken b p ≡ false)
          × ((q : ℕ) → q < p → is_taken b q ≡ true)
          × ((q : ℕ) → is_taken (alloc b).1 q ≡ (if q == p then true else is_taken b q)))
unfolding alloc
alloc_lem b v = elim (alloc_words-Allocates 0 b v.words) [
  | inl (e, full) ↦ inl (e, λ p h. full p (omega (arith, v.shape)))
  | inr (p, e, inside, clear, below, changed) ↦
      inr (p, e ∙ ap some (omega arith), omega (arith, v.shape), clear, below, changed)
]

-- Writing one bit.
write_bit :
    (b : Bitmap) (p q : ℕ) (x : Bool)
    → IsValid b
    → p < 32768
    → is_taken (set b (p / 32) (set (get_or b (p / 32) []) (p % 32) x)) q
      ≡ (if q == p then x else is_taken b q)
unfolding is_taken
write_bit b p q x v h = elim (ℕ_discrete (p / 32) (q / 32)) [
  | yes e ↦ elim (ℕ_discrete (p % 32) (q % 32)) [
    | yes f ↦ ground (
      arith,
      get_or-set_self b (p / 32) word [],
      get_or-set_self (get_or b (p / 32) []) (p % 32) x false,
      word_length,
      v.shape,
    )
    | no f ↦ ground (
      arith,
      get_or-set_self b (p / 32) word [],
      get_or-set_ne (get_or b (p / 32) []) (p % 32) (q % 32) x false,
      v.shape,
    )
  ]
  | no e ↦ ground (arith, get_or-set_ne b (p / 32) (q / 32) word [])
]
  where
    word : Word
    word = set (get_or b (p / 32) []) (p % 32) x

    word_length : length (get_or b (p / 32) []) ≡ 32
    word_length = word_at b (p / 32) v.words (omega (arith, v.shape))

-- `free pid` gives back the number before `pid`, for every `pid` from 1 to 32768, and no other.
pub free_lem :
    (pid q : ℕ) (b : Bitmap)
    → IsValid b
    → 0 < pid
    → pid ≤ 32768
    → is_taken (free pid b) q ≡ (if q + 1 == pid then false else is_taken b q)
unfolding free
free_lem pid q b v h k = ground (arith, write_bit b (pid - 1) q false v)

alloc_words-Words :
    (i : ℕ) (ws : Bitmap)
    → Words ws
    → Words (alloc_words i ws).1 × (length (alloc_words i ws).1 ≡ length ws)
unfolding alloc_words
alloc_words-Words i [] h = (tt, refl)
alloc_words-Words i (w ∷ ws) h = elim (Option-cases (find_clear w)) [
  | inl e ↦ ground (arith, alloc_words-Words (i + 1) ws h.1)
  | inr (j, e) ↦ ground (arith, alloc_words-Words (i + 1) ws h.1, length-set w j true)
]

pub alloc-IsValid : (b : Bitmap) → IsValid b → IsValid (alloc b).1
unfolding alloc
alloc-IsValid b v =
    let kept = alloc_words-Words 0 b v.words in record { words = kept.0; shape = kept.1 ∙ v.shape }

pub free-IsValid : (pid : ℕ) (b : Bitmap) → IsValid b → IsValid (free pid b)
unfolding free
free-IsValid pid b v = elim (Bool-cases (pid == 0 || ltb max_pid pid)) [
  | inl e ↦ rw e v
  | inr e ↦ rw e (record {
    words =
        All-set (λ w. length w ≡ 32) b i new v.words
          (length-set (get_or b i []) ((pid - 1) % 32) false
            ∙ word_at b i v.words (omega (arith, v.shape, small e)));
    shape = length-set b i new ∙ v.shape;
  })
]
  where
    i : ℕ
    i = (pid - 1) / 32

    new : Word
    new = set (get_or b i []) ((pid - 1) % 32) false

    small : (pid == 0 || ltb max_pid pid) ≡ false → pid - 1 < 32768
    small e = ground arith

initial_bits :
    (n m p j : ℕ) → get_or (get_or (replicate n (replicate m false)) p []) j false ≡ false
initial_bits zero m p j = refl
initial_bits (suc n) m zero j = get_or-replicate m j false
initial_bits (suc n) m (suc p) j = initial_bits n m p j

initial-Words : (n : ℕ) → Words (replicate n (replicate 32 false))
initial-Words zero = tt
initial-Words (suc n) = (refl, initial-Words n)

free_zero : (p : ℕ) (b : Bitmap) → p ≡ 0 → free p b ≡ b
unfolding free
free_zero p b z = ground arith

-- `free` does not undo `alloc`: the number that `alloc` has just returned stays taken, and, if
-- it is not 0, the number before it, which was taken, is free.
pub free-alloc :
    (b : Bitmap) (p : ℕ)
    → IsValid b
    → (alloc b).0 ≡ some p
    → (is_taken (free p (alloc b).1) p ≡ true)
      × (0 < p → (is_taken b (p - 1) ≡ true) × (is_taken (free p (alloc b).1) (p - 1) ≡ false))
free-alloc b p v e = elim (alloc_lem b v) [
  | inl (f, full) ↦ cc (ap (λ (r : Option ℕ × Bitmap). r.0) f)
  | inr (q, f, inside, clear, below, changed) ↦
      let same : p ≡ q = ground arith in
      elim (ℕ_discrete p 0) [
        | yes z ↦
            (rw (free_zero p (alloc b).1 z) (ground (arith, changed p)), λ h. absurd (omega arith))
        | no z ↦
            let lem =
              free_lem p (p - 1) (alloc b).1 (alloc-IsValid b v) (omega arith) (omega arith) in
            (
              ground (
                arith,
                free_lem p p (alloc b).1 (alloc-IsValid b v) (omega arith) (omega arith),
                changed p,
              ),
              λ h. (below (p - 1) (omega arith), ground (arith, lem)),
            )
      ]
]

-- At the start no number is taken.
pub initialize_lem : IsValid initialize × ((p : ℕ) → is_taken initialize p ≡ false)
unfolding initialize is_taken
initialize_lem = (
  record { words = initial-Words 1024; shape = length-replicate 1024 (replicate 32 false) },
  λ p. initial_bits 1024 32 (p / 32) (p % 32),
)
