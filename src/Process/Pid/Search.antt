-- ===== src/Process/Pid/Search.antt =====
-- The search of PidManager::alloc (kernel/process/process.cpp) for a clear bit.
use wandos.Base.{
  ℕ, zero, suc, ◌+◌, ◌-◌, ◌*◌, ◌/◌, ◌%◌, ◌≤◌, ◌<◌, ◌≡◌, refl, ap, ◌∙◌, ◌⊎◌, inl, inr, true, false,
  Option, none, some, [], ◌∷◌, arith, ◌==◌, if◌then◌else◌, get_or, set, length, All,
  get_or-set_self, get_or-set_ne, Option-cases, Bool-cases, dec_lt,
}
use wandos.Process.Pid.{Word, Bitmap, all_set, find_clear, alloc_words, is_taken}

-- Every word has 32 bits.
abbrev pub Words : Bitmap → Type 0
Words = All (λ w. length w ≡ 32)

find_clear-none : (w : Word) (j : ℕ) → find_clear w ≡ none → j < length w → get_or w j false ≡ true
unfolding find_clear
find_clear-none [] j e h = absurd (omega arith)
find_clear-none (true ∷ w) zero e h = refl
find_clear-none (true ∷ w) (suc j) e h = ground (arith, find_clear-none w j)
find_clear-none (false ∷ w) j e h = cc

all_set-find_clear : (w : Word) → all_set w ≡ true → find_clear w ≡ none
unfolding all_set find_clear
all_set-find_clear [] e = refl
all_set-find_clear (true ∷ w) e = ground (arith, all_set-find_clear w)
all_set-find_clear (false ∷ w) e = cc

-- The first clear bit: the bits below it are set.
record Clear (w : Word) (j : ℕ) : Type 0 where
  inside : j < length w
  clear : get_or w j false ≡ false
  below : (i : ℕ) → i < j → get_or w i false ≡ true

find_clear-Clear : (w : Word) (j : ℕ) → find_clear w ≡ some j → Clear w j
unfolding find_clear
find_clear-Clear [] j e = cc
find_clear-Clear (false ∷ w) zero e = record {
  inside = omega arith;
  clear = refl;
  below = λ i h. absurd (omega arith);
}
find_clear-Clear (false ∷ w) (suc j) e = cc
find_clear-Clear (true ∷ w) zero e = ground arith
find_clear-Clear (true ∷ w) (suc j) e =
    let c : Clear w j = find_clear-Clear w j (ground arith) in
    record { inside = omega (arith, c.inside); clear = c.clear; below = below' c }
  where
    below' : Clear w j → (i : ℕ) → i < suc j → get_or (true ∷ w) i false ≡ true
    below' c zero h = refl
    below' c (suc i) h = c.below i (omega arith)

-- What a search from word `i` of the words `ws` gives: the lowest number that is not taken, and
-- then its bit is set and no other changes; or nothing, if all are taken.
abbrev pub Allocates : ℕ → Bitmap → Option ℕ × Bitmap → Type 0
Allocates i ws r =
    ((r ≡ (none, ws)) × ((p : ℕ) → p < 32 * length ws → is_taken ws p ≡ true))
    ⊎ ((p : ℕ) × (r.0 ≡ some (i * 32 + p))
        × (p < 32 * length ws)
        × (is_taken ws p ≡ false)
        × ((q : ℕ) → q < p → is_taken ws q ≡ true)
        × ((q : ℕ) → is_taken r.1 q ≡ (if q == p then true else is_taken ws q)))

taken_head : (w : Word) (ws : Bitmap) (q : ℕ) → q < 32 → is_taken (w ∷ ws) q ≡ get_or w q false
unfolding is_taken
taken_head w ws q h =
    let d : q / 32 ≡ 0 = omega arith in let m : q % 32 ≡ q = omega arith in rw (d, m)

taken_tail : (w : Word) (ws : Bitmap) (q : ℕ) → 32 ≤ q → is_taken (w ∷ ws) q ≡ is_taken ws (q - 32)
unfolding is_taken
taken_tail w ws q h =
    let d : q / 32 ≡ suc ((q - 32) / 32) = omega arith in
    let m : q % 32 ≡ (q - 32) % 32 = omega arith in rw (d, m)

-- The number is in the first word.
here :
    (i j : ℕ) (w : Word) (ws : Bitmap)
    → length w ≡ 32
    → Clear w j
    → Allocates i (w ∷ ws) (some (i * 32 + j), set w j true ∷ ws)
here i j w ws l c = inr (
  j,
  refl,
  omega (arith, c.inside),
  taken_head w ws j (omega (arith, c.inside)) ∙ c.clear,
  (λ q h. taken_head w ws q (omega (arith, c.inside)) ∙ c.below q h),
  changed,
)
  where
    changed :
        (q : ℕ) → is_taken (set w j true ∷ ws) q ≡ (if q == j then true else is_taken (w ∷ ws) q)
    changed q = elim (dec_lt q 32) [
      | yes h ↦ ground (
        arith,
        taken_head (set w j true) ws q h,
        taken_head w ws q h,
        get_or-set_self w j true false,
        get_or-set_ne w j q true false,
        c.inside,
      )
      | no h ↦ ground (
        arith,
        taken_tail (set w j true) ws q (omega arith),
        taken_tail w ws q (omega arith),
        c.inside,
      )
    ]

-- The first word is full, and the search goes on.
there :
    (i : ℕ) (w : Word) (ws : Bitmap) (r : Option ℕ × Bitmap)
    → length w ≡ 32
    → ((q : ℕ) → q < 32 → get_or w q false ≡ true)
    → Allocates (i + 1) ws r
    → Allocates i (w ∷ ws) (r.0, w ∷ r.1)
there i w ws r l full (inl (e, none_left)) = inl (
  ground arith,
  λ q h. elim (dec_lt q 32) [
    | yes k ↦ taken_head w ws q k ∙ full q k
    | no k ↦ taken_tail w ws q (omega arith) ∙ none_left (q - 32) (omega arith)
  ],
)
there i w ws r l full (inr (p, e, inside, clear, below, changed)) = inr (
  p + 32,
  e ∙ ap some (omega arith),
  omega arith,
  taken_tail w ws (p + 32) (omega arith) ∙ rw shift clear,
  below',
  changed',
)
  where
    shift : p + 32 - 32 ≡ p
    shift = omega arith

    below' : (q : ℕ) → q < p + 32 → is_taken (w ∷ ws) q ≡ true
    below' q h = elim (dec_lt q 32) [
      | yes k ↦ taken_head w ws q k ∙ full q k
      | no k ↦ taken_tail w ws q (omega arith) ∙ below (q - 32) (omega arith)
    ]

    changed' : (q : ℕ) → is_taken (w ∷ r.1) q ≡ (if q == p + 32 then true else is_taken (w ∷ ws) q)
    changed' q = elim (dec_lt q 32) [
      | yes k ↦ ground (arith, taken_head w r.1 q k, taken_head w ws q k)
      | no k ↦ ground (
        arith,
        taken_tail w r.1 q (omega arith),
        taken_tail w ws q (omega arith),
        changed (q - 32),
      )
    ]

pub alloc_words-Allocates : (i : ℕ) (ws : Bitmap) → Words ws → Allocates i ws (alloc_words i ws)
unfolding alloc_words
alloc_words-Allocates i [] h = inl (refl, λ p l. absurd (omega arith))
alloc_words-Allocates i (w ∷ ws) h = elim (Option-cases (find_clear w)) [
  | inl e ↦
      let next =
        there i w ws (alloc_words (i + 1) ws) h.0
          (λ q k. find_clear-none w q e (omega (arith, h.0)))
          (alloc_words-Allocates (i + 1) ws h.1) in
      elim (Bool-cases (all_set w)) [ inl f ↦ rw f next | inr f ↦ rw (f, e) next ]
  | inr (j, e) ↦ elim (Bool-cases (all_set w)) [
    | inl f ↦ cc (all_set-find_clear w f)
    | inr f ↦ rw (f, e) (here i j w ws h.0 (find_clear-Clear w j e))
  ]
]
