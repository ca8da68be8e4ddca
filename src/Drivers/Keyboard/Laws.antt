-- ===== src/Drivers/Keyboard/Laws.antt =====
-- The shift state and the characters that the keyboard (drivers/keyboard.cpp) gives.
use wandos.Base.{
  ℕ, zero, suc, ◌<◌, ◌≡◌, ◌≢◌, inl, inr, refl, Bool, true, false, not, ◌||◌, ◌&&◌, List, [], ◌∷◌,
  arith, ◌==◌, if◌then◌else◌, get_or, ap, ◌∙◌, Bool-cases,
}
use wandos.Drivers.Keyboard.{
  Keyboard, at_boot, keyboard_init, scancode_to_ascii, assign, init_normal_scancode_map,
  init_shift_scancode_map,
}

-- The characters for a sequence of scan codes, and the state after it.
unfoldable pub type_all : Keyboard → List ℕ → List ℕ × Keyboard
unfolding scancode_to_ascii
type_all s [] = ([], s)
type_all s (c ∷ cs) =
    let r = scancode_to_ascii s c in let rest = type_all r.1 cs in (r.0 ∷ rest.0, rest.1)

abbrev pub is_press : ℕ → Bool
is_press c = c == 0x2A || c == 0x36

abbrev pub is_lift : ℕ → Bool
is_lift c = c == 0xAA || c == 0xB6

-- Whether the last code about a shift key is that of a press; `b` if there is none.
unfoldable held : Bool → List ℕ → Bool
held b [] = b
held b (c ∷ cs) = held (if is_press c then true else if is_lift c then false else b) cs

-- A byte stands nowhere in a list.
pub Absent : ℕ → List ℕ → Type 0
Absent x [] = ◌≡◌ {A = ℕ} 0 0
Absent x (y ∷ ys) = y ≢ x × Absent x ys

-- Whether no code below `n`, but for that of the left shift key, has the byte `x` in a table.
pub free_of : ℕ → List ℕ → ℕ → Bool
free_of x t zero = true
free_of x t (suc n) = (n == 0x2A || not (get_or t n 0 == x)) && free_of x t n

free_of_lem :
    (x : ℕ) (t : List ℕ) (n c : ℕ) → free_of x t n ≡ true → c < n → c ≢ 0x2A → get_or t c 0 ≢ x
unfolding free_of
free_of_lem x t zero c h l d = absurd (omega arith)
free_of_lem x t (suc n) c h l d = elim (Bool-cases (c == n)) [
  | inl e ↦ ground arith
  | inr e ↦ free_of_lem x t n c (ground arith) (ground arith) d
]

-- The tables after `keyboard_init`, with none of whose characters `x` is typed.
pub record Lacks (x : ℕ) (s : Keyboard) : Type 0 where
  pub normal : free_of x s.normal_scancode_map 128 ≡ true
  pub shift : free_of x s.shift_scancode_map 128 ≡ true
  pub extended : free_of x s.extended_scancode_map 128 ≡ true

keyboard_init-Lacks_z : Lacks 122 (keyboard_init at_boot)
unfolding keyboard_init init_normal_scancode_map init_shift_scancode_map assign free_of
keyboard_init-Lacks_z = record { normal = refl; shift = refl; extended = refl }

keyboard_init-Lacks_capital_z : Lacks 90 (keyboard_init at_boot)
unfolding keyboard_init init_normal_scancode_map init_shift_scancode_map assign free_of
keyboard_init-Lacks_capital_z = record { normal = refl; shift = refl; extended = refl }

scancode_to_ascii-Lacks :
    (x : ℕ) (s : Keyboard) (c : ℕ)
    → 0 < x
    → Lacks x s
    → ((scancode_to_ascii s c).0 ≢ x) × Lacks x (scancode_to_ascii s c).1
unfolding scancode_to_ascii
scancode_to_ascii-Lacks x s c l v = (
  ground (
    arith,
    free_of_lem x s.normal_scancode_map 128 c v.normal,
    free_of_lem x s.shift_scancode_map 128 c v.shift,
    free_of_lem x s.extended_scancode_map 128 c v.extended,
  ),
  record {
    normal = ground (arith, v.normal);
    shift = ground (arith, v.shift);
    extended = ground (arith, v.extended);
  },
)

type_all-Absent :
    (x : ℕ) (s : Keyboard) (cs : List ℕ) → 0 < x → Lacks x s → Absent x (type_all s cs).0
unfolding type_all Absent
type_all-Absent x s [] l v = refl
type_all-Absent x s (c ∷ cs) l v =
    let r = scancode_to_ascii-Lacks x s c l v in
    (r.0, type_all-Absent x (scancode_to_ascii s c).1 cs l r.1)

-- No sequence of scan codes after `keyboard_init` types a `z` or a `Z`: both stand in the tables at
-- the code of the left shift key alone.
pub type_all-never_z :
    (cs : List ℕ)
    → Absent 122 (type_all (keyboard_init at_boot) cs).0
      × Absent 90 (type_all (keyboard_init at_boot) cs).0
type_all-never_z cs = (
  type_all-Absent 122 (keyboard_init at_boot) cs (omega arith) keyboard_init-Lacks_z,
  type_all-Absent 90 (keyboard_init at_boot) cs (omega arith) keyboard_init-Lacks_capital_z,
)

scancode_to_ascii-held :
    (s : Keyboard) (c : ℕ)
    → (scancode_to_ascii s c).1.shift_pressed
      ≡ (if is_press c then true else if is_lift c then false else s.shift_pressed)
unfolding scancode_to_ascii
scancode_to_ascii-held s c = ground arith

-- The shift state after any sequence of scan codes is that of the last code about a shift key, or
-- the old one if there is none.
type_all-held :
    (s : Keyboard) (cs : List ℕ) → (type_all s cs).1.shift_pressed ≡ held s.shift_pressed cs
unfolding type_all held
type_all-held s [] = refl
type_all-held s (c ∷ cs) =
    type_all-held (scancode_to_ascii s c).1 cs ∙ ap (λ b. held b cs) (scancode_to_ascii-held s c)
