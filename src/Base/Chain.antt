-- ===== src/Base/Chain.antt =====
-- Linked lists in memory: a `next` field for each address, where address 0 is the null pointer.
use wandos.Base.{
  ℕ, ◌<◌, ◌≡◌, refl, ◌≢◌, Bool, true, false, ◌||◌, List, [], ◌∷◌, ◌++◌, arith, ◌==◌, if◌then◌else◌,
}

-- A write at one address.
abbrev pub update {ℓ} : {A : Type ℓ} → (ℕ → A) → ℕ → A → ℕ → A
update f p v q = if p == q then v else f q

abbrev pub has : ℕ → List ℕ → Bool
has a [] = false
has a (x ∷ xs) = a == x || has a xs

-- From `p` the `next` fields lead through `xs` to the null pointer.
abbrev pub Chain : (ℕ → ℕ) → ℕ → List ℕ → Type 0
Chain next p [] = p ≡ 0
Chain next p (x ∷ xs) = (p ≡ x) × (0 < x) × Chain next (next x) xs

-- No address stands twice in a list.
abbrev pub Distinct : List ℕ → Type 0
Distinct [] = Unit
Distinct (x ∷ xs) = (has x xs ≡ false) × Distinct xs

abbrev pub Disjoint : List ℕ → List ℕ → Type 0
Disjoint xs ys = (a : ℕ) → has a xs ≡ true → has a ys ≡ false

-- A list keeps through changes elsewhere.
pub Chain-frame :
    (next after : ℕ → ℕ) (p : ℕ) (xs : List ℕ)
    → ((a : ℕ) → has a xs ≡ true → after a ≡ next a)
    → Chain next p xs
    → Chain after p xs
Chain-frame next after p [] same c = c
Chain-frame next after p (x ∷ xs) same (e, l, c) =
    let rest : Chain after (next x) xs =
      Chain-frame next after (next x) xs (λ a m. same a (ground (arith, m))) c in
    (e, l, rw (same x (ground arith)) rest)

pub has-append : (a : ℕ) (xs ys : List ℕ) → has a (xs ++ ys) ≡ (has a xs || has a ys)
has-append a [] ys = refl
has-append a (x ∷ xs) ys = ground (arith, has-append a xs ys)

pub not_has_self : (a b : ℕ) (xs : List ℕ) → has a xs ≡ true → has b xs ≡ false → a ≢ b
not_has_self a b xs h n e = ground (arith, h, n, e)
