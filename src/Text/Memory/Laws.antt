-- ===== src/Text/Memory/Laws.antt =====
-- What memcpy, memset and memcmp of lib/string.cpp do to the bytes.
use wandos.Base.{
  ℕ, zero, suc, ◌%◌, ◌≡◌, ◌≤◌, refl, ap, List, [], ◌∷◌, ◌++◌, ◌↔◌, arith, take, drop, length,
  replicate, ◌+◌, drop_of_append, take_of_append, take_all, drop_all, length-take, length-drop,
  length-append, append-nil, get_or, ltb, leb, ◌&&◌, ◌-◌, if◌then◌else◌,
}
use wandos.Base.Int.{pos}
use wandos.Text.Memory.{memcpy, memset, memcmp}

-- Inside both objects, `memcpy` replaces the first `n` bytes by the source's and keeps the rest.
pub memcpy-eq-take-drop :
    (d s : List ℕ) (n : ℕ) → n ≤ length d → n ≤ length s → memcpy d s n ≡ take n s ++ drop n d
unfolding memcpy
memcpy-eq-take-drop d s zero h k = refl
memcpy-eq-take-drop [] s (suc n) h k = absurd (omega arith)
memcpy-eq-take-drop (x ∷ d) [] (suc n) h k = absurd (omega arith)
memcpy-eq-take-drop (x ∷ d) (y ∷ s) (suc n) h k =
    ap (λ r. y ∷ r) (memcpy-eq-take-drop d s n (omega arith) (omega arith))

pub length-memcpy : (d s : List ℕ) (n : ℕ) → length (memcpy d s n) ≡ length d
unfolding memcpy
length-memcpy d s zero = refl
length-memcpy [] s (suc n) = refl
length-memcpy (x ∷ d) [] (suc n) = refl
length-memcpy (x ∷ d) (y ∷ s) (suc n) = ap suc (length-memcpy d s n)

pub memset-eq-replicate :
    (p : List ℕ) (c n : ℕ) → n ≤ length p → memset p c n ≡ replicate n (c % 256) ++ drop n p
unfolding memset
memset-eq-replicate p c zero h = refl
memset-eq-replicate [] c (suc n) h = absurd (omega arith)
memset-eq-replicate (x ∷ p) c (suc n) h =
    ap (λ r. (c % 256) ∷ r) (memset-eq-replicate p c n (omega arith))

-- `memcmp` answers 0 exactly when the first `n` bytes are the same.
pub memcmp-eq-zero :
    (p q : List ℕ) (n : ℕ)
    → n ≤ length p
    → n ≤ length q
    → (memcmp p q n ≡ pos 0) ↔ (take n p ≡ take n q)
unfolding memcmp
memcmp-eq-zero p q zero h k = ground arith
memcmp-eq-zero [] q (suc n) h k = absurd (omega arith)
memcmp-eq-zero (a ∷ p) [] (suc n) h k = absurd (omega arith)
memcmp-eq-zero (a ∷ p) (b ∷ q) (suc n) h k =
    let rest = memcmp-eq-zero p q n (omega arith) (omega arith) in (ground arith, ground arith)

-- The bytes that one `memcpy` puts at an offset of an object, another gets back from there.
pub memcpy_back :
    (d src out : List ℕ) (off n : ℕ)
    → off + n ≤ length d
    → length src ≡ n
    → length out ≡ n
    → memcpy out (drop off (take off d ++ memcpy (drop off d) src n)) n ≡ src
memcpy_back d src out off n h k o =
    rw (drop_of_append off (take off d) _ (omega (arith, length-take off d))) (
      rw (memcpy-eq-take-drop (drop off d) src n (omega (arith, length-drop off d)) (omega arith)) (
        rw (take_all n src (omega arith)) (
          rw
            (memcpy-eq-take-drop out (src ++ drop n (drop off d)) n (omega arith)
              (omega (arith, length-append src (drop n (drop off d)))))
            (rw (take_of_append n src (drop n (drop off d)) k, drop_all n out (omega arith))
              (append-nil src)))))

pub length_written :
    (d src : List ℕ) (off n : ℕ) → length (take off d ++ memcpy (drop off d) src n) ≡ length d
length_written d src off n = omega (
  arith,
  length-append (take off d) (memcpy (drop off d) src n),
  length-memcpy (drop off d) src n,
  length-take off d,
  length-drop off d,
)

pub get_or-drop : (n : ℕ) (s : List ℕ) (k : ℕ) → get_or (drop n s) k 0 ≡ get_or s (n + k) 0
get_or-drop zero s k = ground arith
get_or-drop (suc n) [] k = refl
get_or-drop (suc n) (x ∷ s) k = ground (arith, get_or-drop n s k)

pub get_or-memcpy :
    (d s : List ℕ) (n j : ℕ)
    → n ≤ length d
    → n ≤ length s
    → get_or (memcpy d s n) j 0 ≡ (if ltb j n then get_or s j 0 else get_or d j 0)
unfolding memcpy
get_or-memcpy d s zero j h k = ground arith
get_or-memcpy [] s (suc n) j h k = absurd (omega arith)
get_or-memcpy (x ∷ d) [] (suc n) j h k = absurd (omega arith)
get_or-memcpy (x ∷ d) (y ∷ s) (suc n) zero h k = ground arith
get_or-memcpy (x ∷ d) (y ∷ s) (suc n) (suc j) h k =
    ground (arith, get_or-memcpy d s n j (omega arith) (omega arith))

-- The byte `j` after `n` bytes of `s` have been copied to the place `t` of `b`.
pub get_or_written :
    (b s : List ℕ) (t n j : ℕ)
    → t + n ≤ length b
    → n ≤ length s
    → get_or (take t b ++ memcpy (drop t b) s n) j 0
      ≡ (if leb t j && ltb j (t + n) then get_or s (j - t) 0 else get_or b j 0)
get_or_written b s zero n j h k = ground (arith, get_or-memcpy b s n j (omega arith) k)
get_or_written [] s (suc t) n j h k = absurd (omega arith)
get_or_written (x ∷ b) s (suc t) n zero h k = ground arith
get_or_written (x ∷ b) s (suc t) n (suc j) h k =
    ground (arith, get_or_written b s t n j (omega arith) k)
