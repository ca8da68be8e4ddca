-- ===== src/Text/CString/Find.antt =====
-- strchr and strstr of lib/string.cpp.
use wandos.Base.{
  ℕ, zero, suc, ◌+◌, ◌<◌, ◌≡◌, ◌≢◌, refl, ap, ◌∙◌, true, false, Option, none, some, List, [], ◌∷◌,
  arith, ◌==◌, if◌then◌else◌, length, take, drop, get_or, Bool-cases, inl, inr, ◌↔◌,
}
use mathlib.Core.Logic.{◌⊎◌}
use wandos.Text.CString.{content, byte, strchr, matches, search_from, strstr}

-- The byte `c` stands at distance `i`, and nowhere before.
pub record FirstAt (s : List ℕ) (c i : ℕ) : Type 0 where
  pub inside : i < length s
  pub here : get_or s i 0 ≡ c
  pub before : (j : ℕ) → j < i → get_or s j 0 ≢ c

NotIn : List ℕ → ℕ → Type 0
NotIn s c = (j : ℕ) → j < length s → get_or s j 0 ≢ c

FirstAt-next : (x c i : ℕ) (s : List ℕ) → x ≢ c → FirstAt s c i → FirstAt (x ∷ s) c (suc i)
FirstAt-next x c i s ne f = record { inside = omega (arith, f.inside); here = f.here; before = go }
  where
    go : (j : ℕ) → j < suc i → get_or (x ∷ s) j 0 ≢ c
    go zero h = ne
    go (suc j) h = f.before j (omega arith)

NotIn-cons : (x c : ℕ) (s : List ℕ) → x ≢ c → NotIn s c → NotIn (x ∷ s) c
unfolding NotIn
NotIn-cons x c s ne f zero h = ne
NotIn-cons x c s ne f (suc j) h = f j (omega arith)

-- `strchr` of a byte other than 0 finds where it first stands in the content, and fails exactly if
-- it stands nowhere in it.
pub strchr_lem :
    (s : List ℕ) (c : ℕ)
    → c ≢ 0
    → ((i : ℕ) × (strchr s c ≡ some i) × FirstAt (content s) c i)
      ⊎ ((strchr s c ≡ none) × ((j : ℕ) → j < length (content s) → get_or (content s) j 0 ≢ c))
unfolding strchr
strchr_lem [] c z = inr (ground arith, λ j h. absurd (omega arith))
strchr_lem (x ∷ s) c z = elim (Bool-cases (x == c)) [
  | inl e ↦
      let nonzero : (x == 0) ≡ false = ground arith in
      inl (
        0,
        rw e,
        rw nonzero (record {
          inside = omega arith;
          here = ground arith;
          before = λ j h. absurd (omega arith);
        }),
      )
  | inr e ↦ elim (Bool-cases (x == 0)) [
    | inl f ↦ inr (rw (e, f), rw f (λ j h. absurd (omega arith)))
    | inr f ↦
        let ne : x ≢ c = ground arith in
        elim (strchr_lem s c z) [
          | inl (i, g, at) ↦ inl (suc i, rw (e, f, g), rw f (FirstAt-next x c i (content s) ne at))
          | inr (g, none_there) ↦
              inr (rw (e, f, g), rw f (unfold NotIn in NotIn-cons x c (content s) ne none_there))
        ]
  ]
]

-- `matches` is whether the content of the needle begins the content of the haystack.
matches_lem :
    (h n : List ℕ) → (matches h n ≡ true) ↔ (take (length (content n)) (content h) ≡ content n)
unfolding matches
matches_lem h [] = (λ e. refl, λ e. refl)
matches_lem [] (c ∷ n) = (λ e. ground arith, λ e. ground arith)
matches_lem (x ∷ h) (c ∷ n) =
    let r = matches_lem h n in (λ e. ground (arith, r.0), λ e. ground (arith, r.1))

-- The content of the needle stands in the content of the haystack at distance `i`.
abbrev pub OccursAt : List ℕ → List ℕ → ℕ → Type 0
OccursAt h n i =
    (i < length (content h)) × (take (length (content n)) (drop i (content h)) ≡ content n)

-- What a search that starts at distance `k` gives: the first place, or none if there is none.
abbrev Finds : ℕ → List ℕ → List ℕ → Option ℕ → Type 0
Finds k h n r =
    ((i : ℕ) × (r ≡ some (k + i)) × OccursAt h n i × ((j : ℕ) → j < i → ¬ OccursAt h n j))
    ⊎ ((r ≡ none) × ((j : ℕ) → ¬ OccursAt h n j))

OccursAt-suc :
    (x j : ℕ) (h n : List ℕ) → (x == 0) ≡ false → OccursAt (x ∷ h) n (suc j) ↔ OccursAt h n j
OccursAt-suc x j h n f = rw f (λ o. (omega (arith, o.0), o.1), λ o. (omega (arith, o.0), o.1))

Finds-later :
    (k x : ℕ) (h n : List ℕ) (r : Option ℕ)
    → (x == 0) ≡ false
    → ¬ OccursAt (x ∷ h) n 0
    → Finds (suc k) h n r
    → Finds k (x ∷ h) n r
Finds-later k x h n r f no_match (inl (i, e, at, before)) =
    inl (suc i, e ∙ ap some (omega arith), (OccursAt-suc x i h n f).1 at, go)
  where
    go : (j : ℕ) → j < suc i → ¬ OccursAt (x ∷ h) n j
    go zero l o = no_match o
    go (suc j) l o = before j (omega arith) ((OccursAt-suc x j h n f).0 o)
Finds-later k x h n r f no_match (inr (e, nowhere)) = inr (e, go)
  where
    go : (j : ℕ) → ¬ OccursAt (x ∷ h) n j
    go zero o = no_match o
    go (suc j) o = nowhere j ((OccursAt-suc x j h n f).0 o)

search_from-cons :
    (k x : ℕ) (h n : List ℕ)
    → (x == 0) ≡ false
    → search_from k (x ∷ h) n ≡ (if matches (x ∷ h) n then some k else search_from (suc k) h n)
unfolding search_from
search_from-cons k x h n f = rw f

search_from-zero : (k x : ℕ) (h n : List ℕ) → (x == 0) ≡ true → search_from k (x ∷ h) n ≡ none
unfolding search_from
search_from-zero k x h n f = rw f

search_from-Finds : (k : ℕ) (h n : List ℕ) → Finds k h n (search_from k h n)
search_from-Finds k [] n = inr (unfold search_from in refl, λ j o. omega arith)
search_from-Finds k (x ∷ h) n = elim (Bool-cases (x == 0)) [
  | inl f ↦
      rw (search_from-zero k x h n f) (inr (refl, λ j o. absurd (omega (arith, empty f, o.0))))
  | inr f ↦ rw (search_from-cons k x h n f) (elim (Bool-cases (matches (x ∷ h) n)) [
    | inl m ↦ rw m (inl (0, ap some (omega arith), hit f m, λ j l. absurd (omega arith)))
    | inr m ↦ rw m (
        Finds-later k x h n (search_from (suc k) h n) f (λ o. cc ((matches_lem (x ∷ h) n).1 o.1))
          (search_from-Finds (suc k) h n))
  ])
]
  where
    empty : (x == 0) ≡ true → length (content (x ∷ h)) ≡ 0
    empty f = rw f

    hit : (x == 0) ≡ false → matches (x ∷ h) n ≡ true → OccursAt (x ∷ h) n 0
    hit f m = (rw f (omega arith), (matches_lem (x ∷ h) n).0 m)

-- `strstr` of a needle that is not empty finds the first place where its content stands in the
-- content of the haystack, and fails exactly if it stands nowhere.
pub strstr_lem :
    (h n : List ℕ)
    → byte n ≢ 0
    → ((i : ℕ) × (strstr h n ≡ some i) × OccursAt h n i × ((j : ℕ) → j < i → ¬ OccursAt h n j))
      ⊎ ((strstr h n ≡ none) × ((j : ℕ) → ¬ OccursAt h n j))
unfolding strstr
strstr_lem h n z =
    let nonempty : (byte n == 0) ≡ false = ground arith in
    rw nonempty (elim (search_from-Finds 0 h n) [
      | inl (i, e, at, before) ↦ inl (i, e ∙ ap some (omega arith), at, before)
      | inr (e, nowhere) ↦ inr (e, nowhere)
    ])
