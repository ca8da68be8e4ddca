-- ===== src/Fs/MemTree/Slashes.antt =====
-- What a lookup in the tree of kernel/fs/memfs.cpp can find.
use wandos.Base.{
  ℕ, zero, suc, ◌≡◌, refl, ◌⊎◌, inl, inr, true, false, Bool-cases, Option-cases, none, some, List,
  [], ◌∷◌, ◌++◌, arith, leb, ◌==◌, take, drop, length,
}
use wandos.Base.Chain.{has}
use wandos.Base.Int.{ℤ, pos, negsuc}
use wandos.Text.CString.{content, byte, strchr, strcmp}
use wandos.Text.CString.Compare.{strcmp-eq-zero}
use wandos.Fs.MemTree.{
  Inode, same_name, find_child, find_from, find_inode, component, component_name, skip_slashes,
}

pos_zero : (z : ℤ) → (elim z [ pos n ↦ n == 0 | negsuc n ↦ false ]) ≡ true → z ≡ pos 0
pos_zero (pos n) h = ground (arith, h)
pos_zero (negsuc n) h = absurd (cc (h))

same_name-content : (a b : List ℕ) → same_name a b ≡ true → content a ≡ content b
same_name-content a b h = (strcmp-eq-zero a b).0 (pos_zero (strcmp a b) h)

find_child_lem :
    (nodes child : ℕ) (name : List ℕ) (st : ℕ → Inode) (found : ℕ)
    → find_child nodes child name st ≡ some (suc found)
    → content (st (suc found)).name ≡ content name
unfolding find_child
find_child_lem zero child name st found h = absurd (cc (h))
find_child_lem (suc nodes) child name st found h = elim (Bool-cases (child == 0)) [
  | inl e ↦ absurd (cc (rw e at h))
  | inr e ↦ elim (Bool-cases (same_name (st child).name name)) [
    | inl f ↦
        let here : child ≡ suc found = cc (rw (e, f) at h) in
        rw (← here) (same_name-content (st child).name name f)
    | inr f ↦ find_child_lem nodes (st child).next name st found (rw (e, f) at h)
  ]
]

no_slash_before :
    (p : List ℕ) (k : ℕ) → strchr p b'/' ≡ some k → has b'/' (content (take k p ++ 0 ∷ [])) ≡ false
unfolding strchr
no_slash_before [] k h = absurd (cc (h))
no_slash_before (x ∷ s) zero h = refl
no_slash_before (x ∷ s) (suc k) h = elim (Option-cases (strchr s b'/')) [
  | inl e ↦ absurd (ground (arith, h, e))
  | inr (j, e) ↦ ground (arith, h, e, no_slash_before s k)
]

no_slash_at_all :
    (p : List ℕ) (k : ℕ) → strchr p b'/' ≡ none → has b'/' (content (take k p ++ 0 ∷ [])) ≡ false
unfolding strchr
no_slash_at_all p zero h = refl
no_slash_at_all [] (suc k) h = refl
no_slash_at_all (x ∷ s) (suc k) h = elim (Option-cases (strchr s b'/')) [
  | inl e ↦ ground (arith, h, e, no_slash_at_all s k)
  | inr (j, e) ↦ ground (arith, h, e)
]

component-some : (p : List ℕ) (k : ℕ) → strchr p b'/' ≡ some k → component p ≡ k
unfolding component
component-some p k e = rw (e, component) refl

-- The first component of a path has no slash.
component-no_slash : (p : List ℕ) → has b'/' (content (component_name p)) ≡ false
unfolding component_name
component-no_slash p = elim (Option-cases (strchr p b'/')) [
  | inl e ↦ no_slash_at_all p (component p) e
  | inr (k, e) ↦ rw (component-some p k e) (no_slash_before p k e)
]

found_from :
    (fuel nodes : ℕ) (path : List ℕ) (current : ℕ) (st : ℕ → Inode) (found : ℕ)
    → find_from fuel nodes path current st ≡ some (suc found)
    → (current ≡ suc found) ⊎ (has b'/' (content (st (suc found)).name) ≡ false)
unfolding find_from
found_from zero nodes path current st found h = absurd (cc (h))
found_from (suc fuel) nodes path current st found h =
    let p = skip_slashes path in
    elim (Bool-cases (byte p == 0)) [
      | inl e ↦ inl (cc (rw e at h))
      | inr e ↦ elim (Bool-cases (leb 256 (component p))) [
        | inl f ↦ absurd (ground (arith, rw (e, f) at h))
        | inr f ↦
            elim (Option-cases (find_child nodes (st current).children (component_name p) st)) [
              | inl g ↦ absurd (cc (rw (e, f, g) at h))
              | inr (zero, g) ↦ absurd (ground (arith, rw (e, f, g) at h))
              | inr (suc child, g) ↦
                  let named : has b'/' (content (st (suc child)).name) ≡ false =
                    rw (find_child_lem nodes (st current).children (component_name p) st child g)
                      (component-no_slash p) in
                  elim (found_from fuel nodes (drop (component p) p) (suc child) st found
                    (rw (e, f, g) at h)) [
                      | inl same ↦ inr (rw (← same) named)
                      | inr other ↦ inr other
                    ]
            ]
      ]
    ]

-- A lookup that finds an inode finds the root, or one in whose name no slash stands: an inode with a
-- slash in its name is under no path.
pub find_inode-no_slash :
    (nodes : ℕ) (path : List ℕ) (root : ℕ) (st : ℕ → Inode) (found : ℕ)
    → find_inode nodes path root st ≡ some (suc found)
    → (root ≡ suc found) ⊎ (has b'/' (content (st (suc found)).name) ≡ false)
unfolding find_inode
find_inode-no_slash nodes path root st found h =
    found_from (suc (length path)) nodes path root st found h
