-- ===== src/Fs/MemFile/Laws.antt =====
-- A file in memory (kernel/fs/memfs.cpp) against the list of its bytes.
use wandos.Base.{
  ℕ, ◌-◌, false, leb, length-drop, drop_all, drop_of_append, append-nil, append_assoc, zero, suc,
  ◌+◌, ◌*◌, ◌%◌, ◌^◌, ◌≤◌, ◌<◌, ◌≡◌, refl, ap, ◌∙◌, inl, inr, Bool-cases, List, [], ◌∷◌, ◌++◌,
  arith, ltb, if◌then◌else◌, length, take, drop, length-take, take_all, take_of_append,
}
use wandos.Text.Memory.{memcpy}
use wandos.Text.Memory.Laws.{memcpy-eq-take-drop, length-memcpy, length_written}
use wandos.Fs.MemFile.{MemFile, read, grown, write}

pub record IsValid (f : MemFile) : Type 0 where
  pub room : length f.bytes ≡ f.capacity
  pub used : f.size ≤ f.capacity

-- What the file holds.
abbrev pub contents : MemFile → List ℕ
contents f = take f.size f.bytes

abbrev max : ℕ → ℕ → ℕ
max a b = if ltb a b then b else a

drop-nil : (n : ℕ) → drop {A = ℕ} n [] ≡ []
drop-nil zero = refl
drop-nil (suc n) = refl

-- Bytes put over the front of what is there.
cover_front :
    (buf d : List ℕ) (n : ℕ)
    → n ≤ length d
    → length buf ≤ length d
    → take (max n (length buf)) (buf ++ drop (length buf) d) ≡ buf ++ drop (length buf) (take n d)
cover_front [] d n h k = let e : max n 0 ≡ n = ground arith in rw e refl
cover_front (b ∷ buf) [] n h k = absurd (omega arith)
cover_front (b ∷ buf) (x ∷ d) zero h k =
    let e : max 0 (suc (length buf)) ≡ suc (max 0 (length buf)) = ground arith in
    rw e (
      ap (λ r. b ∷ r)
        (cover_front buf d zero (omega arith) (omega arith)
          ∙ ap (λ r. buf ++ r) (drop-nil (length buf))))
cover_front (b ∷ buf) (x ∷ d) (suc n) h k =
    let e : max (suc n) (suc (length buf)) ≡ suc (max n (length buf)) = ground arith in
    rw e (ap (λ r. b ∷ r) (cover_front buf d n (omega arith) (omega arith)))

-- Bytes put over what is there, from an offset on.
cover :
    (off : ℕ) (buf d : List ℕ) (n : ℕ)
    → off ≤ n
    → n ≤ length d
    → off + length buf ≤ length d
    → take (max n (off + length buf)) (take off d ++ memcpy (drop off d) buf (length buf))
      ≡ take off (take n d) ++ buf ++ drop (off + length buf) (take n d)
cover zero buf d n o h k =
    let e : 0 + length buf ≡ length buf = omega arith in
    rw
      (
        e,
        memcpy-eq-take-drop d buf (length buf) (omega arith) (omega arith),
        take_all (length buf) buf (omega arith),
      )
      (cover_front buf d n h (omega arith))
cover (suc off) buf [] n o h k = absurd (omega arith)
cover (suc off) buf (x ∷ d) zero o h k = absurd (omega arith)
cover (suc off) buf (x ∷ d) (suc n) o h k =
    let e : suc off + length buf ≡ suc (off + length buf) = omega arith in
    let f : max (suc n) (suc (off + length buf)) ≡ suc (max n (off + length buf)) = ground arith in
    rw (e, f) (ap (λ r. x ∷ r) (cover off buf d n (omega arith) (omega arith) (omega arith)))

-- A file that is made larger keeps what it holds.
grown_lem :
    (fresh : List ℕ) (f : MemFile) (needed : ℕ)
    → IsValid f
    → needed * 2 < 2 ^ 32
    → length fresh ≡ needed * 2
    → let g = grown fresh f needed in
      IsValid g × (g.size ≡ f.size) × (contents g ≡ contents f) × (needed ≤ g.capacity)
unfolding grown
grown_lem fresh f needed v w l = elim (Bool-cases (ltb f.capacity needed)) [
  | inl e ↦
      let small : f.capacity < needed = ground arith in
      let c =
        memcpy-eq-take-drop fresh f.bytes f.size (omega (arith, v.used, l))
          (omega (arith, v.used, v.room)) in
      rw e (
        record {
          room = length-memcpy fresh f.bytes f.size ∙ omega (arith, l, w);
          used = omega (arith, v.used, w);
        },
        refl,
        rw c (
            take_of_append f.size (take f.size f.bytes) (drop f.size fresh)
              (omega (arith, length-take f.size f.bytes, v.used, v.room))),
        omega (arith, w),
      )
  | inr e ↦ rw e (v, refl, refl, ground arith)
]

-- `write` at an offset up to the size, where twice the end fits into 32 bits: the bytes replace
-- what the file holds from the offset on, and lengthen it as far as they go beyond its end; the
-- offset is then behind them, and the file is valid.
pub write_lem :
    (fresh : List ℕ) (f : MemFile) (offset : ℕ) (buffer : List ℕ)
    → IsValid f
    → offset ≤ f.size
    → (offset + length buffer) * 2 < 2 ^ 32
    → length fresh ≡ (offset + length buffer) * 2
    → let r = write fresh f offset buffer (length buffer) in
      (contents r.0
        ≡ take offset (contents f) ++ buffer ++ drop (offset + length buffer) (contents f))
      × (r.1 ≡ offset + length buffer)
      × IsValid r.0
unfolding write
write_lem fresh f offset buffer v o w l =
    let end : (offset + length buffer) % 2 ^ 32 ≡ offset + length buffer = omega arith in
    let needed : ℕ = offset + length buffer in
    let g = grown_lem fresh f needed v w l in
    let g' : MemFile = grown fresh f needed in
    let c =
      cover offset buffer g'.bytes g'.size (omega (arith, g.1)) (omega (arith, g.0.used, g.0.room))
        (omega (arith, g.3, g.0.room)) in
    rw end (
      c ∙ ap (λ x. take offset x ++ buffer ++ drop needed x) g.2,
      refl,
      record {
        room = length_written g'.bytes buffer offset (length buffer) ∙ g.0.room;
        used = ground (arith, g.0.used, g.3);
      },
    )

-- What is read from the bytes in use is the same with or without those behind them.
take-drop-take :
    (off k n : ℕ) (d : List ℕ) → off + k ≤ n → take k (drop off d) ≡ take k (drop off (take n d))
take-drop-take zero zero n d h = refl
take-drop-take zero (suc k) zero d h = absurd (omega arith)
take-drop-take zero (suc k) (suc n) [] h = refl
take-drop-take zero (suc k) (suc n) (x ∷ d) h =
    ap (λ r. x ∷ r) (take-drop-take zero k n d (omega arith))
take-drop-take (suc off) k zero d h = absurd (omega arith)
take-drop-take (suc off) k (suc n) [] h = refl
take-drop-take (suc off) k (suc n) (x ∷ d) h = take-drop-take off k n d (omega arith)

-- `read` of as many bytes as there are from the offset on, or fewer.
read_inside :
    (f : MemFile) (offset : ℕ) (out : List ℕ)
    → IsValid f
    → 0 < length out
    → offset + length out ≤ f.size
    → read f offset out (length out)
      ≡ (length out, take (length out) (drop offset (contents f)), offset + length out)
unfolding read
read_inside f offset out v p h =
    let inside : leb f.size offset ≡ false = ground arith in
    let n : (if ltb (length out) (f.size - offset) then length out else f.size - offset)
        ≡ length out =
      ground arith in
    let c =
      memcpy-eq-take-drop out (drop offset f.bytes) (length out) (omega arith)
        (omega (arith, length-drop offset f.bytes, v.room, v.used)) in
    rw (inside, n, c)
      (ap (λ x. (length out, x, offset + length out))
        (ap (λ x. x ++ drop (length out) out) (take-drop-take offset (length out) f.size f.bytes h)
          ∙ ap (λ x. take (length out) (drop offset (contents f)) ++ x)
              (drop_all (length out) out (omega arith))
          ∙ append-nil (take (length out) (drop offset (contents f)))))

write_size :
    (fresh : List ℕ) (f : MemFile) (offset : ℕ) (buffer : List ℕ)
    → (offset + length buffer) * 2 < 2 ^ 32
    → offset + length buffer ≤ (write fresh f offset buffer (length buffer)).0.size
unfolding write
write_size fresh f offset buffer w = ground arith

-- `read` at the same offset gives back what `write` has just put there.
pub read-write :
    (fresh : List ℕ) (f : MemFile) (offset : ℕ) (buffer out : List ℕ)
    → IsValid f
    → offset ≤ f.size
    → (offset + length buffer) * 2 < 2 ^ 32
    → length fresh ≡ (offset + length buffer) * 2
    → 0 < length buffer
    → length out ≡ length buffer
    → read (write fresh f offset buffer (length buffer)).0 offset out (length buffer)
      ≡ (length buffer, buffer, offset + length buffer)
read-write fresh f offset buffer out v o w l p e =
    let r = write_lem fresh f offset buffer v o w l in
    let g : MemFile = (write fresh f offset buffer (length buffer)).0 in
    let first : length (take offset (contents f)) ≡ offset =
      omega (arith, length-take offset (contents f), length-take f.size f.bytes, v.used, v.room) in
    let middle : drop offset (contents g) ≡ buffer ++ drop (offset + length buffer) (contents f) =
      ap (drop offset) (
        r.0
        ∙ append_assoc (take offset (contents f)) buffer
            (drop (offset + length buffer) (contents f)))
      ∙ drop_of_append offset (take offset (contents f))
          (buffer ++ drop (offset + length buffer) (contents f)) first in
    rw e at (
      read_inside g offset out r.2 (omega (arith, e))
        (omega (arith, e, write_size fresh f offset buffer w)))
    ∙ ap (λ x. (length buffer, x, offset + length buffer))
        (rw middle
          (take_of_append (length buffer) buffer (drop (offset + length buffer) (contents f)) refl))
