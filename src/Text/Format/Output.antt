-- ===== src/Text/Format/Output.antt =====
-- lib/debug.cpp: the pair of pointers `p` and `end` that every function writes with, and padding.
use wandos.Base.{
  ℕ, ◌+◌, ◌-◌, ◌≤◌, ◌≡◌, refl, sym, ap, ◌∙◌, Bool-cases, inl, inr, Bool, true, false, not, ◌&&◌,
  Option, none, List, [], ◌∷◌, ◌++◌, arith, ltb, ◌==◌, if◌then◌else◌, length, replicate, append-nil,
  append_assoc, length-append,
}

-- What stands in the buffer up to `p`, and `end - p`.
pub record Out : Type 0 where
  pub written : List ℕ
  pub room : ℕ

-- `if(p < end) *p++ = c;`
abbrev pub put : ℕ → Out → Out
put c o = if o.room == 0 then o else record { written = o.written ++ c ∷ []; room = o.room - 1 }

-- A loop that writes these bytes while `p < end`.
unfoldable pub emit : List ℕ → Out → Out
emit [] o = o
emit (c ∷ cs) o = emit cs (put c o)

-- The same under a condition.
abbrev pub emit_if : Bool → List ℕ → Out → Out
emit_if b cs o = if b then emit cs o else o

-- `FormatFlags`. A width below 0 acts as 0, and a precision below 0 as none.
pub record FormatFlags : Type 0 where
  pub width : ℕ
  pub precision : Option ℕ
  pub alternative : Bool
  pub zero_padding : Bool
  pub left_align : Bool
  pub type : ℕ

abbrev pub no_flags : FormatFlags
no_flags = record {
  width = 0;
  precision = none;
  alternative = false;
  zero_padding = false;
  left_align = false;
  type = 0;
}

-- `prefix_handled` is false in every call.
unfoldable pub apply_padding : ℕ → FormatFlags → Out → Out
unfolding emit
apply_padding content_len flags o =
    let padding : ℕ = if ltb content_len flags.width then flags.width - content_len else 0 in
    emit_if (not flags.left_align && ltb 0 padding)
      (replicate padding (if flags.zero_padding then b'0' else b' ')) o

unfoldable pub apply_post_padding : ℕ → FormatFlags → Out → Out
unfolding emit
apply_post_padding content_len flags o =
    emit_if (flags.left_align && ltb content_len flags.width)
      (replicate (flags.width - content_len) b' ') o

-- Bytes were written behind what was there, and no more than there was room for.
pub record Extends (o : Out) (o' : Out) : Type 0 where
  pub added : List ℕ
  pub written : o'.written ≡ o.written ++ added
  pub room : o'.room + length added ≡ o.room

pub Extends-refl : (o : Out) → Extends o o
Extends-refl o = record { added = []; written = sym (append-nil o.written); room = omega arith }

pub Extends-trans : (a b c : Out) → Extends a b → Extends b c → Extends a c
Extends-trans a b c h k = record {
  added = h.added ++ k.added;
  written = k.written ∙ ap (λ w. w ++ k.added) h.written ∙ append_assoc a.written h.added k.added;
  room = omega (arith, h.room, k.room, length-append h.added k.added);
}

put-Extends : (c : ℕ) (o : Out) → Extends o (put c o)
put-Extends c o = elim (Bool-cases (o.room == 0)) [
  | inl e ↦ rw e (Extends-refl o)
  | inr e ↦ rw e (record { added = c ∷ []; written = refl; room = ground arith })
]

pub emit-Extends : (cs : List ℕ) (o : Out) → Extends o (emit cs o)
unfolding emit
emit-Extends [] o = Extends-refl o
emit-Extends (c ∷ cs) o =
    Extends-trans o (put c o) (emit cs (put c o)) (put-Extends c o) (emit-Extends cs (put c o))

-- Where there is room, all is written.
pub emit_all :
    (cs : List ℕ) (o : Out)
    → length cs ≤ o.room
    → emit cs o ≡ record { written = o.written ++ cs; room = o.room - length cs }
unfolding emit
emit_all [] o h = ground (arith, append-nil o.written)
emit_all (c ∷ cs) o h =
    let e : (o.room == 0) ≡ false = ground arith in
    rw e (
      emit_all cs (record { written = o.written ++ c ∷ []; room = o.room - 1 }) (omega arith)
      ∙ ground (arith, append_assoc o.written (c ∷ []) cs))

pub emit_if-Extends : (b : Bool) (cs : List ℕ) (o : Out) → Extends o (emit_if b cs o)
emit_if-Extends true cs o = emit-Extends cs o
emit_if-Extends false cs o = Extends-refl o

pub apply_padding-Extends :
    (n : ℕ) (flags : FormatFlags) (o : Out) → Extends o (apply_padding n flags o)
unfolding apply_padding
apply_padding-Extends n flags o =
    let padding : ℕ = if ltb n flags.width then flags.width - n else 0 in
    emit_if-Extends (not flags.left_align && ltb 0 padding)
      (replicate padding (if flags.zero_padding then b'0' else b' ')) o

pub apply_post_padding-Extends :
    (n : ℕ) (flags : FormatFlags) (o : Out) → Extends o (apply_post_padding n flags o)
unfolding apply_post_padding
apply_post_padding-Extends n flags o =
    emit_if-Extends (flags.left_align && ltb n flags.width) (replicate (flags.width - n) b' ') o

-- One writer after another.
pub Extends-then :
    (f g : Out → Out)
    → ((o : Out) → Extends o (f o))
    → ((o : Out) → Extends o (g o))
    → (o : Out) → Extends o (g (f o))
Extends-then f g hf hg o = Extends-trans o (f o) (g (f o)) (hf o) (hg (f o))

-- Without a width there is no padding.
pub apply_padding-zero :
    (n : ℕ) (flags : FormatFlags) (o : Out) → flags.width ≡ 0 → apply_padding n flags o ≡ o
unfolding apply_padding
apply_padding-zero n flags o h =
    let e : ltb n flags.width ≡ false = ground arith in rw e (padding_off flags.left_align o)
  where
    padding_off :
        (b : Bool) (o : Out)
        → emit_if (not b && false) (replicate 0 (if flags.zero_padding then b'0' else b' ')) o ≡ o
    padding_off true o = refl
    padding_off false o = refl

pub apply_post_padding-zero :
    (n : ℕ) (flags : FormatFlags) (o : Out) → flags.width ≡ 0 → apply_post_padding n flags o ≡ o
unfolding apply_post_padding
apply_post_padding-zero n flags o h =
    let e : ltb n flags.width ≡ false = ground arith in rw e (padding_off flags.left_align o)
  where
    padding_off :
        (b : Bool) (o : Out) → emit_if (b && false) (replicate (flags.width - n) b' ') o ≡ o
    padding_off true o = refl
    padding_off false o = refl
