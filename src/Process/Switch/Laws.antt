-- ===== src/Process/Switch/Laws.antt =====
-- A frame that is saved and restored is the same (kernel/process/process.cpp).
use wandos.Base.{ℕ, ◌%◌, ◌^◌, ◌<◌, ◌≡◌, ◌∙◌, refl, true, false, List, ◌∷◌, arith, ◌==◌, ◌||◌}
use wandos.Process.Switch.{
  Task, is_code, save_context, restore_context, put_registers, halt, running,
}

-- A frame whose segment words are 16 bits wide; the words above the frame are `rest`.
pub record Frame : Type 0 where
  pub edi : ℕ
  pub esi : ℕ
  pub ebp : ℕ
  pub esp : ℕ
  pub ebx : ℕ
  pub edx : ℕ
  pub ecx : ℕ
  pub eax : ℕ
  pub ds : ℕ
  pub es : ℕ
  pub fs : ℕ
  pub gs : ℕ
  pub eip : ℕ
  pub cs : ℕ
  pub eflags : ℕ
  pub rest : List ℕ

pub words : Frame → List ℕ
words f =
    f.edi ∷ f.esi ∷ f.ebp ∷ f.esp ∷ f.ebx ∷ f.edx ∷ f.ecx ∷ f.eax ∷ f.ds ∷ f.es ∷ f.fs ∷ f.gs
    ∷ f.eip ∷ f.cs ∷ f.eflags ∷ f.rest

abbrev pub SegmentsFit : Frame → Type 0
SegmentsFit f =
    (f.ds < 2 ^ 16) × (f.es < 2 ^ 16) × (f.fs < 2 ^ 16) × (f.gs < 2 ^ 16) × (f.cs < 2 ^ 16)

put_registers-save :
    (f g : Frame) (t : Task)
    → SegmentsFit f
    → put_registers (save_context (words f) t).regs (words g) ≡ words (record f { rest = g.rest })
unfolding put_registers save_context words
put_registers-save f g t (ds, es, fs, gs, cs) = ground (arith)

save_cs : (f : Frame) (t : Task) → f.cs < 2 ^ 16 → (save_context (words f) t).regs.cs ≡ f.cs
unfolding save_context words
save_cs f t fit = omega arith

save_kept :
    (f : Frame) (t : Task)
    → ((save_context (words f) t).esp0 ≡ t.esp0)
      × ((save_context (words f) t).regs.cr3 ≡ t.regs.cr3)
unfolding save_context words
save_kept f t = (refl, refl)

save_halted :
    (f : Frame) (t : Task)
    → f.cs < 2 ^ 16
    → is_code f.cs ≡ false
    → (save_context (words f) t).halted ≡ true
unfolding save_context words
save_halted f t fit e =
    let same : f.cs % 2 ^ 16 ≡ f.cs = omega arith in
    rw (same, e)
      (elim t.halted as (λ b. (b || true || (f.ds % 2 ^ 16 == 0)) ≡ true) [
        | true ↦ refl
        | false ↦ refl
      ])

restore_running :
    (cpu : ℕ) (frame : List ℕ) (next : Task)
    → is_code next.regs.cs ≡ true
    → restore_context cpu frame next
      ≡ running
          (put_registers next.regs frame)
          (record next { halted = false; cpu = cpu })
          next.esp0
          next.regs.cr3
unfolding restore_context
restore_running cpu frame next e = rw e

-- A task that is interrupted in kernel or user code, and is restored from any later frame on a
-- processor `cpu`, gets back every word of its frame; the words above the later frame stay. The
-- processor gets its kernel stack and page directory.
pub restore-save :
    (f g : Frame) (t : Task) (cpu : ℕ)
    → SegmentsFit f
    → is_code f.cs ≡ true
    → (t' : Task) × (restore_context cpu (words g) (save_context (words f) t)
        ≡ running (words (record f { rest = g.rest })) t' t.esp0 t.regs.cr3)
      × (t'.cpu ≡ cpu)
      × (t'.halted ≡ false)
restore-save f g t cpu fit code =
    let s = save_context (words f) t in
    let t' : Task = record s { halted = false; cpu = cpu } in
    let coded : is_code s.regs.cs ≡ true = rw (save_cs f t fit.4) code in
    let (stack, pages) = save_kept f t in
    (
      t',
      restore_running cpu (words g) s coded
          ∙ (λ i. running (put_registers-save f g t fit i) t' (stack i) (pages i)),
      refl,
      refl,
    )

-- A task that is interrupted with any other code segment is halted when it is to be restored.
pub restore-save_halts :
    (f g : Frame) (t : Task) (cpu : ℕ)
    → f.cs < 2 ^ 16
    → is_code f.cs ≡ false
    → restore_context cpu (words g) (save_context (words f) t) ≡ halt
unfolding restore_context
restore-save_halts f g t cpu fit bad = rw (save_cs f t fit, bad, save_halted f t fit bad)
