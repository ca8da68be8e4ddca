-- ===== src/Process/Switch.antt =====
-- kernel/process/process.cpp: the registers of a task, kept from an interrupt's stack frame by
-- `save_context` and put back by `restore_context`. The frame is the list of its words:
-- edi, esi, ebp, esp, ebx, edx, ecx, eax, ds, es, fs, gs, then eip, cs and eflags.
use wandos.Base.{
  ℕ, ◌+◌, ◌%◌, ◌^◌, Bool, true, false, not, List, [], ◌∷◌, ◌==◌, ◌&&◌, ◌||◌, if◌then◌else◌, set,
  get_or,
}
pub mod Laws
pub mod Tests

pub record Registers : Type 0 where
  pub eax : ℕ
  pub ebx : ℕ
  pub ecx : ℕ
  pub edx : ℕ
  pub esi : ℕ
  pub edi : ℕ
  pub esp : ℕ
  pub ebp : ℕ
  pub cs : ℕ
  pub ds : ℕ
  pub ss : ℕ
  pub es : ℕ
  pub fs : ℕ
  pub gs : ℕ
  pub cr3 : ℕ
  pub eip : ℕ
  pub eflags : ℕ

-- The part of a task that a switch reads and writes.
pub record Task : Type 0 where
  pub regs : Registers
  pub esp0 : ℕ
  pub halted : Bool
  pub cpu : ℕ

-- A segment register is 16 bits wide.
abbrev pub low_half : ℕ → ℕ
low_half w = w % 2 ^ 16

abbrev pub is_code : ℕ → Bool
is_code cs = cs == 0x08 || cs == 0x1b

pub save_context : List ℕ → Task → Task
save_context frame current =
    let at = λ (i : ℕ). get_or frame i 0 in
    let regs : Registers = record current.regs {
      eax = at 7;
      ecx = at 6;
      edx = at 5;
      ebx = at 4;
      esp = at 3;
      ebp = at 2;
      esi = at 1;
      edi = at 0;
      eflags = at 14;
      cs = low_half (at 13);
      eip = at 12;
      ds = low_half (at 8);
      es = low_half (at 9);
      fs = low_half (at 10);
      gs = low_half (at 11);
    } in
    record current { regs = regs; halted = current.halted || not (is_code regs.cs) || regs.ds == 0 }

-- What `restore_context` leaves: the frame and the task, with what it loads into the processor's task
-- state and into cr3. `halt` is the loop that it never leaves.
pub data Restored : Type 0 where
  halt : Restored
  running : List ℕ → Task → ℕ → ℕ → Restored

pub put_registers : Registers → List ℕ → List ℕ
put_registers regs frame =
    let general =
      set
        (set
          (set
            (set (set (set (set (set frame 7 regs.eax) 6 regs.ecx) 5 regs.edx) 4 regs.ebx) 3
              regs.esp)
            2 regs.ebp)
          1 regs.esi)
        0 regs.edi in
    let control = set (set (set general 14 regs.eflags) 13 regs.cs) 12 regs.eip in
    set (set (set (set control 8 regs.ds) 9 regs.es) 10 regs.fs) 11 regs.gs

pub restore_context : ℕ → List ℕ → Task → Restored
unfolding put_registers
restore_context cpu frame next =
    if not (is_code next.regs.cs) && next.halted
    then halt
    else running (put_registers next.regs frame) (record next { halted = false; cpu = cpu })
        next.esp0 next.regs.cr3
