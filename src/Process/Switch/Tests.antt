-- ===== src/Process/Switch/Tests.antt =====
-- A switch between two tasks at concrete frames (kernel/process/process.cpp).
use wandos.Base.{◌≡◌, refl, false, [], ◌∷◌, arith}
use wandos.Process.Switch.{Registers, Task, save_context, restore_context, running}
use wandos.Process.Switch.Laws.{Frame, words, restore-save}

abbrev cleared : Registers
cleared = record {
  eax = 0;
  ebx = 0;
  ecx = 0;
  edx = 0;
  esi = 0;
  edi = 0;
  esp = 0;
  ebp = 0;
  cs = 0;
  ds = 0;
  ss = 0;
  es = 0;
  fs = 0;
  gs = 0;
  cr3 = 0x400000;
  eip = 0;
  eflags = 0;
}

abbrev idle : Task
idle = record { regs = cleared; esp0 = 0x9000; halted = false; cpu = 0 }

abbrev in_user : Frame
in_user = record {
  edi = 1;
  esi = 2;
  ebp = 3;
  esp = 4;
  ebx = 5;
  edx = 6;
  ecx = 7;
  eax = 8;
  ds = 0x23;
  es = 0x23;
  fs = 0x23;
  gs = 0x23;
  eip = 0x8048000;
  cs = 0x1b;
  eflags = 0x200;
  rest = [];
}

abbrev in_kernel : Frame
in_kernel = record {
  edi = 9;
  esi = 9;
  ebp = 9;
  esp = 9;
  ebx = 9;
  edx = 9;
  ecx = 9;
  eax = 9;
  ds = 0x10;
  es = 0x10;
  fs = 0x10;
  gs = 0x10;
  eip = 0xC0100000;
  cs = 0x08;
  eflags = 0x202;
  rest = 77 ∷ [];
}

abbrev astray : Frame
astray = record in_user { cs = 0x33 }

restore-save_example :
    (t' : Task) × (restore_context 2 (words in_kernel) (save_context (words in_user) idle)
      ≡ running (words (record in_user { rest = 77 ∷ [] })) t' 0x9000 0x400000)
    × (t'.cpu ≡ 2)
    × (t'.halted ≡ false)
restore-save_example = restore-save in_user in_kernel idle 2 (omega arith) refl
