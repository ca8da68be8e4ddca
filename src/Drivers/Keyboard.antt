-- ===== src/Drivers/Keyboard.antt =====
-- drivers/keyboard.cpp: the tables, the translation of scan codes and the ring of input events. The
-- ports are left out: a scan code is an argument. Characters are bytes.
use wandos.Base.{
  ℕ, zero, suc, ◌+◌, ◌%◌, Bool, true, false, ◌||◌, List, [], ◌∷◌, leb, ◌==◌, if◌then◌else◌, get_or,
  set, replicate,
}
pub mod Laws
pub mod Tests

-- `struct input_event`, whose two times are always 0.
pub record InputEvent : Type 0 where
  pub type : ℕ
  pub code : ℕ
  pub value : ℕ

-- The static variables of the file.
pub record Keyboard : Type 0 where
  pub normal_scancode_map : List ℕ
  pub shift_scancode_map : List ℕ
  pub extended_scancode_map : List ℕ
  pub shift_pressed : Bool
  pub precode : ℕ
  pub event_buffer : List InputEvent
  pub buffer_head : ℕ
  pub buffer_tail : ℕ

abbrev pub event_buffer_size : ℕ
event_buffer_size = 32

abbrev pub no_event : InputEvent
no_event = record { type = 0; code = 0; value = 0 }

-- Assignments to the entries of a table, one after the other.
pub assign : List (ℕ × ℕ) → List ℕ → List ℕ
assign [] t = t
assign ((k, v) ∷ rest) t = assign rest (set t k v)

abbrev pub extended_keys : List (ℕ × ℕ)
extended_keys = (0x48, 24) ∷ (0x50, 25) ∷ (0x4D, 26) ∷ (0x4B, 27) ∷ (0x53, 0) ∷ []

abbrev pub normal_keys : List (ℕ × ℕ)
normal_keys =
    (0x3B, 0)
    ∷ (0x3C, 0)
    ∷ (0x3D, 0)
    ∷ (0x3E, 0)
    ∷ (0x3F, 0)
    ∷ (0x40, 0)
    ∷ (0x41, 0)
    ∷ (0x42, 0)
    ∷ (0x43, 0)
    ∷ (0x44, 0)
    ∷ (0x57, 0)
    ∷ (0x58, 0)
    ∷ (0x1E, 97)
    ∷ (0x30, 98)
    ∷ (0x2E, 99)
    ∷ (0x20, 100)
    ∷ (0x12, 101)
    ∷ (0x21, 102)
    ∷ (0x22, 103)
    ∷ (0x23, 104)
    ∷ (0x17, 105)
    ∷ (0x24, 106)
    ∷ (0x25, 107)
    ∷ (0x26, 108)
    ∷ (0x32, 109)
    ∷ (0x31, 110)
    ∷ (0x18, 111)
    ∷ (0x19, 112)
    ∷ (0x10, 113)
    ∷ (0x13, 114)
    ∷ (0x1F, 115)
    ∷ (0x14, 116)
    ∷ (0x16, 117)
    ∷ (0x2F, 118)
    ∷ (0x2C, 119)
    ∷ (0x2D, 120)
    ∷ (0x15, 121)
    ∷ (0x2A, 122)
    ∷ (0x02, 49)
    ∷ (0x03, 50)
    ∷ (0x04, 51)
    ∷ (0x05, 52)
    ∷ (0x06, 53)
    ∷ (0x07, 54)
    ∷ (0x08, 55)
    ∷ (0x09, 56)
    ∷ (0x0A, 57)
    ∷ (0x0B, 48)
    ∷ (0x0C, 45)
    ∷ (0x0D, 61)
    ∷ (0x1A, 91)
    ∷ (0x1B, 93)
    ∷ (0x29, 59)
    ∷ (0x28, 39)
    ∷ (0x33, 44)
    ∷ (0x34, 46)
    ∷ (0x35, 47)
    ∷ (0x0E, 8)
    ∷ (0x11, 9)
    ∷ (0x1C, 10)
    ∷ (0x39, 32)
    ∷ []

pub init_normal_scancode_map : Keyboard → Keyboard
unfolding assign
init_normal_scancode_map s = record s {
  extended_scancode_map = assign extended_keys s.extended_scancode_map;
  normal_scancode_map = assign normal_keys s.normal_scancode_map;
}

abbrev pub shift_keys : List (ℕ × ℕ)
shift_keys =
    (0x1E, 65)
    ∷ (0x30, 66)
    ∷ (0x2E, 67)
    ∷ (0x20, 68)
    ∷ (0x12, 69)
    ∷ (0x21, 70)
    ∷ (0x22, 71)
    ∷ (0x23, 72)
    ∷ (0x17, 73)
    ∷ (0x24, 74)
    ∷ (0x25, 75)
    ∷ (0x26, 76)
    ∷ (0x32, 77)
    ∷ (0x2D, 78)
    ∷ (0x31, 78)
    ∷ (0x18, 79)
    ∷ (0x19, 80)
    ∷ (0x10, 81)
    ∷ (0x13, 82)
    ∷ (0x1F, 83)
    ∷ (0x14, 84)
    ∷ (0x16, 85)
    ∷ (0x2F, 86)
    ∷ (0x2C, 87)
    ∷ (0x2B, 88)
    ∷ (0x15, 89)
    ∷ (0x2A, 90)
    ∷ (0x02, 33)
    ∷ (0x03, 64)
    ∷ (0x04, 35)
    ∷ (0x05, 36)
    ∷ (0x06, 37)
    ∷ (0x07, 94)
    ∷ (0x08, 38)
    ∷ (0x09, 42)
    ∷ (0x0A, 40)
    ∷ (0x0B, 41)
    ∷ (0x0C, 95)
    ∷ (0x0D, 43)
    ∷ (0x1A, 123)
    ∷ (0x1B, 125)
    ∷ (0x29, 58)
    ∷ (0x28, 34)
    ∷ (0x33, 60)
    ∷ (0x34, 62)
    ∷ (0x35, 63)
    ∷ (0x0E, 8)
    ∷ (0x11, 9)
    ∷ (0x1C, 10)
    ∷ (0x39, 32)
    ∷ []

pub init_shift_scancode_map : Keyboard → Keyboard
unfolding assign
init_shift_scancode_map s = record s { shift_scancode_map = assign shift_keys s.shift_scancode_map }

-- The static variables before `keyboard_init`.
abbrev pub at_boot : Keyboard
at_boot = record {
  normal_scancode_map = replicate 256 0;
  shift_scancode_map = replicate 256 0;
  extended_scancode_map = replicate 256 0;
  shift_pressed = false;
  precode = 0;
  event_buffer = replicate event_buffer_size no_event;
  buffer_head = 0;
  buffer_tail = 0;
}

-- `keyboard_init` after it has emptied the port.
pub keyboard_init : Keyboard → Keyboard
unfolding init_normal_scancode_map init_shift_scancode_map
keyboard_init s =
    let t = init_shift_scancode_map (init_normal_scancode_map s) in
    record t {
      event_buffer = replicate event_buffer_size no_event;
      buffer_head = 0;
      buffer_tail = 0;
    }

-- It does not compare the new tail with the head.
pub push_event : ℕ → ℕ → ℕ → Keyboard → Keyboard
push_event type code value s = record s {
  event_buffer =
      set s.event_buffer s.buffer_tail (record { type = type; code = code; value = value });
  buffer_tail = (s.buffer_tail + 1) % event_buffer_size;
}

-- `(scancode & 0x80) != 0`, for a byte.
abbrev pub is_release : ℕ → Bool
is_release scancode = leb 128 scancode

pub scancode_to_ascii : Keyboard → ℕ → ℕ × Keyboard
scancode_to_ascii s scancode =
    if scancode == 0x2A || scancode == 0x36
    then (0, record s { shift_pressed = true; precode = scancode })
    else if scancode == 0xAA || scancode == 0xB6
    then (0, record s { shift_pressed = false; precode = scancode })
    else (
      if is_release scancode
          then 0
          else if s.precode == 0xE0
          then get_or s.extended_scancode_map scancode 0
          else if s.shift_pressed
          then get_or s.shift_scancode_map scancode 0
          else get_or s.normal_scancode_map scancode 0,
      record s { precode = scancode },
    )
