-- ===== src/Fs/Cpio.antt =====
-- include/kernel/cpio.h: the header of a file in a cpio archive, whose fields are eight hexadecimal digits.
use wandos.Base.{
  ℕ, ◌+◌, ◌-◌, ◌*◌, ◌/◌, ◌%◌, ◌^◌, Bool, true, false, ◌&&◌, List, [], ◌∷◌, leb, ◌==◌, if◌then◌else◌,
}
pub mod Laws
pub mod Tests

-- A character that is no digit adds nothing.
pub hex_digit : ℕ → ℕ
hex_digit c =
    if leb b'0' c && leb c b'9'
    then c - b'0'
    else if leb b'a' c && leb c b'f'
    then c - b'a' + 10
    else if leb b'A' c && leb c b'F'
    then c - b'A' + 10
    else 0

-- The loop over a field, in a number of `w` bits: `size <<= 4; size |= …`, where the low four bits are 0.
pub parse_field : ℕ → ℕ → List ℕ → ℕ
unfolding hex_digit
parse_field w size [] = size
parse_field w size (c ∷ cs) = parse_field w (size * 16 % 2 ^ w + hex_digit c) cs

pub get_filesize : List ℕ → ℕ
unfolding parse_field
get_filesize filesize = parse_field 32 0 filesize

pub get_namesize : List ℕ → ℕ
unfolding parse_field
get_namesize namesize = parse_field 16 0 namesize

pub get_mode : List ℕ → ℕ
unfolding parse_field
get_mode mode = parse_field 16 0 mode

-- `(mode & 0xF000) == 0x4000`, for 16 bits.
pub is_directory : List ℕ → Bool
unfolding get_mode
is_directory mode = get_mode mode / 4096 == 4

pub is_regular : List ℕ → Bool
unfolding get_mode
is_regular mode = get_mode mode / 4096 == 8
