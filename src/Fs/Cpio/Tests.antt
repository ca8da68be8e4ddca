-- ===== src/Fs/Cpio/Tests.antt =====
-- The theorem on the fields of a cpio header at a concrete input, and runs of the readers.
use wandos.Base.{◌≡◌, ◌==◌, ◌%◌, ◌^◌, true, refl, [], ◌∷◌, arith}
use wandos.Fs.Cpio.{
  get_filesize, get_namesize, parse_field, get_mode, hex_digit, is_directory, is_regular,
}
use wandos.Fs.Cpio.Laws.{to_field, get_filesize-to_field}

-- The mode 000041ed, of a directory.
directory_mode : is_directory (b'0' ∷ b'0' ∷ b'0' ∷ b'0' ∷ b'4' ∷ b'1' ∷ b'e' ∷ b'd' ∷ []) ≡ true
unfolding is_directory get_mode parse_field hex_digit
directory_mode = refl

-- The mode 000081A4, of a file.
regular_mode : is_regular (b'0' ∷ b'0' ∷ b'0' ∷ b'0' ∷ b'8' ∷ b'1' ∷ b'A' ∷ b'4' ∷ []) ≡ true
unfolding is_regular get_mode parse_field hex_digit
regular_mode = refl

-- 00012aBc
get_filesize-to_field_example :
    (get_filesize (to_field (λ i. i == 1) 8 0x12ABC) ≡ 0x12ABC)
    × (get_namesize (to_field (λ i. i == 1) 8 0x12ABC) ≡ 0x12ABC % 2 ^ 16)
get_filesize-to_field_example = get_filesize-to_field (λ i. i == 1) 0x12ABC (omega arith)
