-- ===== src/Text/Format/Print/Safety.antt =====
-- `format_string_v` (lib/debug.cpp) never writes past its buffer, and ends it with a 0.
use wandos.Base.{
  ◌%◌, ℕ, zero, suc, ◌+◌, ◌-◌, ◌<◌, ◌≡◌, refl, ap, true, Bool-cases, inl, inr, Option, none, some,
  List, [], ◌∷◌, ◌++◌, arith, tests, ltb, ◌==◌, length, set, take, min, get_or, length-append,
  length-set, get_or-set_self,
}
use wandos.Text.CString.{content}
use wandos.Text.Format.Output.{
  Out, emit, FormatFlags, no_flags, apply_padding, apply_post_padding, Extends, Extends-refl,
  Extends-then, Extends-trans, emit-Extends, apply_padding-Extends,
}
use wandos.Text.Format.Numbers.Bounds.{
  digits-Extends, format_integer-Extends, format_unsigned-Extends, format_hex-Extends,
  format_octal-Extends, format_pointer-Extends,
}
use wandos.Text.Format.Flags.{Arg, next_word, next_text, to_long, here, advance, parse_format_flags}
use wandos.Text.Format.Print.{
  null_text, text_length, format_text, format_string, format_char, Conversion, integer,
  unsigned_integer, hex, octal, string, character, pointer, other, conversion, convert, Cursor,
  is_done, next, print_from, terminated, format_string_v,
}

-- Contents between the two paddings.
padded-Extends :
    (cs : List ℕ) (n : ℕ) (flags : FormatFlags) (o : Out)
    → Extends o (apply_post_padding n flags (emit cs (apply_padding n flags o)))
padded-Extends cs n flags o =
    Extends-then (apply_padding n flags) (λ o. apply_post_padding n flags (emit cs o))
      (apply_padding-Extends n flags) (digits-Extends cs n flags) o

format_string-Extends :
    (str : Option (List ℕ)) (flags : FormatFlags) (o : Out) → Extends o (format_string str flags o)
unfolding format_string format_text
format_string-Extends none flags o =
    padded-Extends (take (text_length null_text flags) (content null_text))
      (text_length null_text flags) flags o
format_string-Extends (some str) flags o =
    padded-Extends (take (text_length str flags) (content str)) (text_length str flags) flags o

convert-Extends :
    (k : Conversion) (flags : FormatFlags) (args : List Arg) (o : Out)
    → Extends o (convert k flags args o).result
unfolding convert format_char
convert-Extends integer flags args o =
    format_integer-Extends (to_long (next_word args).result) flags o
convert-Extends unsigned_integer flags args o =
    format_unsigned-Extends (next_word args).result flags o
convert-Extends hex flags args o = format_hex-Extends (next_word args).result flags o
convert-Extends octal flags args o = format_octal-Extends (next_word args).result flags o
convert-Extends string flags args o = format_string-Extends (next_text args).result flags o
convert-Extends character flags args o =
    padded-Extends (((next_word args).result % 256) ∷ []) 1 flags o
convert-Extends pointer flags args o = format_pointer-Extends (next_word args).result o
convert-Extends other flags args o = emit-Extends (flags.type ∷ []) o

next-Extends : (c : Cursor) → Extends c.out (next c).out
unfolding next
next-Extends c = elim (Bool-cases (here c.format == b'%')) [
  | inl e ↦
      let parsed = parse_format_flags (advance c.format) no_flags c.args in
      rw e (convert-Extends (conversion parsed.1.type) parsed.1 parsed.2 c.out)
  | inr e ↦ rw e (emit-Extends (here c.format ∷ []) c.out)
]

print_from-Extends : (fuel : ℕ) (c : Cursor) → Extends c.out (print_from fuel c).out
unfolding print_from
print_from-Extends zero c = Extends-refl c.out
print_from-Extends (suc fuel) c = elim (Bool-cases (is_done c)) [
  | inl e ↦ rw e (Extends-refl c.out)
  | inr e ↦ rw e (
      Extends-trans c.out (next c).out (print_from fuel (next c)).out (next-Extends c)
        (print_from-Extends fuel (next c)))
]

get_or-snoc : (xs : List ℕ) (x d : ℕ) → get_or (xs ++ x ∷ []) (length xs) d ≡ x
get_or-snoc [] x d = refl
get_or-snoc (y ∷ xs) x d = get_or-snoc xs x d

length-terminated :
    (size : ℕ) (o : Out)
    → o.room + length o.written ≡ size
    → length (terminated size o) ≡ min size (length o.written + 1)
unfolding terminated
length-terminated size o h = elim (Bool-cases (ltb 0 o.room)) [
  | inl e ↦ rw e (omega (tests, e, length-append o.written (0 ∷ [])))
  | inr e ↦ elim (Bool-cases (ltb 0 size)) [
    | inl f ↦ rw (e, f) (ground (arith, e, length-set o.written (size - 1) 0))
    | inr f ↦ rw (e, f) (ground arith)
  ]
]

last_terminated :
    (size : ℕ) (o : Out)
    → o.room + length o.written ≡ size
    → 0 < size
    → get_or (terminated size o) (length (terminated size o) - 1) 1 ≡ 0
unfolding terminated
last_terminated size o h l = elim (Bool-cases (ltb 0 o.room)) [
  | inl e ↦
      let last : length (o.written ++ 0 ∷ []) - 1 ≡ length o.written =
        omega (arith, length-append o.written (0 ∷ [])) in
      rw (e, last) (get_or-snoc o.written 0 1)
  | inr e ↦
      let some_size : ltb 0 size ≡ true = ground arith in
      let last : length (set o.written (size - 1) 0) - 1 ≡ size - 1 =
        ground (arith, length-set o.written (size - 1) 0) in
      rw (e, some_size, last) (get_or-set_self o.written (size - 1) 0 1 (ground arith))
]

-- For every format, arguments and size: the bytes written are the result and one more, or `size`
-- if that is less; and if `size` is not 0, the last of them is a 0.
pub format_string_v_bounds :
    (size : ℕ) (format : List ℕ) (args : List Arg)
    → let r = format_string_v size format args in
      (length r.0 ≡ min size (r.1 + 1)) × (0 < size → get_or r.0 (length r.0 - 1) 1 ≡ 0)
unfolding format_string_v
format_string_v_bounds size format args =
    (length-terminated size o fits, last_terminated size o fits)
  where
    start : Cursor
    start = record { format = format; args = args; out = record { written = []; room = size } }

    o : Out
    o = (print_from (length format) start).out

    fits : o.room + length o.written ≡ size
    fits =
        let v = print_from-Extends (length format) start in
        omega (arith, v.room, ap length v.written)
