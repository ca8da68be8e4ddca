-- ===== src/Text/Format/Print/Fuel.antt =====
-- The loop of `format_string_v` (lib/debug.cpp) ends: each round takes a byte of the format.
use wandos.Base.{
  ℕ, zero, suc, ◌+◌, ◌-◌, ◌*◌, ◌%◌, ◌^◌, ◌≤◌, ◌<◌, ◌≡◌, refl, sym, ◌∙◌, true, false, Bool, ◌&&◌,
  ◌||◌, Option, none, some, Bool-cases, inl, inr, List, [], ◌∷◌, arith, ◌==◌, if◌then◌else◌, length,
}
use wandos.Text.Format.Output.{FormatFlags, no_flags}
use wandos.Text.Format.Flags.{
  Arg, here, advance, parse_marks, parse_number, parse_width, parse_precision, skip_length,
  parse_format_flags,
}
use wandos.Text.Format.Print.{Cursor, is_done, next, print_from}

length-parse_marks : (s : List ℕ) (flags : FormatFlags) → length (parse_marks s flags).0 ≤ length s
unfolding parse_marks
length-parse_marks [] flags = omega arith
length-parse_marks (c ∷ s) flags = ground (
  arith,
  length-parse_marks s (record flags {
    alternative = if c == b'#' then true else flags.alternative;
    zero_padding = if c == b'0' then true else flags.zero_padding;
    left_align = if c == b'-' then true else flags.left_align;
  }),
)

length-parse_number : (n : ℕ) (s : List ℕ) → length (parse_number n s).0 ≤ length s
unfolding parse_number
length-parse_number n [] = omega arith
length-parse_number n (c ∷ s) =
    ground (arith, length-parse_number ((n * 10 + (c - b'0')) % 2 ^ 32) s)

length-advance : (s : List ℕ) → length (advance s) ≤ length s
length-advance [] = omega arith
length-advance (c ∷ s) = omega arith

length-parse_width :
    (s : List ℕ) (flags : FormatFlags) (args : List Arg)
    → length (parse_width s flags args).0 ≤ length s
unfolding parse_width
length-parse_width s flags args = ground (arith, length-parse_number 0 s, length-advance s)

length-parse_precision :
    (s : List ℕ) (flags : FormatFlags) (args : List Arg)
    → length (parse_precision s flags args).0 ≤ length s
unfolding parse_precision
length-parse_precision s flags args =
    ground (arith, length-parse_number 0 (advance s), length-advance s, length-advance (advance s))

length-skip_length : (s : List ℕ) → length (skip_length s) ≤ length s
unfolding skip_length
length-skip_length s = ground (arith, length-advance s, length-advance (advance s))

length-parse_format_flags :
    (s : List ℕ) (flags : FormatFlags) (args : List Arg)
    → length (parse_format_flags s flags args).0 ≤ length s
unfolding parse_format_flags
length-parse_format_flags s flags args =
    let m = parse_marks s flags in
    let w = parse_width m.0 m.1 args in
    let p = parse_precision w.0 w.1 w.2 in
    omega (
      arith,
      length-parse_marks s flags,
      length-parse_width m.0 m.1 args,
      length-parse_precision w.0 w.1 w.2,
      length-skip_length p.0,
    )

-- What is left after a `%` and its letter, and after another byte.
format-next :
    (c : Cursor)
    → (next c).format ≡ (
        if here c.format == b'%'
        then advance (parse_format_flags (advance c.format) no_flags c.args).0
        else advance c.format)
unfolding next
format-next c = elim (Bool-cases (here c.format == b'%')) [ inl e ↦ rw e | inr e ↦ rw e ]

length-advance-lt : (s : List ℕ) → (here s == 0) ≡ false → length (advance s) < length s
length-advance-lt [] h = cc
length-advance-lt (c ∷ s) h = omega arith

-- A round that is made leaves a shorter format.
length-next : (c : Cursor) → is_done c ≡ false → length (next c).format < length c.format
length-next c h =
    let p = (parse_format_flags (advance c.format) no_flags c.args).0 in
    let more : (here c.format == 0) ≡ false = ground (arith, h) in
    let shorter = length-advance-lt c.format more in
    rw (format-next c) (elim (Bool-cases (here c.format == b'%')) [
      | inl e ↦ rw e (
          omega (
            arith,
            shorter,
            length-advance p,
            length-parse_format_flags (advance c.format) no_flags c.args,
          ))
      | inr e ↦ rw e shorter
    ])

length-zero : (s : List ℕ) → length s ≤ 0 → s ≡ []
length-zero [] h = refl
length-zero (c ∷ s) h = absurd (omega arith)

print_from-done : (fuel : ℕ) (c : Cursor) → is_done c ≡ true → print_from fuel c ≡ c
unfolding print_from
print_from-done zero c h = refl
print_from-done (suc fuel) c h = rw h

print_from-more :
    (fuel : ℕ) (c : Cursor) → is_done c ≡ false → print_from (suc fuel) c ≡ print_from fuel (next c)
unfolding print_from
print_from-more fuel c h = rw h

more_rounds :
    (n : ℕ) (c : Cursor)
    → is_done c ≡ false
    → ((m : ℕ) → n ≤ m → print_from m (next c) ≡ print_from n (next c))
    → (m : ℕ) → suc n ≤ m
    → print_from m c ≡ print_from (suc n) c
more_rounds n c h k zero l = absurd (omega arith)
more_rounds n c h k (suc m) l =
    print_from-more m c h ∙ k m (omega arith) ∙ sym (print_from-more n c h)

-- The letter of the conversion at `c` is the 0 at the end: `format++` steps behind the string.
unfoldable pub cut_short : Cursor → Bool
cut_short c =
    here c.format == b'%' && here (parse_format_flags (advance c.format) no_flags c.args).0 == 0

-- The loop with its reads watched: `none` means that a round would read behind the end of the format,
-- or that the rounds ran out.
unfoldable pub watched : ℕ → Cursor → Option Cursor
unfolding cut_short
watched zero c = if is_done c then some c else none
watched (suc fuel) c =
    let rest = watched fuel (next c) in
    if is_done c then some c else if cut_short c then none else rest

-- Whether one of the first rounds is at a conversion without its letter.
unfoldable pub runs_over : ℕ → Cursor → Bool
unfolding cut_short
runs_over zero c = false
runs_over (suc fuel) c =
    let rest = runs_over fuel (next c) in if is_done c then false else cut_short c || rest

watched-done : (n : ℕ) (c : Cursor) → is_done c ≡ true → watched n c ≡ some c
unfolding watched
watched-done zero c h = rw h
watched-done (suc n) c h = rw h

watched-more :
    (n : ℕ) (c : Cursor)
    → is_done c ≡ false
    → cut_short c ≡ false
    → watched (suc n) c ≡ watched n (next c)
unfolding watched
watched-more n c h k = rw (h, k)

runs_over-more :
    (n : ℕ) (c : Cursor)
    → is_done c ≡ false
    → runs_over (suc n) c ≡ false
    → (cut_short c ≡ false) × (runs_over n (next c) ≡ false)
unfolding runs_over
runs_over-more n c h r = elim (Bool-cases (cut_short c)) [
  | inl k ↦ absurd (cc (rw (h, k) at r))
  | inr k ↦ (k, rw (h, k) at r)
]

-- From any state of the loop from which no round comes to a conversion without its letter, as many
-- rounds as the format has bytes are enough: the loop has then ended by its own test, it has read
-- nothing behind the end of the format, and more rounds do not change what it has done.
pub print_from_enough :
    (n : ℕ) (c : Cursor)
    → length c.format ≤ n
    → runs_over n c ≡ false
    → (is_done (print_from n c) ≡ true)
      × (watched n c ≡ some (print_from n c))
      × ((m : ℕ) → n ≤ m → print_from m c ≡ print_from n c)
print_from_enough zero c h r =
    let done : is_done c ≡ true = rw (length-zero c.format h) refl in
    rw (print_from-done zero c done)
      (done, watched-done zero c done, λ m l. print_from-done m c done)
print_from_enough (suc n) c h r = elim (Bool-cases (is_done c)) [
  | inl done ↦
      rw (print_from-done (suc n) c done)
        (done, watched-done (suc n) c done, λ m l. print_from-done m c done)
  | inr more ↦
      let inside = runs_over-more n c more r in
      let rest = print_from_enough n (next c) (omega (arith, length-next c more)) inside.1 in
      (
        rw (print_from-more n c more) rest.0,
        rw (print_from-more n c more) (watched-more n c more inside.0 ∙ rest.1),
        more_rounds n c more rest.2,
      )
]
