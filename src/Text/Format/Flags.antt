-- ===== src/Text/Format/Flags.antt =====
-- lib/debug.cpp: what may stand between a `%` and the letter of a format. A `const char*` is the list
-- of the bytes from it on; the end of the list counts as a 0. The arguments are the machine words
-- and texts that were passed; one that is missing, which is undefined, is a 0.
use wandos.Base.{
  ℕ, ◌+◌, ◌-◌, ◌*◌, ◌%◌, ◌^◌, Bool, true, ◌&&◌, Option, none, some, List, [], ◌∷◌, ltb, leb, ◌==◌,
  if◌then◌else◌,
}
use wandos.Base.Int.{ℤ, pos, negsuc}
use wandos.Text.Format.Output.{FormatFlags}

-- A null `const char*` is `text none`.
pub data Arg : Type 0 where
  word : ℕ → Arg
  text : Option (List ℕ) → Arg

pub record Parsed (A : Type 0) : Type 0 where
  pub result : A
  pub args : List Arg

-- `va_arg(args, unsigned long)`. A pointer read as a number is none that the model knows: 0.
unfoldable pub next_word : List Arg → Parsed ℕ
next_word [] = record { result = 0; args = [] }
next_word (word w ∷ args) = record { result = w; args = args }
next_word (text s ∷ args) = record { result = 0; args = args }

-- `va_arg(args, const char*)`
unfoldable pub next_text : List Arg → Parsed (Option (List ℕ))
next_text [] = record { result = none; args = [] }
next_text (word w ∷ args) = record { result = none; args = args }
next_text (text s ∷ args) = record { result = s; args = args }

-- `va_arg(args, long)`: the integer that the word stands for.
unfoldable pub to_long : ℕ → ℤ
to_long w = if ltb w (2 ^ 31) then pos w else negsuc (2 ^ 32 - w - 1)

-- `*format`
abbrev pub here : List ℕ → ℕ
here [] = 0
here (c ∷ s) = c

-- `format++`
abbrev pub advance : List ℕ → List ℕ
advance [] = []
advance (c ∷ s) = s

abbrev pub is_digit : ℕ → Bool
is_digit c = leb b'0' c && leb c b'9'

-- The loop over `#`, `0` and `-`.
unfoldable pub parse_marks : List ℕ → FormatFlags → List ℕ × FormatFlags
parse_marks [] flags = ([], flags)
parse_marks (c ∷ s) flags =
    let rest = parse_marks s (record flags {
      alternative = if c == b'#' then true else flags.alternative;
      zero_padding = if c == b'0' then true else flags.zero_padding;
      left_align = if c == b'-' then true else flags.left_align;
    }) in
    if c == b'#'
    then rest
    else if c == b'0'
    then rest
    else if c == b'-'
    then rest
    else (c ∷ s, flags)

-- The loops `n = n * 10 + (*format - '0')` on an `int`, as its 32 bits: it wraps where the number is
-- too large, which the language leaves undefined.
unfoldable pub parse_number : ℕ → List ℕ → List ℕ × ℕ
parse_number n [] = ([], n)
parse_number n (c ∷ s) =
    let rest = parse_number ((n * 10 + (c - b'0')) % 2 ^ 32) s in
    if is_digit c then rest else (c ∷ s, n)

-- A width or a precision from its 32 bits; `none` if it is negative.
unfoldable pub star : ℕ → Option ℕ
star w = if ltb w (2 ^ 31) then some w else none

-- A negative width pads as a width of 0 does.
unfoldable pub parse_width : List ℕ → FormatFlags → List Arg → List ℕ × FormatFlags × List Arg
unfolding parse_number star next_word
parse_width format flags args =
    if is_digit (here format)
    then (let r = parse_number 0 format in
        (r.0, record flags { width = elim (star r.1) [ some w ↦ w | none ↦ 0 ] }, args))
    else if here format == b'*'
    then (let a = next_word args in
        (
          advance format,
          record flags { width = elim (star a.result) [ some w ↦ w | none ↦ 0 ] },
          a.args,
        ))
    else (format, flags, args)

unfoldable pub parse_precision : List ℕ → FormatFlags → List Arg → List ℕ × FormatFlags × List Arg
unfolding parse_number star next_word
parse_precision format flags args =
    if here format == b'.'
    then (if is_digit (here (advance format))
        then (let r = parse_number 0 (advance format) in
            (r.0, record flags { precision = star r.1 }, args))
        else if here (advance format) == b'*'
        then (let a = next_word args in
            (advance (advance format), record flags { precision = star a.result }, a.args))
        else (advance format, record flags { precision = some 0 }, args))
    else (format, flags, args)

-- `l`, `ll`, `h`, `hh`
unfoldable pub skip_length : List ℕ → List ℕ
skip_length format =
    if here format == b'l'
    then (if here (advance format) == b'l' then advance (advance format) else advance format)
    else if here format == b'h'
    then (if here (advance format) == b'h' then advance (advance format) else advance format)
    else format

-- The pointer that it returns is at the letter, which is in the flags as well.
unfoldable pub parse_format_flags :
    List ℕ → FormatFlags → List Arg → List ℕ × FormatFlags × List Arg
unfolding parse_marks parse_width parse_precision skip_length
parse_format_flags format flags args =
    let m = parse_marks format flags in
    let w = parse_width m.0 m.1 args in
    let p = parse_precision w.0 w.1 w.2 in
    let rest = skip_length p.0 in (rest, record p.1 { type = here rest }, p.2)
