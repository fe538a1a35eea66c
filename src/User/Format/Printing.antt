-- ===== src/User/Format/Printing.antt =====
-- What `printf` and `fprintf` of nanOS/Userland/SampleCodeModule/stdio.c put out.
use tpe_arqui.Prelude.{
  ℕ, ◌+◌, ◌^◌, ◌<◌, ◌≡◌, ◌≢◌, refl, sym, ap, ◌∙◌, arith, ◌==◌, false, ℤ, Option, none, some, List,
  [], ◌∷◌, ◌++◌, length, length-append,
}
use tpe_arqui.Libc.Copy.{Memory}
use tpe_arqui.Libc.Numbers.{itoa}
use tpe_arqui.Libc.Numbers.Laws.{magnitude}
use tpe_arqui.User.Format.{
  aux_size, prints, emits, Output, Arg, int_arg, string_arg, low_byte, print_number, fprintformat,
}
use tpe_arqui.User.Format.Text.{Stands, Stands-same, prints-Stands, decimal, Texts, itoa-Texts}

-- What a programmer wants printed: a character, `%d` of a number, `%s` of a string, which stands at an
-- address, `%c` of a number, and the character `%`.
pub data Piece : Type 0 where
  plain : ℕ → Piece
  number : ℤ → Piece
  text : ℕ → List ℕ → Piece
  byte : ℤ → Piece
  percent : Piece

abbrev pub format_of : List Piece → List ℕ
format_of [] = []
format_of (plain c ∷ ps) = c ∷ format_of ps
format_of (number v ∷ ps) = 37 ∷ b'd' ∷ format_of ps
format_of (text a str ∷ ps) = 37 ∷ b's' ∷ format_of ps
format_of (byte v ∷ ps) = 37 ∷ b'c' ∷ format_of ps
format_of (percent ∷ ps) = 37 ∷ 37 ∷ format_of ps

abbrev pub args_of : List Piece → List Arg
args_of [] = []
args_of (plain c ∷ ps) = args_of ps
args_of (number v ∷ ps) = int_arg v ∷ args_of ps
args_of (text a str ∷ ps) = string_arg a ∷ args_of ps
args_of (byte v ∷ ps) = int_arg v ∷ args_of ps
args_of (percent ∷ ps) = args_of ps

abbrev pub rendered : List Piece → List ℕ
rendered [] = []
rendered (plain c ∷ ps) = c ∷ rendered ps
rendered (number v ∷ ps) = decimal v ++ rendered ps
rendered (text a str ∷ ps) = str ++ rendered ps
rendered (byte v ∷ ps) = low_byte v ∷ rendered ps
rendered (percent ∷ ps) = 37 ∷ rendered ps

-- The strings stand below the local array `aux`, and each number and its negative are of type `int`.
abbrev pub Printable : ℕ → Memory → ℕ → List Piece → Type 0
Printable fuel m aux [] = Unit {0}
Printable fuel m aux (plain c ∷ ps) = (c ≢ 37) × Printable fuel m aux ps
Printable fuel m aux (number v ∷ ps) =
    (magnitude v < 2 ^ 31) × (length (decimal v) < fuel) × Printable fuel m aux ps
Printable fuel m aux (text a str ∷ ps) =
    Stands m a str × (a + length str < aux) × (length str < fuel) × Printable fuel m aux ps
Printable fuel m aux (byte v ∷ ps) = Printable fuel m aux ps
Printable fuel m aux (percent ∷ ps) = Printable fuel m aux ps

Printable-same :
    (fuel : ℕ) (m k : Memory) (aux : ℕ) (ps : List Piece)
    → ((b : ℕ) → b < aux → k b ≡ m b)
    → Printable fuel m aux ps
    → Printable fuel k aux ps
Printable-same fuel m k aux [] same h = tt
Printable-same fuel m k aux (plain c ∷ ps) same (n, h) = (n, Printable-same fuel m k aux ps same h)
Printable-same fuel m k aux (number v ∷ ps) same (n, l, h) =
    (n, l, Printable-same fuel m k aux ps same h)
Printable-same fuel m k aux (text a str ∷ ps) same (st, l, f, h) =
    (Stands-same m k a aux str l same st, l, f, Printable-same fuel m k aux ps same h)
Printable-same fuel m k aux (byte v ∷ ps) same h = Printable-same fuel m k aux ps same h
Printable-same fuel m k aux (percent ∷ ps) same h = Printable-same fuel m k aux ps same h

emitted :
    (out rest : List ℕ)
    → emits (length out) out (some (length rest, rest)) ≡ some (length (out ++ rest), out ++ rest)
emitted out rest = ap (λ n. some (n, out ++ rest)) (sym (length-append out rest))

pub plain_step :
    (fuel : ℕ) (m : Memory) (aux c : ℕ) (format : List ℕ) (args : List Arg)
    → (c == 37) ≡ false
    → fprintformat fuel m aux (c ∷ format) args
      ≡ emits 1 (c ∷ []) (fprintformat fuel m aux format args)
unfolding fprintformat
plain_step fuel m aux c [] args e = rw (e) refl
plain_step fuel m aux c (d ∷ format) args e = rw (fprintformat, e) refl

text_step :
    (fuel : ℕ) (m : Memory) (aux a : ℕ) (str format : List ℕ) (args : List Arg)
    → prints fuel m a ≡ some (length str, str)
    → fprintformat fuel m aux (37 ∷ b's' ∷ format) (string_arg a ∷ args)
      ≡ emits (length str) str (fprintformat fuel m aux format args)
unfolding fprintformat
text_step fuel m aux a str format args e = rw (fprintformat, e) refl

-- A number printed, with memory after it.
abbrev Numbered : Memory → ℕ → ℤ → Option (Memory × Output) → Type 0
Numbered m aux v out =
    (k : Memory) × (out ≡ some (k, (length (decimal v), decimal v)))
    × ((b : ℕ) → b < aux → k b ≡ m b)

numbered :
    (fuel : ℕ) (m : Memory) (aux : ℕ) (v : ℤ) (out : Option (ℕ × Memory))
    → Texts m aux v out
    → length (decimal v) < fuel
    → Numbered m aux v (elim out [
      | none ↦ none
      | some (len, written) ↦ elim (prints fuel written aux) [
        | none ↦ none
        | some shown ↦ some (written, shown)
      ]
    ])
numbered fuel m aux v none t l = absurd t
numbered fuel m aux v (some (len, k)) (st, same) l =
    (k, rw (prints-Stands fuel k aux (decimal v) st l) refl, same)

print_number-Numbered :
    (fuel : ℕ) (m : Memory) (aux : ℕ) (v : ℤ)
    → magnitude v < 2 ^ 31
    → length (decimal v) < fuel
    → Numbered m aux v (print_number fuel m aux v 10)
unfolding print_number
print_number-Numbered fuel m aux v b l =
    numbered fuel m aux v (itoa aux_size m v aux 10) (itoa-Texts m v aux b) l

number_step :
    (fuel : ℕ) (m k : Memory) (aux : ℕ) (v : ℤ) (format : List ℕ) (args : List Arg)
    → print_number fuel m aux v 10 ≡ some (k, (length (decimal v), decimal v))
    → fprintformat fuel m aux (37 ∷ b'd' ∷ format) (int_arg v ∷ args)
      ≡ emits (length (decimal v)) (decimal v) (fprintformat fuel k aux format args)
unfolding fprintformat
number_step fuel m k aux v format args e = rw (fprintformat, e) refl

byte_step :
    (fuel : ℕ) (m : Memory) (aux : ℕ) (v : ℤ) (format : List ℕ) (args : List Arg)
    → fprintformat fuel m aux (37 ∷ b'c' ∷ format) (int_arg v ∷ args)
      ≡ emits 1 (low_byte v ∷ []) (fprintformat fuel m aux format args)
unfolding fprintformat
byte_step fuel m aux v format args = refl

percent_step :
    (fuel : ℕ) (m : Memory) (aux : ℕ) (format : List ℕ) (args : List Arg)
    → fprintformat fuel m aux (37 ∷ 37 ∷ format) args
      ≡ emits 1 (37 ∷ []) (fprintformat fuel m aux format args)
unfolding fprintformat
percent_step fuel m aux format args = refl

pub nothing_left : (fuel : ℕ) (m : Memory) (aux : ℕ) → fprintformat fuel m aux [] [] ≡ some (0, [])
unfolding fprintformat
nothing_left fuel m aux = refl

-- For a format of characters, `%d`, `%s`, `%c` and `%%`, with an argument for each that wants one,
-- `fprintformat` always finishes; it puts out the characters, the decimal text of the numbers, the
-- strings and the low bytes in their order, and returns how many characters that is. (A number and
-- its negative are of type `int`; a string ends in 0, below the local array; and the fuel is more
-- than the length of each string and of the text of each number.)
pub fprintformat-rendered :
    (fuel : ℕ) (m : Memory) (aux : ℕ) (ps : List Piece)
    → Printable fuel m aux ps
    → fprintformat fuel m aux (format_of ps) (args_of ps) ≡ some (length (rendered ps), rendered ps)
fprintformat-rendered fuel m aux [] h = nothing_left fuel m aux
fprintformat-rendered fuel m aux (plain c ∷ ps) (n, h) =
    plain_step fuel m aux c (format_of ps) (args_of ps) (ground (arith, n))
    ∙ ap (emits 1 (c ∷ [])) (fprintformat-rendered fuel m aux ps h)
    ∙ emitted (c ∷ []) (rendered ps)
fprintformat-rendered fuel m aux (number v ∷ ps) (b, l, h) =
    let (k, printed, same) = print_number-Numbered fuel m aux v b l in
    number_step fuel m k aux v (format_of ps) (args_of ps) printed
    ∙ ap (emits (length (decimal v)) (decimal v))
        (fprintformat-rendered fuel k aux ps (Printable-same fuel m k aux ps same h))
    ∙ emitted (decimal v) (rendered ps)
fprintformat-rendered fuel m aux (text a str ∷ ps) (st, l, f, h) =
    text_step fuel m aux a str (format_of ps) (args_of ps) (prints-Stands fuel m a str st f)
    ∙ ap (emits (length str) str) (fprintformat-rendered fuel m aux ps h)
    ∙ emitted str (rendered ps)
fprintformat-rendered fuel m aux (byte v ∷ ps) h =
    byte_step fuel m aux v (format_of ps) (args_of ps)
    ∙ ap (emits 1 (low_byte v ∷ [])) (fprintformat-rendered fuel m aux ps h)
    ∙ emitted (low_byte v ∷ []) (rendered ps)
fprintformat-rendered fuel m aux (percent ∷ ps) h =
    percent_step fuel m aux (format_of ps) (args_of ps)
    ∙ ap (emits 1 (37 ∷ [])) (fprintformat-rendered fuel m aux ps h)
    ∙ emitted (37 ∷ []) (rendered ps)
