-- ===== src/User/Format.antt =====
-- Formatted output and input: `prints`, `printi`, `printb`, `printx`, `fprintformat`, `readline` and
-- `scanf` of nanOS/Userland/SampleCodeModule/stdio.c. Its `itoa` and `atoi`, of stdlib.c there, are
-- those of the kernel, word for word. What is put out is a list of characters; `fuel` is for the
-- loops over strings.
pub mod Text
pub mod Printing
pub mod Scanning
use tpe_arqui.Prelude.{
  ℕ, zero, suc, ◌+◌, ◌-◌, ◌%◌, ◌==◌, Bool, true, false, ◌||◌, if◌then◌else◌, ℤ, pos, negsuc, Option,
  none, some, List, [], ◌∷◌, ◌++◌,
}
use tpe_arqui.Libc.Copy.{Memory}
use tpe_arqui.Libc.Ctype.{isdigit}
use tpe_arqui.Libc.Numbers.{itoa, atoi, char_of}

-- `AUX_SIZE`: no number has more digits.
abbrev pub aux_size : ℕ
aux_size = 64

-- The number of characters, and the characters.
abbrev pub Output : Type 0
Output = ℕ × List ℕ

abbrev pub emits : ℕ → List ℕ → Option Output → Option Output
emits n chars none = none
emits n chars (some (len, out)) = some (n + len, chars ++ out)

unfoldable pub prints : ℕ → Memory → ℕ → Option Output
prints zero m str = none
prints (suc fuel) m str = elim (m str == 0) [
  | true ↦ some (0, [])
  | false ↦ emits 1 (m str ∷ []) (prints fuel m (str + 1))
]

-- `printi`, `printb` and `printx`: the base is 10, 2 and 16.
unfoldable pub print_number : ℕ → Memory → ℕ → ℤ → ℕ → Option (Memory × Output)
unfolding prints
print_number fuel m aux value base = elim (itoa aux_size m value aux base) [
  | none ↦ none
  | some (len, written) ↦ elim (prints fuel written aux) [
    | none ↦ none
    | some out ↦ some (written, out)
  ]
]

-- An argument: an `int`, or the address of a string.
pub data Arg : Type 0 where
  int_arg : ℤ → Arg
  string_arg : ℕ → Arg

-- The cases of the `switch`.
pub data Symbol : Type 0 where
  number_symbol : ℕ → Symbol
  string_symbol char_symbol percent_symbol invalid_symbol : Symbol

unfoldable pub symbol_of : ℕ → Symbol
symbol_of c =
    if c == b'd' || c == b'i'
    then number_symbol 10
    else if c == b's'
    then string_symbol
    else if c == b'x'
    then number_symbol 16
    else if c == b'b'
    then number_symbol 2
    else if c == b'c'
    then char_symbol
    else if c == 37
    then percent_symbol
    else invalid_symbol

-- `value & 0xFF`
abbrev pub low_byte : ℤ → ℕ
low_byte (pos n) = n % 256
low_byte (negsuc n) = 255 - n % 256

-- `none` where an argument is missing or is not of the type that the format says.
unfoldable pub fprintformat : ℕ → Memory → ℕ → List ℕ → List Arg → Option Output
unfolding print_number symbol_of
fprintformat fuel m aux [] args = some (0, [])
fprintformat fuel m aux (c ∷ []) args = if c == 37 then some (0, []) else some (1, c ∷ [])
fprintformat fuel m aux (c ∷ d ∷ format) args = elim (c == 37) [
  | false ↦ emits 1 (c ∷ []) (fprintformat fuel m aux (d ∷ format) args)
  | true ↦ elim (symbol_of d) [
    | number_symbol base ↦ elim args [
      | int_arg value ∷ rest ↦ elim (print_number fuel m aux value base) [
        | none ↦ none
        | some (written, (n, out)) ↦ emits n out (fprintformat fuel written aux format rest)
      ]
      | _ ↦ none
    ]
    | string_symbol ↦ elim args [
      | string_arg str ∷ rest ↦ elim (prints fuel m str) [
        | none ↦ none
        | some (n, out) ↦ emits n out (fprintformat fuel m aux format rest)
      ]
      | _ ↦ none
    ]
    | char_symbol ↦ elim args [
      | int_arg value ∷ rest ↦ emits 1 (low_byte value ∷ []) (fprintformat fuel m aux format rest)
      | _ ↦ none
    ]
    | percent_symbol ↦ emits 1 (37 ∷ []) (fprintformat fuel m aux format args)
    | invalid_symbol ↦ some (0, [])
  ]
]

-- `readline`, from the characters that `getchar` gives; `none` while it waits for more.
unfoldable pub readline : ℕ → List ℕ → Option (List ℕ × List ℕ)
readline zero input = some ([], input)
readline (suc room) [] = none
readline (suc room) (c ∷ input) =
    let rest = readline room input in
    if c == 10
    then some ([], input)
    else (elim rest [ none ↦ none | some (line, left) ↦ some (c ∷ line, left) ])

-- A value that `scanf` stores.
pub data Scanned : Type 0 where
  scanned_int : ℤ → Scanned
  scanned_string : List ℕ → Scanned

abbrev pub scans : Scanned → Option (ℕ × List Scanned) → Option (ℕ × List Scanned)
scans v none = none
scans v (some (argc, values)) = some (1 + argc, v ∷ values)

-- `while (isdigit(aux[j+1])) j++;`
unfoldable pub skip_digits : ℕ → Memory → ℕ → Option ℕ
skip_digits zero m j = none
skip_digits (suc fuel) m j = elim (isdigit (char_of (m (j + 1)))) [
  | true ↦ skip_digits fuel m (j + 1)
  | false ↦ some j
]

abbrev pub is_number_start : ℕ → Bool
is_number_start c = c == 43 || (c == 45 || isdigit (char_of c))

-- One conversion more, which stores nothing.
abbrev pub counts : Option (ℕ × List Scanned) → Option (ℕ × List Scanned)
counts none = none
counts (some (argc, values)) = some (1 + argc, values)

-- The loop of `scanf` over the format, from the character `j` of the line on; `none` is also a format
-- that ends behind `%`, which it reads past.
unfoldable pub scanf_from : ℕ → Memory → ℕ → List ℕ → Option (ℕ × List Scanned)
unfolding skip_digits prints
scanf_from fuel m j [] = some (0, [])
scanf_from fuel m j (c ∷ []) =
    if m j == 0 then some (0, []) else if c == 37 then none else some (0, [])
scanf_from fuel m j (c ∷ d ∷ format) = elim (m j == 0) [
  | true ↦ some (0, [])
  | false ↦ elim (c == 37) [
    | false ↦ elim (c == m j) [
      | true ↦ scanf_from fuel m (j + 1) (d ∷ format)
      | false ↦ some (0, [])
    ]
    | true ↦ elim (d == b'd') [
      | true ↦ elim (is_number_start (m j)) [
        | false ↦ some (0, [])
        | true ↦ elim (atoi fuel m j) [
          | none ↦ none
          | some num ↦ elim (skip_digits fuel m j) [
            | none ↦ none
            | some k ↦ scans (scanned_int num) (scanf_from fuel m (k + 1) format)
          ]
        ]
      ]
      | false ↦ elim (d == b's') [
        | true ↦ elim (prints fuel m j) [
          | none ↦ none
          | some (n, str) ↦ some (1, scanned_string str ∷ [])
        ]
        | false ↦ elim (d == 37) [
          | true ↦ elim (m j == 37) [
            | true ↦ counts (scanf_from fuel m (j + 2) format)
            | false ↦ some (0, [])
          ]
          | false ↦ counts (scanf_from fuel m (j + 1) format)
        ]
      ]
    ]
  ]
]
