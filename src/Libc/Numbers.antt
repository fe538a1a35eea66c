-- ===== src/Libc/Numbers.antt =====
-- Numbers as strings: `itoa` and `atoi` of nanOS/Kernel/lib.c, on the bytes of memory. The loops have
-- fuel; `none` is also the overflow of an `int` and a division by 0.
pub mod Reverse
pub mod Digits
pub mod Laws
use tpe_arqui.Prelude.{
  ℕ, zero, suc, ◌+◌, ◌-◌, ◌*◌, ◌/◌, ◌%◌, ◌^◌, ltb, leb, ◌==◌, Bool, true, false, not, ◌&&◌,
  if◌then◌else◌, ℤ, pos, negsuc, Option, none, some,
}
use tpe_arqui.Libc.Copy.{store, Memory}
use tpe_arqui.Libc.Ctype.{isspace, isdigit}

-- The character of a remainder, which is negative where the value is.
abbrev pub digit_char : Bool → ℕ → ℕ
digit_char true r = (48 + 256 - r) % 256
digit_char false r = if ltb r 10 then r + 48 else r + 65 - 10

-- The `do` loop: the digits, the last one first. `value` is without its sign.
unfoldable pub write_digits : ℕ → Memory → ℕ → Bool → ℕ → ℕ → Option (Memory × ℕ)
write_digits zero m p negative value base = none
write_digits (suc fuel) m p negative value base =
    let written = store m p (digit_char negative (value % base)) in
    elim (value / base == 0) [
      | true ↦ some (written, p + 1)
      | false ↦ write_digits fuel written (p + 1) negative (value / base) base
    ]

abbrev pub swap : Memory → ℕ → ℕ → Memory
swap m p1 p2 = store (store m p1 (m p2)) p2 (m p1)

unfoldable pub reverse_from : ℕ → Memory → ℕ → ℕ → Option Memory
reverse_from zero m p1 p2 = none
reverse_from (suc fuel) m p1 p2 = elim (ltb p1 p2) [
  | true ↦ reverse_from fuel (swap m p1 p2) (p1 + 1) (p2 - 1)
  | false ↦ some m
]

-- `itoa` from the loops on; `len` is 1 where a sign stands before `str`.
unfoldable pub itoa_from : ℕ → Memory → Bool → ℕ → ℕ → ℕ → ℕ → Option (ℕ × Memory)
unfolding write_digits reverse_from
itoa_from fuel m negative value str base len = elim (write_digits fuel m str negative value base) [
  | none ↦ none
  | some (written, p) ↦ elim (reverse_from fuel (store written p 0) str (p - 1)) [
    | none ↦ none
    | some reversed ↦ some (len + (p - str), reversed)
  ]
]

unfoldable pub itoa : ℕ → Memory → ℤ → ℕ → ℕ → Option (ℕ × Memory)
unfolding itoa_from
itoa fuel m (pos value) str base =
    if base == 0 then none else itoa_from fuel m false value str base 0
itoa fuel m (negsuc n) str base =
    if base == 0
    then none
    else if base == 10
    then (if leb (2 ^ 31) (n + 1)
        then none
        else itoa_from fuel (store m str 45) false (n + 1) (str + 1) base 1)
    else itoa_from fuel m true (n + 1) str base 0

-- A byte as the `int` of a `char`.
abbrev pub char_of : ℕ → ℤ
char_of byte = if ltb byte 128 then pos byte else negsuc (255 - byte)

unfoldable pub skip_spaces : ℕ → Memory → ℕ → Option ℕ
skip_spaces zero m str = none
skip_spaces (suc fuel) m str = elim (isspace (char_of (m str))) [
  | true ↦ skip_spaces fuel m (str + 1)
  | false ↦ some str
]

-- `num * 10 + (*str) - '0'`
unfoldable pub read_digits : ℕ → Memory → ℕ → ℕ → Option ℕ
read_digits zero m str num = none
read_digits (suc fuel) m str num =
    let c = m str in
    elim (not (c == 0) && isdigit (char_of c)) [
      | true ↦ elim (ltb (num * 10 + c) (2 ^ 31)) [
        | true ↦ read_digits fuel m (str + 1) (num * 10 + c - 48)
        | false ↦ none
      ]
      | false ↦ some num
    ]

abbrev pub signed : Bool → ℕ → ℤ
signed true zero = pos 0
signed true (suc n) = negsuc n
signed false n = pos n

abbrev pub with_sign : Bool → Option ℕ → Option ℤ
with_sign negative none = none
with_sign negative (some num) = some (signed negative num)

unfoldable pub atoi : ℕ → Memory → ℕ → Option ℤ
unfolding skip_spaces read_digits
atoi fuel m str = elim (skip_spaces fuel m str) [
  | none ↦ none
  | some s ↦
      if m s == 45
      then with_sign true (read_digits fuel m (s + 1) 0)
      else if m s == 43
      then with_sign false (read_digits fuel m (s + 1) 0)
      else with_sign false (read_digits fuel m s 0)
]
