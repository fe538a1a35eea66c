-- ===== src/Libc/Strings.antt =====
-- The strings of nanOS/Kernel/strings.c, on the bytes of memory. Each loop has fuel, and is `none`
-- when that runs out.
pub mod Laws
pub mod Compare
use tpe_arqui.Prelude.{
  ℕ, zero, suc, ◌+◌, ◌-◌, ◌%◌, ◌^◌, ltb, leb, ◌==◌, Bool, true, false, not, ◌&&◌, if◌then◌else◌, ℤ,
  pos, negsuc, Option, none, some,
}
use tpe_arqui.Libc.Copy.{Memory, store}

-- The value of a byte as a `char`, which is signed, and 128 above it.
abbrev pub above : ℕ → ℕ
above byte = (byte + 128) % 256

-- `s[i] - t[i]` as an `int`.
abbrev pub char_sub : ℕ → ℕ → ℤ
char_sub a b =
    if leb (above b) (above a) then pos (above a - above b) else negsuc (above b - above a - 1)

-- `UINT_MAX`
abbrev pub uint_max : ℕ
uint_max = 4294967295

unfoldable pub str_len_from : ℕ → Memory → ℕ → ℕ → Option ℕ
str_len_from zero m str i = none
str_len_from (suc fuel) m str i = elim (m (str + i) == 0) [
  | true ↦ some i
  | false ↦ str_len_from fuel m str (i + 1)
]

unfoldable pub str_len : ℕ → Memory → ℕ → Option ℕ
unfolding str_len_from
str_len fuel m str = str_len_from fuel m str 0

-- `i` stays below `2 ^ 31` where the comparison with `n` is the one written.
unfoldable pub strncmp_from : ℕ → Memory → ℕ → ℕ → ℕ → ℕ → Option ℤ
strncmp_from zero m s t n i = none
strncmp_from (suc fuel) m s t n i =
    let a = m (s + i) in
    let b = m (t + i) in
    elim (ltb i n && (not (a == 0) && (not (b == 0) && (a == b)))) [
      | true ↦ strncmp_from fuel m s t n (i + 1)
      | false ↦ some (char_sub a b)
    ]

unfoldable pub strncmp : ℕ → Memory → ℕ → ℕ → ℕ → Option ℤ
unfolding strncmp_from
strncmp fuel m s t n = strncmp_from fuel m s t n 0

unfoldable pub strcmp : ℕ → Memory → ℕ → ℕ → Option ℤ
unfolding strncmp
strcmp fuel m s t = strncmp fuel m s t uint_max

unfoldable pub strcpy_from : ℕ → Memory → ℕ → ℕ → ℕ → Option (ℕ × Memory)
strcpy_from zero m to from i = none
strcpy_from (suc fuel) m to from i =
    let byte = m (from + i) in
    elim (byte == 0) [
      | true ↦ some (i, store m (to + i) 0)
      | false ↦ strcpy_from fuel (store m (to + i) byte) to from (i + 1)
    ]

unfoldable pub strcpy : ℕ → Memory → ℕ → ℕ → Option (ℕ × Memory)
unfolding strcpy_from
strcpy fuel m to from = strcpy_from fuel m to from 0

-- The conversion of an `unsigned int` to an `int`.
abbrev pub int_of_unsigned : ℕ → ℤ
int_of_unsigned n = if ltb n (2 ^ 31) then pos n else negsuc (2 ^ 32 - n - 1)

abbrev pub below : ℕ → ℤ → Bool
below i (pos n) = ltb i n
below i (negsuc n) = false

unfoldable pub strcpynto_from : ℕ → Memory → ℕ → ℕ → ℕ → ℤ → ℕ → Option (ℕ × Memory)
strcpynto_from zero m to from limit n i = none
strcpynto_from (suc fuel) m to from limit n i =
    let byte = m (from + i) in
    elim (below i n && (not (byte == 0) && not (byte == limit))) [
      | true ↦ strcpynto_from fuel (store m (to + i) byte) to from limit n (i + 1)
      | false ↦ some (i, store m (to + i) 0)
    ]

unfoldable pub strcpynto : ℕ → Memory → ℕ → ℕ → ℕ → ℤ → Option (ℕ × Memory)
unfolding strcpynto_from
strcpynto fuel m to from limit n = strcpynto_from fuel m to from limit n 0

unfoldable pub strcpyto : ℕ → Memory → ℕ → ℕ → ℕ → Option (ℕ × Memory)
unfolding strcpynto
strcpyto fuel m to from limit = strcpynto fuel m to from limit (int_of_unsigned uint_max)
