-- ===== src/Video/Text.antt =====
-- Strings and numbers on the screen: `print_str`, `put_str`, `print_num`, `print`, `clear` and
-- `count_digits` of nanOS/Kernel/videoDriver.c, and the current colours.

use tpe_arqui.Prelude.{
  ℕ, zero, suc, ◌+◌, ◌-◌, ◌*◌, ◌/◌, ◌%◌, ◌^◌, leb, ◌==◌, true, false, if◌then◌else◌, ℤ, pos, negsuc,
  Option, none, some, List, [], ◌∷◌,
}
use tpe_arqui.Video.{Video, width, height, valid_pos, print_char, put_char}

-- What `current_char_color` and `current_bg_color` load.
unfoldable pub current_char_color : Video → ℕ × ℕ × ℕ
current_char_color s = (s.char_color.red, s.char_color.green, s.char_color.blue)

unfoldable pub current_bg_color : Video → ℕ × ℕ × ℕ
current_bg_color s = (s.bg_color.red, s.bg_color.green, s.bg_color.blue)

-- The loops of `put_str` and `print_str`; the string is a list without its end.
unfoldable pub put_str : (ℕ → ℕ) → Video → List ℕ → Option Video
put_str font s [] = some s
put_str font s (c ∷ str) = elim (put_char font s c) [ none ↦ none | some t ↦ put_str font t str ]

unfoldable pub print_str : (ℕ → ℕ) → Video → List ℕ → ℕ → ℕ → Option Video
unfolding put_str
print_str font s str row col = elim (put_str font (record s { cursor = row * width s + col }) str) [
  | none ↦ none
  | some t ↦ some (record t { cursor = s.cursor })
]

-- The loop of `print`, from `p` on.
unfoldable pub print_from : (ℕ → ℕ) → Video → List ℕ → ℕ → Option Video
print_from font s [] p = some s
print_from font s (c ∷ str) p = elim (valid_pos s (p / width s) (p % width s)) [
  | false ↦ some s
  | true ↦ elim (print_char font s c (p / width s) (p % width s)) [
    | none ↦ none
    | some t ↦ print_from font t str (p + 1)
  ]
]

unfoldable pub print : (ℕ → ℕ) → Video → List ℕ → ℕ → ℕ → Option Video
unfolding print_from
print font s str row col =
    if valid_pos s row col then print_from font s str (row * width s + col) else some s

-- The last `n` places of the screen.
unfoldable pub clear_places : (ℕ → ℕ) → ℕ → Video → Option Video
clear_places font zero s = some s
clear_places font (suc n) s =
    let i = width s * height s - suc n in
    elim (print_char font s 32 (i / width s) (i % width s)) [
      | none ↦ none
      | some t ↦ clear_places font n t
    ]

unfoldable pub clear : (ℕ → ℕ) → Video → Option Video
unfolding clear_places
clear font s = elim (clear_places font (width s * height s) s) [
  | none ↦ none
  | some t ↦ some (record t { cursor = 0 })
]

-- Of a number without its sign; the fuel is for the loop.
unfoldable pub count_digits : ℕ → ℕ → Option ℕ
count_digits zero num = none
count_digits (suc fuel) num = elim (num / 10 == 0) [
  | true ↦ some 1
  | false ↦ elim (count_digits fuel (num / 10)) [ none ↦ none | some digits ↦ some (digits + 1) ]
]

-- The loop of `print_num`, which fills `str` from its end; `n` characters are left to fill.
unfoldable pub fill_digits : ℕ → ℕ → List ℕ → List ℕ
fill_digits zero num str = str
fill_digits (suc n) num str = fill_digits n (num / 10) ((num % 10 + 48) ∷ str)

-- The string that `print_num` prints; an `int` has at most ten digits, and `none` is the overflow of
-- its negative.
unfoldable pub num_text : ℤ → Option (List ℕ)
unfolding count_digits fill_digits
num_text (pos n) = elim (count_digits 10 n) [
  | none ↦ none
  | some digits ↦ some (fill_digits digits n [])
]
num_text (negsuc n) = if leb (2 ^ 31) (n + 1) then none else (elim (count_digits 10 (suc n)) [
  | none ↦ none
  | some digits ↦ some (45 ∷ fill_digits digits (suc n) [])
])

unfoldable pub print_num : (ℕ → ℕ) → Video → ℤ → ℕ → ℕ → Option Video
unfolding num_text print
print_num font s num row col = elim (num_text num) [
  | none ↦ none
  | some str ↦ print font s str row col
]
