-- ===== src/Video.antt =====
-- The screen: nanOS/Kernel/videoDriver.c. The bytes of the font, `__font_bitmap__`, are a parameter;
-- `none` is a character that has none there.
pub mod Pixels
pub mod Cursor
pub mod Text
pub mod Numbers
use tpe_arqui.Prelude.{
  ℕ, zero, suc, ◌+◌, ◌-◌, ◌*◌, ◌/◌, ◌%◌, ◌^◌, ltb, leb, ◌==◌, Bool, true, false, not, ◌&&◌, ◌||◌,
  if◌then◌else◌, ℤ, pos, negsuc, Option, none, some, List, [], ◌∷◌,
}
use tpe_arqui.Libc.Copy.{store, Memory, blit}

abbrev pub char_width : ℕ
char_width = 8

abbrev pub char_height : ℕ
char_height = 16

pub record Color : Type 0 where
  pub red : ℕ
  pub green : ℕ
  pub blue : ℕ

-- The statics, and the memory with the frame at `base`, which `video_base_ptr` reads.
pub record Video : Type 0 where
  pub cursor : ℕ
  pub x_res : ℕ
  pub y_res : ℕ
  pub char_color : Color
  pub bg_color : Color
  pub base : ℕ
  pub frame : Memory

-- `WIDTH` and `HEIGHT`, in characters.
abbrev pub width : Video → ℕ
width s = s.x_res / char_width

abbrev pub height : Video → ℕ
height s = s.y_res / char_height

abbrev pub cursor_limit : Video → ℕ
cursor_limit s = height s * width s

-- `MIN_RGB` is 0.
unfoldable pub valid_colors : ℕ → ℕ → ℕ → Bool
valid_colors r g b = leb r 255 && (leb g 255 && leb b 255)

unfoldable pub set_char_color : Video → ℕ → ℕ → ℕ → ℕ × Video
unfolding valid_colors
set_char_color s r g b =
    if not (valid_colors r g b)
    then (0, s)
    else (1, record s { char_color = record { red = r; green = g; blue = b } })

unfoldable pub set_bg_color : Video → ℕ → ℕ → ℕ → ℕ × Video
unfolding valid_colors
set_bg_color s r g b =
    if not (valid_colors r g b)
    then (0, s)
    else (1, record s { bg_color = record { red = r; green = g; blue = b } })

unfoldable pub valid_pixel : Video → ℤ → ℤ → Bool
valid_pixel s (negsuc x) y = false
valid_pixel s (pos x) (negsuc y) = false
valid_pixel s (pos x) (pos y) = leb x s.x_res && leb y s.y_res

-- The address of a pixel.
abbrev pub pixel : Video → ℕ → ℕ → ℕ
pixel s x y = s.base + 3 * (x + y * s.x_res)

abbrev pub paint_at : Memory → ℕ → Color → Memory
paint_at m a c = store (store (store m a c.blue) (a + 1) c.green) (a + 2) c.red

abbrev pub natural : ℤ → ℕ
natural (pos n) = n
natural (negsuc n) = 0

unfoldable pub fill : Video → Color → ℤ → ℤ → ℕ × Video
unfolding valid_pixel
fill s c x y =
    if not (valid_pixel s x y)
    then (0, s)
    else (1, record s { frame = paint_at s.frame (pixel s (natural x) (natural y)) c })

unfoldable pub valid_pos : Video → ℕ → ℕ → Bool
valid_pos s row col = ltb row (height s) && ltb col (width s)

-- Bit `7 - j` of the line, which `mask[j]` picks.
abbrev pub line_bit : ℕ → ℕ → Bool
line_bit line j = not ((line / 2 ^ (7 - j)) % 2 == 0)

-- The last `n` pixels of a line of a character.
unfoldable pub print_char_line : ℕ → Video → ℕ → ℕ → ℕ → Video
unfolding fill
print_char_line zero s line x y = s
print_char_line (suc n) s line x y =
    let j = char_width - suc n in
    let c = if line_bit line j then s.char_color else s.bg_color in
    print_char_line n (fill s c (pos (x + j)) (pos y)).1 line x y

-- `pixel_map`: where the lines of a character stand. A `char` above 127 is negative.
unfoldable pub pixel_map : ℕ → Option ℕ
pixel_map c = if leb 31 c && ltb c 128 then some (char_height * (c - 31)) else none

-- The last `n` lines of a character, whose lines stand at `glyph`.
unfoldable pub print_lines : (ℕ → ℕ) → ℕ → Video → ℕ → ℕ → ℕ → Video
unfolding print_char_line
print_lines font zero s glyph x y = s
print_lines font (suc n) s glyph x y =
    let i = char_height - suc n in
    print_lines font n (print_char_line char_width s (font (glyph + i)) x (y + i)) glyph x y

unfoldable pub print_char : (ℕ → ℕ) → Video → ℕ → ℕ → ℕ → Option Video
unfolding valid_pos pixel_map print_lines
print_char font s c row col =
    if valid_pos s row col
    then (elim (pixel_map c) [
      | none ↦ none
      | some glyph ↦
          some (print_lines font char_height s glyph (col * char_width) (row * char_height))
    ])
    else some s

-- The last `n` columns of a line of the screen.
unfoldable pub clear_columns : (ℕ → ℕ) → ℕ → Video → ℕ → Option Video
unfolding print_char
clear_columns font zero s line = some s
clear_columns font (suc n) s line = elim (print_char font s 32 line (width s - suc n)) [
  | none ↦ none
  | some t ↦ clear_columns font n t line
]

unfoldable pub clear_line : (ℕ → ℕ) → Video → ℕ → Option Video
unfolding clear_columns
clear_line font s line = if ltb line (height s) then clear_columns font (width s) s line else some s

-- The copy goes forwards, and to lower addresses.
unfoldable pub scroll : (ℕ → ℕ) → Video → Option Video
unfolding clear_line
scroll font s =
    let second_line = s.base + 3 * s.x_res * char_height in
    let length = s.y_res * s.x_res * 3 - char_height * s.x_res * 3 in
    clear_line font (record s { frame = blit s.frame s.base s.frame second_line length })
      (height s - 1)

-- Where the cursor is past the end of the screen.
abbrev pub keep_on_screen : (ℕ → ℕ) → Video → Option Video
keep_on_screen font s =
    if leb (cursor_limit s) s.cursor
    then (elim (scroll font s) [
      | none ↦ none
      | some t ↦ some (record t { cursor = cursor_limit t - width t })
    ])
    else some s

abbrev pub print_at_cursor : (ℕ → ℕ) → Video → ℕ → Option Video
print_at_cursor font s c = print_char font s c (s.cursor / width s) (s.cursor % width s)

-- The cursor before a Backspace at 0 is -1 for a moment: then nothing is printed, since its row or
-- its column is negative, and it is set to 0.
abbrev pub put_plain : (ℕ → ℕ) → Video → ℕ → Option Video
put_plain font s c =
    if c == 8
    then (if s.cursor == 0
        then some s
        else print_at_cursor font (record s { cursor = s.cursor - 1 }) 32)
    else if c == 10
    then some (record s { cursor = s.cursor + (width s - s.cursor % width s) })
    else if c == 13
    then some (record s { cursor = 0 })
    else if c == 9
    then some s
    else (elim (print_at_cursor font s c) [
      | none ↦ none
      | some t ↦ some (record t { cursor = t.cursor + 1 })
    ])

unfoldable pub put_char : (ℕ → ℕ) → Video → ℕ → Option Video
unfolding print_char scroll
put_char font s c = elim (put_plain font s c) [ none ↦ none | some t ↦ keep_on_screen font t ]

unfoldable pub put : (ℕ → ℕ) → Video → List ℕ → Option Video
unfolding put_char
put font s [] = some s
put font s (c ∷ str) = elim (put_char font s c) [ none ↦ none | some t ↦ put font t str ]
