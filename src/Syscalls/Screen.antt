-- ===== src/Syscalls/Screen.antt =====
-- What `sys_write` of nanOS/Kernel/systemCalls.c puts on the screen.
use tpe_arqui.Prelude.{
  ℕ, ◌/◌, ◌<◌, ◌≡◌, refl, sym, subst, ◌∙◌, arith, Bool, true, ◌&&◌, Option, none, some, List, [],
  ◌∷◌, length,
}
use tpe_arqui.Video.{
  char_width, char_height, Video, Color, width, height, cursor_limit, valid_colors, set_char_color,
  put_char, put,
}
use tpe_arqui.Video.Cursor.{OnScreen, Stays, printable, same_limit, put_char-OnScreen}
use tpe_arqui.Video.Text.{current_char_color}

-- `STDOUT` and `STDERR`: the result and the screen.
unfoldable pub write_out : (ℕ → ℕ) → Video → List ℕ → Option (ℕ × Video)
unfolding put
write_out font s str = elim (put font s str) [ none ↦ none | some t ↦ some (length str, t) ]

unfoldable pub write_error : (ℕ → ℕ) → Video → List ℕ → Option (ℕ × Video)
unfolding put current_char_color set_char_color
write_error font s str =
    let (r, g, b) = current_char_color s in
    elim (put font (set_char_color s 255 0 0).1 str) [
      | none ↦ none
      | some t ↦ some (length str, (set_char_color t r g b).1)
    ]

abbrev pub all_printable : List ℕ → Bool
all_printable [] = true
all_printable (c ∷ str) = printable c && all_printable str

OnScreen-OnScreen : {s t u : Video} → OnScreen s t → OnScreen t u → OnScreen s u
OnScreen-OnScreen {s} {t} {u} f g = record {
  within = subst (λ n. u.cursor < n) (same_limit s t f.x_res f.y_res) g.within;
  x_res = g.x_res ∙ f.x_res;
  y_res = g.y_res ∙ f.y_res;
  colors = (g.colors.0 ∙ f.colors.0, g.colors.1 ∙ f.colors.1);
}

Stays-Stays : {s t : Video} (out : Option Video) → OnScreen s t → Stays t out → Stays s out
Stays-Stays none f g = g
Stays-Stays (some u) f g = OnScreen-OnScreen f g

Stays-next :
    (s : Video) (out : Option Video) (next : Video → Option Video)
    → Stays s out
    → ((t : Video) → OnScreen s t → Stays t (next t))
    → Stays s (elim out [ none ↦ none | some t ↦ next t ])
Stays-next s none next o f = o
Stays-next s (some t) next o f = Stays-Stays (next t) o (f t o)

put-Stays :
    (font : ℕ → ℕ) (s : Video) (str : List ℕ)
    → all_printable str ≡ true
    → 0 < width s
    → 0 < height s
    → s.cursor < cursor_limit s
    → Stays s (put font s str)
unfolding put
put-Stays font s [] p w h l = record {
  within = l;
  x_res = refl;
  y_res = refl;
  colors = (refl, refl);
}
put-Stays font s (c ∷ str) p w h l =
    let first : printable c ≡ true = ground (arith, p) in
    let others : all_printable str ≡ true = ground (arith, p) in
    Stays-next s (put_char font s c) (λ t. put font t str) (put_char-OnScreen font s c w h first)
      (λ t o.
        put-Stays font t str others (subst (λ x. 0 < x / char_width) (sym o.x_res) w)
          (subst (λ y. 0 < y / char_height) (sym o.y_res) h)
          (subst (λ n. t.cursor < n) (sym (same_limit s t o.x_res o.y_res)) o.within))

-- What a call has returned and left.
abbrev pub Written : Video → ℕ → Option (ℕ × Video) → Type 0
Written s n none = ⊥
Written s n (some (r, t)) = (r ≡ n) × OnScreen s t

out-Written :
    (s : Video) (n : ℕ) (out : Option Video)
    → Stays s out
    → Written s n (elim out [ none ↦ none | some t ↦ some (n, t) ])
out-Written s n none o = o
out-Written s n (some t) o = (refl, o)

abbrev is_color : Color → Bool
is_color c = valid_colors c.red c.green c.blue

-- The screen with another colour for its characters.
abbrev colored : Video → Color → Video
colored s c = record s { char_color = c }

set_color :
    (s : Video) (c : Color)
    → is_color c ≡ true
    → (set_char_color s c.red c.green c.blue).1 ≡ colored s c
unfolding set_char_color
set_color s c e = rw (set_char_color, e) refl

restored-Written :
    (s : Video) (c : Color) (n : ℕ) (out : Option Video)
    → is_color s.char_color ≡ true
    → Stays (colored s c) out
    → Written s n (elim out [
      | none ↦ none
      | some t ↦
          some (n, (set_char_color t s.char_color.red s.char_color.green s.char_color.blue).1)
    ])
restored-Written s c n none e o = o
restored-Written s c n (some t) e o = (
  refl,
  subst (OnScreen s) (sym (set_color t s.char_color e))
      (record { within = o.within; x_res = o.x_res; y_res = o.y_res; colors = (refl, o.colors.1) }),
)

-- `ERR_COLOR`
abbrev red : Color
red = record { red = 255; green = 0; blue = 0 }

red_is_color : is_color red ≡ true
unfolding valid_colors
red_is_color = refl

-- `sys_write` to the standard output or the standard error, of characters that have a picture or move
-- the cursor, on a screen with room for one, whose cursor is on it and whose colour is a valid one,
-- always finishes: it returns the number of the characters, leaves the cursor on the screen, and keeps
-- its size and the two colours, the red of the errors included.
pub write_error-OnScreen :
    (font : ℕ → ℕ) (s : Video) (str : List ℕ)
    → all_printable str ≡ true
    → 0 < width s
    → 0 < height s
    → s.cursor < cursor_limit s
    → is_color s.char_color ≡ true
    → Written s (length str) (write_out font s str)
      × Written s (length str) (write_error font s str)
unfolding write_out write_error current_char_color
write_error-OnScreen font s str p w h l e = (
  out-Written s (length str) (put font s str) (put-Stays font s str p w h l),
  subst
      (λ t. Written s (length str) (elim (put font t str) [
        | none ↦ none
        | some t ↦
            some (
              length str,
              (set_char_color t s.char_color.red s.char_color.green s.char_color.blue).1,
            )
      ]))
      (sym (set_color s red red_is_color))
      (restored-Written s red (length str) (put font (colored s red) str) e
        (put-Stays font (colored s red) str p w h l)),
)
