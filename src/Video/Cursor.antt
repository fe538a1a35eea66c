-- ===== src/Video/Cursor.antt =====
-- The cursor of nanOS/Kernel/videoDriver.c stays on the screen.
use tpe_arqui.Prelude.{
  ℕ, zero, suc, ◌+◌, ◌-◌, ◌*◌, ◌/◌, ◌≤◌, ◌<◌, ◌≡◌, refl, sym, ap, ap₂, subst, arith, ltb, leb, ◌==◌,
  Bool, true, false, ◌∙◌, ◌&&◌, ◌||◌, if◌then◌else◌, ℤ, pos, Option, none, some,
}
use tpe_arqui.Video.{
  Video, Color, width, height, cursor_limit, char_width, char_height, fill, print_char_line,
  print_lines, pixel_map, print_char, clear_columns, clear_line, scroll, keep_on_screen, put_plain,
  put_char, line_bit, valid_pos,
}

abbrev pub SameColors : Video → Video → Type 0
SameColors s t = (t.char_color ≡ s.char_color) × (t.bg_color ≡ s.bg_color)

-- Two screens with the same cursor, size and colours.
pub record SameScreen (s t : Video) : Type 0 where
  pub cursor : t.cursor ≡ s.cursor
  pub x_res : t.x_res ≡ s.x_res
  pub y_res : t.y_res ≡ s.y_res
  pub colors : SameColors s t

SameScreen-SameScreen : {s t u : Video} → SameScreen s t → SameScreen t u → SameScreen s u
SameScreen-SameScreen f g = record {
  cursor = g.cursor ∙ f.cursor;
  x_res = g.x_res ∙ f.x_res;
  y_res = g.y_res ∙ f.y_res;
  colors = (g.colors.0 ∙ f.colors.0, g.colors.1 ∙ f.colors.1);
}

fill-SameScreen : (s : Video) (c : Color) (x y : ℤ) → SameScreen s (fill s c x y).1
unfolding fill
fill-SameScreen s c x y = record {
  cursor = ground arith;
  x_res = ground arith;
  y_res = ground arith;
  colors = (ground arith, ground arith);
}

print_char_line-SameScreen :
    (n : ℕ) (s : Video) (line x y : ℕ) → SameScreen s (print_char_line n s line x y)
unfolding print_char_line
print_char_line-SameScreen zero s line x y = record {
  cursor = refl;
  x_res = refl;
  y_res = refl;
  colors = (refl, refl);
}
print_char_line-SameScreen (suc n) s line x y =
    let j = char_width - suc n in
    let c = if line_bit line j then s.char_color else s.bg_color in
    SameScreen-SameScreen (fill-SameScreen s c (pos (x + j)) (pos y))
      (print_char_line-SameScreen n (fill s c (pos (x + j)) (pos y)).1 line x y)

print_lines-SameScreen :
    (font : ℕ → ℕ) (n : ℕ) (s : Video) (glyph x y : ℕ)
    → SameScreen s (print_lines font n s glyph x y)
unfolding print_lines
print_lines-SameScreen font zero s glyph x y = record {
  cursor = refl;
  x_res = refl;
  y_res = refl;
  colors = (refl, refl);
}
print_lines-SameScreen font (suc n) s glyph x y =
    let i = char_height - suc n in
    let t = print_char_line char_width s (font (glyph + i)) x (y + i) in
    SameScreen-SameScreen (print_char_line-SameScreen char_width s (font (glyph + i)) x (y + i))
      (print_lines-SameScreen font n t glyph x y)

-- It has drawn, and only that.
abbrev pub Draws : Video → Option Video → Type 0
Draws s none = ⊥
Draws s (some t) = SameScreen s t

pixel_map-some : (c : ℕ) → 31 ≤ c → c < 128 → pixel_map c ≡ some (char_height * (c - 31))
unfolding pixel_map
pixel_map-some c lo hi = ground (arith, lo, hi)

Draws-either : (s t : Video) (b : Bool) → SameScreen s t → Draws s (if b then some t else some s)
Draws-either s t true f = f
Draws-either s t false f = record {
  cursor = refl;
  x_res = refl;
  y_res = refl;
  colors = (refl, refl);
}

print_char-Draws :
    (font : ℕ → ℕ) (s : Video) (c row col : ℕ)
    → 31 ≤ c
    → c < 128
    → Draws s (print_char font s c row col)
unfolding print_char
print_char-Draws font s c row col lo hi =
    rw (Draws, pixel_map-some c lo hi)
      (Draws-either s _ (valid_pos s row col) (
        print_lines-SameScreen font char_height s (char_height * (c - 31)) (col * char_width)
          (row * char_height)))

Draws-Draws : (s t : Video) (out : Option Video) → SameScreen s t → Draws t out → Draws s out
Draws-Draws s t none f g = g
Draws-Draws s t (some u) f g = SameScreen-SameScreen f g

-- One step that draws, then what follows it.
Draws-next :
    (s : Video) (out : Option Video) (next : Video → Option Video)
    → Draws s out
    → ((t : Video) → Draws t (next t))
    → Draws s (elim out [ none ↦ none | some t ↦ next t ])
Draws-next s none next d f = d
Draws-next s (some t) next d f = Draws-Draws s t (next t) d (f t)

clear_columns-Draws :
    (font : ℕ → ℕ) (n : ℕ) (s : Video) (line : ℕ) → Draws s (clear_columns font n s line)
unfolding clear_columns
clear_columns-Draws font zero s line = record {
  cursor = refl;
  x_res = refl;
  y_res = refl;
  colors = (refl, refl);
}
clear_columns-Draws font (suc n) s line =
    Draws-next s (print_char font s 32 line (width s - suc n)) (λ t. clear_columns font n t line)
      (print_char-Draws font s 32 line (width s - suc n) (omega arith) (omega arith))
      (λ t. clear_columns-Draws font n t line)

if_either :
    (s : Video) (b : Bool) (out : Option Video) → Draws s out → Draws s (if b then out else some s)
if_either s true out d = d
if_either s false out d = record {
  cursor = refl;
  x_res = refl;
  y_res = refl;
  colors = (refl, refl);
}

clear_line-Draws : (font : ℕ → ℕ) (s : Video) (line : ℕ) → Draws s (clear_line font s line)
unfolding clear_line
clear_line-Draws font s line =
    if_either s (ltb line (height s)) _ (clear_columns-Draws font (width s) s line)

scroll-Draws : (font : ℕ → ℕ) (s : Video) → Draws s (scroll font s)
unfolding scroll
scroll-Draws font s =
    Draws-Draws s _ _ (record { cursor = refl; x_res = refl; y_res = refl; colors = (refl, refl) })
      (clear_line-Draws font (record s { frame = _ }) (height s - 1))

-- The cursor is on the screen, whose size and colours are those of `s`.
pub record OnScreen (s t : Video) : Type 0 where
  pub within : t.cursor < cursor_limit s
  pub x_res : t.x_res ≡ s.x_res
  pub y_res : t.y_res ≡ s.y_res
  pub colors : SameColors s t

abbrev pub Stays : Video → Option Video → Type 0
Stays s none = ⊥
Stays s (some t) = OnScreen s t

-- What `put_char` does before it looks at the end of the screen.
abbrev pub Moves : Video → Option Video → Type 0
Moves s none = ⊥
Moves s (some t) = (t.x_res ≡ s.x_res) × (t.y_res ≡ s.y_res) × SameColors s t

-- The characters that have a picture, and those that move the cursor.
abbrev pub printable : ℕ → Bool
printable c = (c == 8) || ((c == 9) || ((c == 10) || ((c == 13) || (leb 31 c && ltb c 128))))

last_line : (w h : ℕ) → 0 < w → 0 < h → h * w - w < h * w
last_line w zero p q = absurd (omega arith)
last_line w (suc h) p q = omega arith

pub same_limit :
    (s t : Video) → t.x_res ≡ s.x_res → t.y_res ≡ s.y_res → cursor_limit t ≡ cursor_limit s
same_limit s t e f = ap₂ (λ x y. y / char_height * (x / char_width)) e f

scrolled-Stays :
    (s t : Video) (out : Option Video)
    → 0 < width s
    → 0 < height s
    → (t.x_res ≡ s.x_res) × (t.y_res ≡ s.y_res) × SameColors s t
    → Draws t out
    → Stays s
        (elim out [ none ↦ none | some u ↦ some (record u { cursor = cursor_limit u - width u }) ])
scrolled-Stays s t none w h e d = d
scrolled-Stays s t (some u) w h e d =
    let x : u.x_res ≡ s.x_res = d.x_res ∙ e.0 in
    let y : u.y_res ≡ s.y_res = d.y_res ∙ e.1 in
    record {
      within =
          subst (λ n. n < cursor_limit s)
            (ap₂ (λ n m. n - m) (sym (same_limit s u x y)) (ap (λ r. r / char_width) (sym x)))
            (last_line (width s) (height s) w h);
      x_res = x;
      y_res = y;
      colors = (d.colors.0 ∙ e.2.0, d.colors.1 ∙ e.2.1);
    }

leb-lt : (a b : ℕ) → leb a b ≡ false → b < a
leb-lt a b e = ground (arith, e)

kept-Stays :
    (font : ℕ → ℕ) (s t : Video) (b : Bool)
    → 0 < width s
    → 0 < height s
    → (t.x_res ≡ s.x_res) × (t.y_res ≡ s.y_res) × SameColors s t
    → leb (cursor_limit t) t.cursor ≡ b
    → Stays s (keep_on_screen font t)
kept-Stays font s t true w h e c =
    rw (Stays, c) (scrolled-Stays s t (scroll font t) w h e (scroll-Draws font t))
kept-Stays font s t false w h e c =
    rw (Stays, c)
      (record {
        within =
            subst (λ n. t.cursor < n) (same_limit s t e.0 e.1) (leb-lt (cursor_limit t) t.cursor c);
        x_res = e.0;
        y_res = e.1;
        colors = e.2;
      })

moved-Stays :
    (font : ℕ → ℕ) (s : Video) (out : Option Video)
    → 0 < width s
    → 0 < height s
    → Moves s out
    → Stays s (elim out [ none ↦ none | some t ↦ keep_on_screen font t ])
moved-Stays font s none w h m = m
moved-Stays font s (some t) w h m = kept-Stays font s t (leb (cursor_limit t) t.cursor) w h m refl

Draws-Moves : (s : Video) (out : Option Video) → Draws s out → Moves s out
Draws-Moves s none d = d
Draws-Moves s (some t) d = (d.x_res, d.y_res, d.colors)

advanced-Moves :
    (s : Video) (out : Option Video)
    → Draws s out
    → Moves s (elim out [ none ↦ none | some t ↦ some (record t { cursor = t.cursor + 1 }) ])
advanced-Moves s none d = d
advanced-Moves s (some t) d = (d.x_res, d.y_res, d.colors)

Moves-either :
    (s : Video) (b : Bool) (first second : Option Video)
    → (b ≡ true → Moves s first)
    → (b ≡ false → Moves s second)
    → Moves s (if b then first else second)
Moves-either s true first second f g = f refl
Moves-either s false first second f g = g refl

put_plain-Moves :
    (font : ℕ → ℕ) (s : Video) (c : ℕ) → printable c ≡ true → Moves s (put_plain font s c)
put_plain-Moves font s c p =
    Moves-either s (c == 8) _ _
      (λ b.
        Moves-either s (s.cursor == 0) _ _ (λ z. (refl, refl, (refl, refl)))
          (λ z.
            Draws-Moves (record s { cursor = s.cursor - 1 }) _
              (print_char-Draws font (record s { cursor = s.cursor - 1 }) 32 _ _ (omega arith)
                (omega arith))))
      (λ b.
        Moves-either s (c == 10) _ _ (λ n. (refl, refl, (refl, refl)))
          (λ n.
            Moves-either s (c == 13) _ _ (λ r. (refl, refl, (refl, refl)))
              (λ r.
                Moves-either s (c == 9) _ _ (λ t. (refl, refl, (refl, refl)))
                  (λ t. advanced-Moves s _ (
                    print_char-Draws font s c _ _ (ground (arith, p, b, n, r, t))
                      (ground (arith, p, b, n, r, t)))))))

-- `put_char` of a character that has a picture or moves the cursor, on a screen with room for one,
-- always finishes, leaves the cursor on the screen, and keeps its size and the two colours.
pub put_char-OnScreen :
    (font : ℕ → ℕ) (s : Video) (c : ℕ)
    → 0 < width s
    → 0 < height s
    → printable c ≡ true
    → Stays s (put_char font s c)
unfolding put_char
put_char-OnScreen font s c w h p =
    moved-Stays font s (put_plain font s c) w h (put_plain-Moves font s c p)
