-- ===== src/Video/Pixels.antt =====
-- One pixel at a time: `fill` of nanOS/Kernel/videoDriver.c.
use tpe_arqui.Prelude.{
  ℕ, ◌+◌, ◌*◌, ◌≤◌, ◌<◌, ◌≡◌, ◌≢◌, ◌⊎◌, inl, inr, sym, ap, zero, suc, arith, pos,
}
use native.Mathlib.Decide.{dec_lt}
use tpe_arqui.Video.{Video, Color, pixel, fill, valid_pixel}

-- The pixel holds the colour.
abbrev pub Shows : Video → ℕ → ℕ → Color → Type 0
Shows s x y c =
    let a = pixel s x y in
    (s.frame a ≡ c.blue) × (s.frame (a + 1) ≡ c.green) × (s.frame (a + 2) ≡ c.red)

row_below : (y v w : ℕ) → y < v → y * w + w ≤ v * w
row_below y zero w l = absurd (omega arith)
row_below y (suc v) w l = elim (dec_lt y v) [
  | yes less ↦ omega (arith, row_below y v w less)
  | no more ↦ (let same : y ≡ v = omega arith in rw same (omega arith))
]

-- The address of a pixel decides which it is.
same_pixel :
    (w x y u v k l : ℕ)
    → x < w
    → u < w
    → k < 3
    → l < 3
    → 3 * (x + y * w) + k ≡ 3 * (u + v * w) + l
    → (x ≡ u) × (y ≡ v)
same_pixel w x y u v k l p q r s e =
    let here : x + y * w ≡ u + v * w = omega (arith, e) in
    elim (dec_lt y v) [
      | yes less ↦ absurd (omega (arith, row_below y v w less, here))
      | no more ↦ elim (dec_lt v y) [
        | yes less ↦ absurd (omega (arith, row_below v y w less, here))
        | no less ↦ let row : y ≡ v = omega arith in (omega (arith, here, ap (λ n. n * w) row), row)
      ]
    ]

pixels_apart :
    (s : Video) (x y u v : ℕ)
    → x < s.x_res
    → u < s.x_res
    → (u ≢ x) ⊎ (v ≢ y)
    → (k l : ℕ) → k < 3
    → l < 3
    → pixel s x y + k ≢ pixel s u v + l
pixels_apart s x y u v p r (inl n) k l a b e =
    n (sym (same_pixel s.x_res x y u v k l p r a b (omega (arith, e))).0)
pixels_apart s x y u v p r (inr n) k l a b e =
    n (sym (same_pixel s.x_res x y u v k l p r a b (omega (arith, e))).1)

-- `fill` of a pixel of the screen returns 1 and gives it the colour, and every other pixel keeps its
-- own.
pub fill_lem :
    (s : Video) (c d : Color) (x y u v : ℕ)
    → x < s.x_res
    → y < s.y_res
    → u < s.x_res
    → (u ≢ x) ⊎ (v ≢ y)
    → Shows s u v d
    → let (r, t) = fill s c (pos x) (pos y) in (r ≡ 1) × Shows t x y c × Shows t u v d
unfolding fill valid_pixel
fill_lem s c d x y u v p q r n h =
    let apart = pixels_apart s x y u v p r n in
    let at_0 = apart 0 0 (omega arith) (omega arith) in
    let at_1 = apart 0 1 (omega arith) (omega arith) in
    let at_2 = apart 0 2 (omega arith) (omega arith) in
    let at_3 = apart 1 0 (omega arith) (omega arith) in
    let at_4 = apart 1 1 (omega arith) (omega arith) in
    let at_5 = apart 1 2 (omega arith) (omega arith) in
    let at_6 = apart 2 0 (omega arith) (omega arith) in
    let at_7 = apart 2 1 (omega arith) (omega arith) in
    let at_8 = apart 2 2 (omega arith) (omega arith) in
    ground (arith, p, q, h, at_0, at_1, at_2, at_3, at_4, at_5, at_6, at_7, at_8)

-- The test of a pixel lets one column and one row too many pass: a pixel at `x_res` is the first of
-- the next row.
pub fill_past_edge :
    (s : Video) (c : Color) (y : ℕ)
    → y < s.y_res
    → fill s c (pos s.x_res) (pos y) ≡ fill s c (pos 0) (pos (y + 1))
unfolding fill valid_pixel
fill_past_edge s c y l =
    let row : s.x_res + y * s.x_res ≡ 0 + (y + 1) * s.x_res = grind arith in ground (arith, l, row)
