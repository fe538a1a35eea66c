-- ===== src/User/Format/Scanning.antt =====
-- `scanf` of nanOS/Userland/SampleCodeModule/stdio.c reads the numbers that `printf` writes.
use tpe_arqui.Prelude.{
  ℕ, zero, suc, ◌+◌, ◌/◌, ◌^◌, ◌<◌, ◌≡◌, refl, sym, ap, ◌∙◌, arith, ◌==◌, Bool, true, false, ℤ, pos,
  negsuc, some, List, [], ◌∷◌, ◌++◌, map, length,
}
use tpe_arqui.Libc.Copy.{Memory}
use tpe_arqui.Libc.Ctype.{isdigit}
use tpe_arqui.Libc.Numbers.{atoi, char_of}
use tpe_arqui.Libc.Numbers.Digits.{digits, backwards, Spells, length-backwards}
use tpe_arqui.Libc.Numbers.Laws.{
  magnitude, length-digits, some_digits, Prints-ReadsBack, Prints-ReadsBack_minus,
}
use tpe_arqui.User.Format.{aux_size, skip_digits, is_number_start, scanf_from, scanned_int}
use tpe_arqui.User.Format.Text.{Stands, decimal, digit_text}

-- All below 10.
abbrev Small : List ℕ → Type 0
Small [] = Unit {0}
Small (d ∷ ds) = (d < 10) × Small ds

Small-append : (ds : List ℕ) (d : ℕ) → Small ds → d < 10 → Small (ds ++ d ∷ [])
Small-append [] d h l = (l, tt)
Small-append (e ∷ ds) d (f, h) l = (f, Small-append ds d h l)

Small-backwards : (ds : List ℕ) → Small ds → Small (backwards ds)
Small-backwards [] h = tt
Small-backwards (d ∷ ds) (l, h) = Small-append (backwards ds) d (Small-backwards ds h) l

Small-either : (b : Bool) (ds : List ℕ) → Small ds → Small (elim b [ true ↦ [] | false ↦ ds ])
Small-either true ds h = tt
Small-either false ds h = h

Small-digits : (fuel v : ℕ) → Small (digits fuel v)
Small-digits zero v = tt
Small-digits (suc fuel) v =
    (omega arith, Small-either (v / 10 == 0) (digits fuel (v / 10)) (Small-digits fuel (v / 10)))

Stands-Spells :
    (m : Memory) (a : ℕ) (ds : List ℕ)
    → Small ds
    → Stands m a (map (λ d. d + 48) ds)
    → Spells m a ds × (m (a + length ds) ≡ 0)
Stands-Spells m a [] s h = (tt, ap m (omega arith) ∙ h)
Stands-Spells m a (d ∷ ds) (l, s) (e, n, h) =
    let (spelt, ended) = Stands-Spells m (a + 1) ds s h in
    ((e, l, spelt), ap m (omega arith) ∙ ended)

isdigit_lem : (c d : ℕ) → c ≡ d + 48 → d < 10 → isdigit (char_of c) ≡ true
unfolding isdigit
isdigit_lem c d e l = ground (arith, e, l)

not_digit : (c : ℕ) → c ≡ 0 → isdigit (char_of c) ≡ false
unfolding isdigit
not_digit c e = ground (arith, e)

skip_end :
    (fuel : ℕ) (m : Memory) (j : ℕ)
    → isdigit (char_of (m (j + 1))) ≡ false
    → skip_digits (suc fuel) m j ≡ some j
unfolding skip_digits
skip_end fuel m j e = rw (skip_digits, e) refl

skip_more :
    (fuel : ℕ) (m : Memory) (j : ℕ)
    → isdigit (char_of (m (j + 1))) ≡ true
    → skip_digits (suc fuel) m j ≡ skip_digits fuel m (j + 1)
unfolding skip_digits
skip_more fuel m j e = rw (skip_digits, e) refl

skip_digits_lem :
    (fuel : ℕ) (m : Memory) (j : ℕ) (ds : List ℕ)
    → Spells m (j + 1) ds
    → m (j + 1 + length ds) ≡ 0
    → length ds < fuel
    → skip_digits fuel m j ≡ some (j + length ds)
skip_digits_lem zero m j ds s e l = absurd (omega (arith, l))
skip_digits_lem (suc fuel) m j [] s e l =
    skip_end fuel m j (not_digit (m (j + 1)) (ap m (omega arith) ∙ e)) ∙ ap some (omega arith)
skip_digits_lem (suc fuel) m j (d ∷ ds) (c, b, s) e l =
    skip_more fuel m j (isdigit_lem (m (j + 1)) d c b)
    ∙ skip_digits_lem fuel m (j + 1) ds s (ap m (omega arith) ∙ e) (omega (arith, l))
    ∙ ap some (omega arith)

scan_number :
    (fuel : ℕ) (m : Memory) (j k : ℕ) (v : ℤ)
    → (m j == 0) ≡ false
    → is_number_start (m j) ≡ true
    → atoi fuel m j ≡ some v
    → skip_digits fuel m j ≡ some k
    → scanf_from fuel m j (37 ∷ b'd' ∷ []) ≡ some (1, scanned_int v ∷ [])
unfolding scanf_from
scan_number fuel m j k v z s a d = rw (scanf_from, z, s, a, d) refl

-- The digits of a number, behind its sign or not, from its text.
spelt :
    (m : Memory) (a n : ℕ)
    → Stands m a (digit_text (digits aux_size n))
    → Spells m a (backwards (digits aux_size n))
      × (m (a + length (backwards (digits aux_size n))) ≡ 0)
spelt m a n h =
    Stands-Spells m a (backwards (digits aux_size n))
      (Small-backwards (digits aux_size n) (Small-digits aux_size n)) h

atoi-pos :
    (fuel : ℕ) (m : Memory) (j n : ℕ)
    → Stands m j (digit_text (digits aux_size n))
    → n + 48 < 2 ^ 31
    → aux_size < fuel
    → atoi fuel m j ≡ some (pos n)
atoi-pos zero m j n h b l = absurd (omega (arith, l))
atoi-pos (suc more) m j n h b l =
    let ds = digits aux_size n in
    let (digits_there, ended) = spelt m j n h in
    (Prints-ReadsBack aux_size more m n j (some (length ds, m)) (omega (arith, b)) (omega arith) b
      (omega (arith, l))
      (record {
        count = omega arith;
        spelt = digits_there;
        ended = ap (λ i. m (j + i)) (sym (length-backwards ds)) ∙ ended;
        before = λ a c. refl;
      })).0

atoi-negsuc :
    (fuel : ℕ) (m : Memory) (j n : ℕ)
    → m j ≡ 45
    → Stands m (j + 1) (digit_text (digits aux_size (suc n)))
    → suc n + 48 < 2 ^ 31
    → aux_size < fuel
    → atoi fuel m j ≡ some (negsuc n)
atoi-negsuc zero m j n s h b l = absurd (omega (arith, l))
atoi-negsuc (suc more) m j n s h b l =
    let ds = digits aux_size (suc n) in
    let (digits_there, ended) = spelt m (j + 1) (suc n) h in
    (Prints-ReadsBack_minus aux_size more m n j (some (1 + length ds, m)) (omega (arith, b))
      (omega arith) b (omega (arith, l))
      (record {
        count = refl;
        spelt = digits_there;
        ended = ap (λ i. m (j + 1 + i)) (sym (length-backwards ds)) ∙ ended;
        before = λ a c. ground (arith, s);
      })).0

-- The first of the digits, and the rest.
scan_digits :
    (fuel : ℕ) (m : Memory) (j : ℕ) (v : ℤ) (ds : List ℕ)
    → Spells m j ds
    → m (j + length ds) ≡ 0
    → 0 < length ds
    → length ds < fuel
    → atoi fuel m j ≡ some v
    → scanf_from fuel m j (37 ∷ b'd' ∷ []) ≡ some (1, scanned_int v ∷ [])
scan_digits fuel m j v [] s e z l a = absurd (omega (arith, z))
scan_digits fuel m j v (d ∷ ds) (c, b, s) e z l a =
    let digit = isdigit_lem (m j) d c b in
    scan_number fuel m j (j + length ds) v (ground (arith, c)) (ground (arith, digit)) a
      (skip_digits_lem fuel m j ds s (ap m (omega arith) ∙ e) (omega (arith, l)))

scan_minus :
    (fuel : ℕ) (m : Memory) (j : ℕ) (v : ℤ) (ds : List ℕ)
    → m j ≡ 45
    → Spells m (j + 1) ds
    → m (j + 1 + length ds) ≡ 0
    → length ds < fuel
    → atoi fuel m j ≡ some v
    → scanf_from fuel m j (37 ∷ b'd' ∷ []) ≡ some (1, scanned_int v ∷ [])
scan_minus fuel m j v ds c s e l a =
    scan_number fuel m j (j + length ds) v (ground (arith, c)) (ground (arith, c)) a
      (skip_digits_lem fuel m j ds s e l)

-- Where the line is the text that `printf("%d")` puts out for a number from -2147483599 to 2147483599,
-- `scanf("%d")` always finishes, converts one argument and stores that number.
pub scanf_from-decimal :
    (fuel : ℕ) (m : Memory) (j : ℕ) (v : ℤ)
    → Stands m j (decimal v)
    → magnitude v + 48 < 2 ^ 31
    → aux_size < fuel
    → scanf_from fuel m j (37 ∷ b'd' ∷ []) ≡ some (1, scanned_int v ∷ [])
scanf_from-decimal fuel m j (pos n) h b l =
    let ds = digits aux_size n in
    let (digits_there, ended) = spelt m j n h in
    let back = length-backwards ds in
    let size = length-digits aux_size n in
    scan_digits fuel m j (pos n) (backwards ds) digits_there ended
      (omega (arith, back, some_digits aux_size n (omega arith))) (omega (arith, back, size, l))
      (atoi-pos fuel m j n h b l)
scanf_from-decimal fuel m j (negsuc n) (c, z, h) b l =
    let ds = digits aux_size (suc n) in
    let (digits_there, ended) = spelt m (j + 1) (suc n) h in
    let back = length-backwards ds in
    let size = length-digits aux_size (suc n) in
    scan_minus fuel m j (negsuc n) (backwards ds) c digits_there ended
      (omega (arith, back, size, l)) (atoi-negsuc fuel m j n c h b l)
