-- ===== src/User/Format/Text.antt =====
-- Strings in memory, and the decimal text of a number, for stdio.c of
-- nanOS/Userland/SampleCodeModule.
use tpe_arqui.Prelude.{
  ℕ, zero, suc, ◌+◌, ◌^◌, ◌<◌, ◌≡◌, ◌≢◌, refl, sym, ap, subst, ◌∙◌, arith, ◌==◌, true, false, ℤ,
  pos, negsuc, Option, none, some, List, [], ◌∷◌, map, length,
}
use tpe_arqui.Libc.Copy.{Memory, store}
use tpe_arqui.Libc.Numbers.{itoa}
use tpe_arqui.Libc.Numbers.Digits.{digits, backwards, Spells, length-backwards}
use tpe_arqui.Libc.Numbers.Laws.{Prints, itoa_from-Printed, itoa_minus, magnitude}
use tpe_arqui.User.Format.{aux_size, prints, emits}

-- A string stands at an address, ended by 0.
abbrev pub Stands : Memory → ℕ → List ℕ → Type 0
Stands m a [] = m a ≡ 0
Stands m a (c ∷ str) = (m a ≡ c) × (c ≢ 0) × Stands m (a + 1) str

-- Memory that does not differ there.
pub Stands-same :
    (m k : Memory) (a limit : ℕ) (str : List ℕ)
    → a + length str < limit
    → ((b : ℕ) → b < limit → k b ≡ m b)
    → Stands m a str
    → Stands k a str
Stands-same m k a limit [] l same h = same a (omega (arith, l)) ∙ h
Stands-same m k a limit (c ∷ str) l same (e, n, h) =
    (same a (omega (arith, l)) ∙ e, n, Stands-same m k (a + 1) limit str (omega (arith, l)) same h)

prints_end :
    (fuel : ℕ) (m : Memory) (a : ℕ) → (m a == 0) ≡ true → prints (suc fuel) m a ≡ some (0, [])
unfolding prints
prints_end fuel m a e = rw (prints, e) refl

prints_more :
    (fuel : ℕ) (m : Memory) (a : ℕ)
    → (m a == 0) ≡ false
    → prints (suc fuel) m a ≡ emits 1 (m a ∷ []) (prints fuel m (a + 1))
unfolding prints
prints_more fuel m a e = rw (prints, e) refl

pub prints-Stands :
    (fuel : ℕ) (m : Memory) (a : ℕ) (str : List ℕ)
    → Stands m a str
    → length str < fuel
    → prints fuel m a ≡ some (length str, str)
prints-Stands zero m a str h l = absurd (omega (arith, l))
prints-Stands (suc fuel) m a [] h l = prints_end fuel m a (ground (arith, h))
prints-Stands (suc fuel) m a (c ∷ str) (e, n, h) l =
    let rest = prints-Stands fuel m (a + 1) str h (omega (arith, l)) in
    let nonzero : (m a == 0) ≡ false = ground (arith, e, n) in
    prints_more fuel m a nonzero
    ∙ ap (emits 1 (m a ∷ [])) rest
    ∙ ap (λ d. some (1 + length str, d ∷ str)) e
    ∙ ap (λ k. some (k, c ∷ str)) (omega arith)

-- The decimal digits as characters.
abbrev pub digit_text : List ℕ → List ℕ
digit_text ds = map (λ d. d + 48) (backwards ds)

abbrev pub decimal : ℤ → List ℕ
decimal (pos n) = digit_text (digits aux_size n)
decimal (negsuc n) = 45 ∷ digit_text (digits aux_size (suc n))

pub Spells-Stands :
    (m : Memory) (a : ℕ) (ds : List ℕ)
    → Spells m a ds
    → m (a + length ds) ≡ 0
    → Stands m a (map (λ d. d + 48) ds)
Spells-Stands m a [] h e = ap m (omega arith) ∙ e
Spells-Stands m a (d ∷ ds) (c, l, h) e =
    (c, omega arith, Spells-Stands m (a + 1) ds h (ap m (omega arith) ∙ e))

-- What `itoa` in base 10 leaves.
abbrev pub Texts : Memory → ℕ → ℤ → Option (ℕ × Memory) → Type 0
Texts m str value none = ⊥
Texts m str value (some (len, k)) = Stands k str (decimal value) × ((a : ℕ) → a < str → k a ≡ m a)

Prints-Texts :
    (m : Memory) (str n : ℕ) (out : Option (ℕ × Memory))
    → Prints m str (digits aux_size n) 0 out
    → Texts m str (pos n) out
Prints-Texts m str n none p = p
Prints-Texts m str n (some (len, k)) p =
    let back = length-backwards (digits aux_size n) in
    (
      Spells-Stands k str (backwards (digits aux_size n)) p.spelt
          (ap (λ i. k (str + i)) back ∙ p.ended),
      p.before,
    )

Prints-Texts_minus :
    (m : Memory) (str n : ℕ) (out : Option (ℕ × Memory))
    → Prints (store m str 45) (str + 1) (digits aux_size (suc n)) 1 out
    → Texts m str (negsuc n) out
Prints-Texts_minus m str n none p = p
Prints-Texts_minus m str n (some (len, k)) p =
    let back = length-backwards (digits aux_size (suc n)) in
    let sign : k str ≡ 45 = (let here = p.before str in ground (arith, here)) in
    (
      (
        sign,
        omega arith,
        Spells-Stands k (str + 1) (backwards (digits aux_size (suc n))) p.spelt
            (ap (λ i. k (str + 1 + i)) back ∙ p.ended),
      ),
      λ a l. (let here = p.before a in ground (arith, here, l)),
    )

-- A number that is an `int`, and whose negative is one.
pub itoa-Texts :
    (m : Memory) (value : ℤ) (str : ℕ)
    → magnitude value < 2 ^ 31
    → Texts m str value (itoa aux_size m value str 10)
unfolding itoa
itoa-Texts m (pos n) str l =
    Prints-Texts m str n _ (itoa_from-Printed aux_size m n str 0 (omega (arith, l)) (omega arith))
itoa-Texts m (negsuc n) str l =
    subst (Texts m str (negsuc n)) (sym (itoa_minus aux_size m n str (omega (arith, l)))) (
      Prints-Texts_minus m str n _ (
        itoa_from-Printed aux_size (store m str 45) (suc n) (str + 1) 1 (omega (arith, l))
          (omega arith)))
