-- ===== src/Libc/Numbers/Laws.antt =====
-- `atoi` of nanOS/Kernel/lib.c reads back what `itoa` writes in base 10.
use tpe_arqui.Prelude.{
  ℕ, zero, suc, ◌+◌, ◌-◌, ◌/◌, ◌^◌, ◌≤◌, ◌<◌, ◌≡◌, sym, ap, subst, ◌∙◌, arith, leb, ◌==◌, true,
  false, ℤ, pos, negsuc, Option, none, some, List, [], ◌∷◌, length, Bool-cases, inl, inr,
}
use tpe_arqui.Libc.Copy.{store, Memory}
use tpe_arqui.Libc.Ctype.{isspace}
use tpe_arqui.Libc.Numbers.{reverse_from, itoa_from, itoa, atoi, with_sign, read_digits, char_of}
use tpe_arqui.Libc.Numbers.Reverse.{Reversed, reverse_from-Reversed}
use tpe_arqui.Libc.Numbers.Digits.{
  digits, digits_end, digits_more, backwards, power, number-backwards, length-backwards, Spells,
  Spells-backwards, Written, Writes, write_digits-Writes, read_digits_lem,
}

-- What the loops of `itoa` leave: the digits from `str` on, the end of the string, and all before it
-- as it was.
pub record Printed (m : Memory) (str : ℕ) (ds : List ℕ) (len m_len : ℕ) (m' : Memory) : Type 0 where
  pub count : m_len ≡ len + length ds
  pub spelt : Spells m' str (backwards ds)
  pub ended : m' (str + length ds) ≡ 0
  pub before : (a : ℕ) → a < str → m' a ≡ m a

abbrev pub Prints : Memory → ℕ → List ℕ → ℕ → Option (ℕ × Memory) → Type 0
Prints m str ds len none = ⊥
Prints m str ds len (some (m_len, m')) = Printed m str ds len m_len m'

pub length-digits : (fuel v : ℕ) → length (digits fuel v) ≤ fuel
length-digits zero v = omega arith
length-digits (suc fuel) v = elim (Bool-cases (v / 10 == 0)) [
  | inl e ↦ subst (λ ds. length ds ≤ suc fuel) (sym (digits_end fuel v e)) (omega arith)
  | inr e ↦
      let rest = length-digits fuel (v / 10) in
      subst (λ ds. length ds ≤ suc fuel) (sym (digits_more fuel v e)) (omega (arith, rest))
]

pub some_digits : (fuel v : ℕ) → 0 < fuel → 0 < length (digits fuel v)
some_digits zero v l = absurd (omega arith)
some_digits (suc fuel) v l = omega arith

digits-Printed :
    (m m' : Memory) (str q : ℕ) (ds : List ℕ) (len : ℕ) (out : Option Memory)
    → Written m str ds m' q
    → 0 < length ds
    → Reversed (store m' q 0) str (q - 1) out
    → Prints m str ds len
        (elim out [ none ↦ none | some reversed ↦ some (len + (q - str), reversed) ])
digits-Printed m m' str q ds len none w l r = r
digits-Printed m m' str q ds len (some r') w l r = record {
  count = omega (arith, w.ends);
  spelt =
      Spells-backwards m' r' str str ds
        (λ k b. let here = r (str + k) in ground (arith, here, w.ends, b)) w.spelt;
  ended = (let here = r (str + length ds) in ground (arith, here, w.ends, l));
  before =
      λ a b. let here = r a in let there = w.before a in ground (arith, here, there, w.ends, b);
}

written-Printed :
    (fuel : ℕ) (m : Memory) (str : ℕ) (ds : List ℕ) (len : ℕ) (out : Option (Memory × ℕ))
    → Writes m str ds out
    → 0 < length ds
    → length ds ≤ fuel
    → Prints m str ds len (elim out [
      | none ↦ none
      | some (written, p) ↦ elim (reverse_from fuel (store written p 0) str (p - 1)) [
        | none ↦ none
        | some reversed ↦ some (len + (p - str), reversed)
      ]
    ])
written-Printed fuel m str ds len none w l f = w
written-Printed fuel m str ds len (some (m', q)) w l f = digits-Printed m m' str q ds len _ w l (
    reverse_from-Reversed fuel (store m' q 0) str (q - 1) (omega (arith, w.ends))
      (omega (arith, w.ends)))

pub itoa_from-Printed :
    (fuel : ℕ) (m : Memory) (v str len : ℕ)
    → v < power fuel
    → 0 < fuel
    → Prints m str (digits fuel v) len (itoa_from fuel m false v str 10 len)
unfolding itoa_from
itoa_from-Printed fuel m v str len l z =
    written-Printed fuel m str (digits fuel v) len _ (write_digits-Writes fuel m str v l z)
      (some_digits fuel v z) (length-digits fuel v)

no_space : (m : Memory) (str : ℕ) → 45 ≤ m str → m str < 58 → isspace (char_of (m str)) ≡ false
unfolding isspace
no_space m str lo hi = ground (arith, lo, hi)

pub atoi_digits :
    (fuel : ℕ) (m : Memory) (str : ℕ)
    → 48 ≤ m str
    → m str < 58
    → atoi (suc fuel) m str ≡ with_sign false (read_digits (suc fuel) m str 0)
unfolding atoi
atoi_digits fuel m str lo hi =
    let here = no_space m str (omega (arith, lo)) hi in ground (arith, here, lo, hi)

pub atoi_minus :
    (fuel : ℕ) (m : Memory) (str : ℕ)
    → m str ≡ 45
    → atoi (suc fuel) m str ≡ with_sign true (read_digits (suc fuel) m (str + 1) 0)
unfolding atoi
atoi_minus fuel m str e =
    let here = no_space m str (omega (arith, e)) (omega (arith, e)) in ground (arith, here, e)

-- The first character of digits.
pub Spells-first :
    (m : Memory) (a : ℕ) (ds : List ℕ) → Spells m a ds → 0 < length ds → (48 ≤ m a) × (m a < 58)
Spells-first m a [] s l = absurd (omega arith)
Spells-first m a (d ∷ ds) s l = (omega (arith, s.0), omega (arith, s.0, s.1))

-- `atoi` with this fuel reads the value back, and the string ends where `itoa` says.
abbrev pub ReadsBack : ℕ → ℕ → ℤ → Option (ℕ × Memory) → Type 0
ReadsBack fuel str value none = ⊥
ReadsBack fuel str value (some (len, m)) = (atoi fuel m str ≡ some value) × (m (str + len) ≡ 0)

pub Prints-ReadsBack :
    (fuel more : ℕ) (m : Memory) (v str : ℕ) (out : Option (ℕ × Memory))
    → v < power fuel
    → 0 < fuel
    → v + 48 < 2 ^ 31
    → fuel ≤ more
    → Prints m str (digits fuel v) 0 out
    → ReadsBack (suc more) str (pos v) out
Prints-ReadsBack fuel more m v str none l z b f p = p
Prints-ReadsBack fuel more m v str (some (len, m')) l z b f p =
    let ds = digits fuel v in
    let size = length-digits fuel v in
    let back = length-backwards ds in
    let value = number-backwards fuel v l in
    let first =
      Spells-first m' str (backwards ds) p.spelt (omega (arith, back, some_digits fuel v z)) in
    (
      atoi_digits more m' str first.0 first.1
          ∙ ap (with_sign false) (
              read_digits_lem (suc more) m' str 0 (backwards ds) p.spelt
                (ap (λ k. m' (str + k)) back ∙ p.ended) (omega (arith, value, b))
                (omega (arith, back, size, f))
              ∙ ap some value),
      ap m' (omega (arith, p.count)) ∙ p.ended,
    )

pub Prints-ReadsBack_minus :
    (fuel more : ℕ) (m : Memory) (n str : ℕ) (out : Option (ℕ × Memory))
    → suc n < power fuel
    → 0 < fuel
    → suc n + 48 < 2 ^ 31
    → fuel ≤ more
    → Prints (store m str 45) (str + 1) (digits fuel (suc n)) 1 out
    → ReadsBack (suc more) str (negsuc n) out
Prints-ReadsBack_minus fuel more m n str none l z b f p = p
Prints-ReadsBack_minus fuel more m n str (some (len, m')) l z b f p =
    let ds = digits fuel (suc n) in
    let size = length-digits fuel (suc n) in
    let back = length-backwards ds in
    let value = number-backwards fuel (suc n) l in
    let sign : m' str ≡ 45 = (let here = p.before str in ground (arith, here)) in
    (
      atoi_minus more m' str sign
          ∙ ap (with_sign true) (
              read_digits_lem (suc more) m' (str + 1) 0 (backwards ds) p.spelt
                (ap (λ k. m' (str + 1 + k)) back ∙ p.ended) (omega (arith, value, b))
                (omega (arith, back, size, f))
              ∙ ap some value),
      ap m' (omega (arith, p.count)) ∙ p.ended,
    )

pub itoa_minus :
    (fuel : ℕ) (m : Memory) (n str : ℕ)
    → n + 1 < 2 ^ 31
    → itoa fuel m (negsuc n) str 10 ≡ itoa_from fuel (store m str 45) false (suc n) (str + 1) 10 1
unfolding itoa
itoa_minus fuel m n str b =
    let small : leb (2 ^ 31) (n + 1) ≡ false = ground (arith, b) in
    rw small (ap (λ v. itoa_from fuel (store m str 45) false v (str + 1) 10 1) (omega arith))

-- The absolute value.
abbrev pub magnitude : ℤ → ℕ
magnitude (pos n) = n
magnitude (negsuc n) = suc n

-- `itoa` in base 10 of a value from -2147483599 to 2147483599 always finishes, given fuel for its
-- digits, and `atoi`, given one unit more, reads the same value back; the length that `itoa` returns
-- is where the string ends. (Beyond that range the sum in `atoi` overflows.)
pub atoi-itoa :
    (fuel more : ℕ) (m : Memory) (value : ℤ) (str : ℕ)
    → magnitude value < power fuel
    → 0 < fuel
    → magnitude value + 48 < 2 ^ 31
    → fuel ≤ more
    → ReadsBack (suc more) str value (itoa fuel m value str 10)
unfolding itoa
atoi-itoa fuel more m (pos v) str l z b f =
    Prints-ReadsBack fuel more m v str _ l z b f (itoa_from-Printed fuel m v str 0 l z)
atoi-itoa fuel more m (negsuc n) str l z b f =
    subst (ReadsBack (suc more) str (negsuc n)) (sym (itoa_minus fuel m n str (omega (arith, b)))) (
      Prints-ReadsBack_minus fuel more m n str _ l z b f
        (itoa_from-Printed fuel (store m str 45) (suc n) (str + 1) 1 l z))
