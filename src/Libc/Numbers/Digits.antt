-- ===== src/Libc/Numbers/Digits.antt =====
-- The digits that `itoa` and `atoi` of nanOS/Kernel/lib.c write and read, as lists.
use tpe_arqui.Prelude.{
  ℕ, zero, suc, ◌+◌, ◌-◌, ◌*◌, ◌/◌, ◌%◌, ◌^◌, ◌≤◌, ◌<◌, ◌≡◌, refl, sym, ap, subst, ◌∙◌, arith, ◌==◌,
  true, false, Option, none, some, List, [], ◌∷◌, ◌++◌, length, length-append, Bool-cases, inl, inr,
}
use tpe_arqui.Libc.Copy.{store, Memory}
use tpe_arqui.Libc.Ctype.{isdigit}
use tpe_arqui.Libc.Numbers.{write_digits, read_digits}

-- The decimal digits, the last one first; the fuel is more than their number.
abbrev pub digits : ℕ → ℕ → List ℕ
digits zero v = []
digits (suc fuel) v = v % 10 ∷ elim (v / 10 == 0) [ true ↦ [] | false ↦ digits fuel (v / 10) ]

-- The number that digits spell, the first one first, behind the number `num`.
abbrev pub number : ℕ → List ℕ → ℕ
number num [] = num
number num (d ∷ ds) = number (num * 10 + d) ds

abbrev pub backwards : List ℕ → List ℕ
backwards [] = []
backwards (d ∷ ds) = backwards ds ++ d ∷ []

abbrev pub power : ℕ → ℕ
power zero = 1
power (suc n) = 10 * power n

number-append : (num : ℕ) (ds es : List ℕ) → number num (ds ++ es) ≡ number (number num ds) es
number-append num [] es = refl
number-append num (d ∷ ds) es = number-append (num * 10 + d) ds es

pub digits_end : (fuel v : ℕ) → (v / 10 == 0) ≡ true → digits (suc fuel) v ≡ v % 10 ∷ []
digits_end fuel v e = rw e refl

pub digits_more :
    (fuel v : ℕ) → (v / 10 == 0) ≡ false → digits (suc fuel) v ≡ v % 10 ∷ digits fuel (v / 10)
digits_more fuel v e = rw e refl

pub number-backwards : (fuel v : ℕ) → v < power fuel → number 0 (backwards (digits fuel v)) ≡ v
number-backwards zero v l = omega arith
number-backwards (suc fuel) v l = elim (Bool-cases (v / 10 == 0)) [
  | inl e ↦ ap (λ ds. number 0 (backwards ds)) (digits_end fuel v e) ∙ ground (arith, e)
  | inr e ↦
      let rest = number-backwards fuel (v / 10) (omega arith) in
      ap (λ ds. number 0 (backwards ds)) (digits_more fuel v e)
      ∙ (number-append 0 (backwards (digits fuel (v / 10))) (v % 10 ∷ [])
          ∙ ap (λ n. n * 10 + v % 10) rest
          ∙ omega arith)
]

pub fuel_left : (fuel v : ℕ) → v < power (suc fuel) → (v / 10 == 0) ≡ false → 0 < fuel
fuel_left zero v l e = absurd (ground (arith, l, e))
fuel_left (suc fuel) v l e = omega arith

-- Memory from `a` on holds the characters of the digits.
abbrev pub Spells : Memory → ℕ → List ℕ → Type 0
Spells m a [] = Unit {0}
Spells m a (d ∷ ds) = (m a ≡ d + 48) × (d < 10) × Spells m (a + 1) ds

-- What the loop of `itoa` has done: the digits of `v`, the last one first, stand from `p` on.
pub record Written (m : Memory) (p : ℕ) (ds : List ℕ) (m' : Memory) (q : ℕ) : Type 0 where
  pub ends : q ≡ p + length ds
  pub spelt : Spells m' p ds
  pub before : (a : ℕ) → a < p → m' a ≡ m a

abbrev pub Writes : Memory → ℕ → List ℕ → Option (Memory × ℕ) → Type 0
Writes m p ds none = ⊥
Writes m p ds (some (m', q)) = Written m p ds m' q

Writes-store :
    (m : Memory) (p d : ℕ) (ds : List ℕ) (out : Option (Memory × ℕ))
    → d < 10
    → Writes (store m p (d + 48)) (p + 1) ds out
    → Writes m p (d ∷ ds) out
Writes-store m p d ds none l w = w
Writes-store m p d ds (some (m', q)) l w = record {
  ends = omega (arith, w.ends);
  spelt = (let here = w.before p in ground (arith, here), l, w.spelt);
  before = λ a b. let there = w.before a in ground (arith, there, b);
}

write_more :
    (fuel : ℕ) (m : Memory) (p v : ℕ)
    → (v / 10 == 0) ≡ false
    → write_digits (suc fuel) m p false v 10
      ≡ write_digits fuel (store m p (v % 10 + 48)) (p + 1) false (v / 10) 10
unfolding write_digits
write_more fuel m p v e = ground (arith, e)

write_end :
    (fuel : ℕ) (m : Memory) (p v : ℕ)
    → (v / 10 == 0) ≡ true
    → write_digits (suc fuel) m p false v 10 ≡ some (store m p (v % 10 + 48), p + 1)
unfolding write_digits
write_end fuel m p v e = ground (arith, e)

pub write_digits-Writes :
    (fuel : ℕ) (m : Memory) (p v : ℕ)
    → v < power fuel
    → 0 < fuel
    → Writes m p (digits fuel v) (write_digits fuel m p false v 10)
write_digits-Writes zero m p v l z = absurd (omega arith)
write_digits-Writes (suc fuel) m p v l z = elim (Bool-cases (v / 10 == 0)) [
  | inl e ↦ rw (digits_end fuel v e) (
      subst (Writes m p (v % 10 ∷ [])) (sym (write_end fuel m p v e)) (record {
        ends = omega arith;
        spelt = (ground arith, omega arith, tt);
        before = λ a b. ground (arith, b);
      }))
  | inr e ↦
      let more : 0 < fuel = fuel_left fuel v l e in
      rw (digits_more fuel v e) (
        subst (Writes m p (v % 10 ∷ digits fuel (v / 10))) (sym (write_more fuel m p v e)) (
          Writes-store m p (v % 10) (digits fuel (v / 10)) _ (omega arith) (
            write_digits-Writes fuel (store m p (v % 10 + 48)) (p + 1) (v / 10) (omega arith)
              more)))
]

Spells-same :
    (m m' : Memory) (a b : ℕ) (ds : List ℕ)
    → ((k : ℕ) → k < length ds → m' (b + k) ≡ m (a + k))
    → Spells m a ds
    → Spells m' b ds
Spells-same m m' a b [] h s = tt
Spells-same m m' a b (d ∷ ds) h s = (
  (let here = h 0 in ground (arith, here, s.0)),
  s.1,
  Spells-same m m' (a + 1) (b + 1) ds
      (λ k l. ap m' (omega arith) ∙ h (k + 1) (omega arith) ∙ ap m (omega arith)) s.2,
)

Spells-append :
    (m : Memory) (a b : ℕ) (ds es : List ℕ)
    → Spells m a ds
    → a + length ds ≡ b
    → Spells m b es
    → Spells m a (ds ++ es)
Spells-append m a b [] es s p t = subst (λ x. Spells m x es) (omega (arith, p)) t
Spells-append m a b (d ∷ ds) es s p t =
    (s.0, s.1, Spells-append m (a + 1) b ds es s.2 (omega (arith, p)) t)

pub length-backwards : (ds : List ℕ) → length (backwards ds) ≡ length ds
length-backwards [] = refl
length-backwards (d ∷ ds) =
    omega (arith, length-backwards ds, length-append (backwards ds) (d ∷ []))

-- Digits that stand the other way round in memory spell the list backwards.
pub Spells-backwards :
    (m m' : Memory) (a b : ℕ) (ds : List ℕ)
    → ((k : ℕ) → k < length ds → m' (b + k) ≡ m (a + length ds - 1 - k))
    → Spells m a ds
    → Spells m' b (backwards ds)
Spells-backwards m m' a b [] h s = tt
Spells-backwards m m' a b (d ∷ ds) h s =
    let size = length-backwards ds in
    Spells-append m' b (b + length ds) (backwards ds) (d ∷ [])
      (Spells-backwards m m' (a + 1) b ds (λ k l. h k (omega arith) ∙ ap m (omega arith)) s.2)
      (omega (arith, size)) ((h (length ds) (omega arith) ∙ ap m (omega arith) ∙ s.0), s.1, tt)

number_grows : (num : ℕ) (ds : List ℕ) → num ≤ number num ds
number_grows num [] = omega arith
number_grows num (d ∷ ds) = let more = number_grows (num * 10 + d) ds in omega (arith, more)

read_more :
    (fuel : ℕ) (m : Memory) (str num d : ℕ)
    → m str ≡ d + 48
    → d < 10
    → num * 10 + d + 48 < 2 ^ 31
    → read_digits (suc fuel) m str num ≡ read_digits fuel m (str + 1) (num * 10 + m str - 48)
unfolding read_digits isdigit
read_more fuel m str num d e l b = ground (arith, e, l, b)

-- `atoi`'s loop reads the number that the digits spell, up to the end of the string, where no sum on
-- the way overflows.
pub read_digits_lem :
    (fuel : ℕ) (m : Memory) (str num : ℕ) (ds : List ℕ)
    → Spells m str ds
    → m (str + length ds) ≡ 0
    → number num ds + 48 < 2 ^ 31
    → length ds < fuel
    → read_digits fuel m str num ≡ some (number num ds)
unfolding read_digits
read_digits_lem zero m str num ds s e b l = absurd (omega arith)
read_digits_lem (suc fuel) m str num [] s e b l =
    let here : m str ≡ 0 = ap m (omega arith) ∙ e in ground (arith, here)
read_digits_lem (suc fuel) m str num (d ∷ ds) s e b l =
    let grows = number_grows (num * 10 + d) ds in
    let rest =
      read_digits_lem fuel m (str + 1) (num * 10 + d) ds s.2 (ap m (omega arith) ∙ e) b
        (omega arith) in
    let same : num * 10 + m str - 48 ≡ num * 10 + d = omega (arith, s.0) in
    read_more fuel m str num d s.0 s.1 (omega (arith, grows, b))
    ∙ ap (read_digits fuel m (str + 1)) same
    ∙ rest
