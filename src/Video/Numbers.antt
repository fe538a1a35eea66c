-- ===== src/Video/Numbers.antt =====
-- `print_num` of nanOS/Kernel/videoDriver.c writes what `itoa` of lib.c writes.
use tpe_arqui.Prelude.{
  ℕ, zero, suc, ◌+◌, ◌/◌, ◌%◌, ◌^◌, ◌≤◌, ◌<◌, ◌≡◌, refl, sym, ap, subst, ◌∙◌, arith, leb, ◌==◌,
  true, false, ℤ, pos, negsuc, some, List, [], ◌∷◌, ◌++◌, map, length, Bool-cases, inl, inr,
}
use mathlib.Core.List.{append-nil}
use tpe_arqui.Libc.Numbers.Digits.{digits, digits_end, digits_more, backwards, power, fuel_left}
use tpe_arqui.Libc.Numbers.Laws.{magnitude}
use tpe_arqui.User.Format.{aux_size}
use tpe_arqui.User.Format.Text.{decimal, digit_text}
use tpe_arqui.Video.Text.{count_digits, fill_digits, num_text}

count_end : (fuel n : ℕ) → (n / 10 == 0) ≡ true → count_digits (suc fuel) n ≡ some 1
unfolding count_digits
count_end fuel n e = rw (count_digits, e) refl

count_more :
    (fuel n k : ℕ)
    → (n / 10 == 0) ≡ false
    → count_digits fuel (n / 10) ≡ some k
    → count_digits (suc fuel) n ≡ some (k + 1)
unfolding count_digits
count_more fuel n k e f = rw (count_digits, e, f) refl

count_digits_lem :
    (fuel n : ℕ) → n < power fuel → 0 < fuel → count_digits fuel n ≡ some (length (digits fuel n))
count_digits_lem zero n l z = absurd (omega (arith, z))
count_digits_lem (suc fuel) n l z = elim (Bool-cases (n / 10 == 0)) [
  | inl e ↦ count_end fuel n e ∙ ap (λ ds. some (length ds)) (sym (digits_end fuel n e))
  | inr e ↦
      count_more fuel n (length (digits fuel (n / 10))) e
        (count_digits_lem fuel (n / 10) (omega (arith, l)) (fuel_left fuel n l e))
      ∙ ap some (omega arith)
      ∙ ap (λ ds. some (length ds)) (sym (digits_more fuel n e))
]

-- More fuel gives the same digits.
digits-fuel :
    (fuel more n : ℕ) → n < power fuel → 0 < fuel → fuel ≤ more → digits fuel n ≡ digits more n
digits-fuel zero more n l z f = absurd (omega (arith, z))
digits-fuel (suc fuel) zero n l z f = absurd (omega (arith, f))
digits-fuel (suc fuel) (suc more) n l z f = elim (Bool-cases (n / 10 == 0)) [
  | inl e ↦ digits_end fuel n e ∙ sym (digits_end more n e)
  | inr e ↦
      digits_more fuel n e
      ∙ ap (λ ds. n % 10 ∷ ds)
          (digits-fuel fuel more (n / 10) (omega (arith, l)) (fuel_left fuel n l e)
            (omega (arith, f)))
      ∙ sym (digits_more more n e)
]

-- One character, and the ones before it.
fill_more :
    (k n : ℕ) (str : List ℕ)
    → fill_digits (suc k) n str ≡ fill_digits k (n / 10) ((n % 10 + 48) ∷ str)
unfolding fill_digits
fill_more k n str = refl

fill_none : (n : ℕ) (str : List ℕ) → fill_digits 0 n str ≡ str
unfolding fill_digits
fill_none n str = refl

text_append :
    (ds : List ℕ) (d : ℕ) (str : List ℕ)
    → map (λ c. c + 48) (ds ++ d ∷ []) ++ str ≡ map (λ c. c + 48) ds ++ (d + 48) ∷ str
text_append [] d str = refl
text_append (e ∷ ds) d str = ap (λ r. (e + 48) ∷ r) (text_append ds d str)

fill_digits_lem :
    (fuel n : ℕ) (str : List ℕ)
    → fill_digits (length (digits fuel n)) n str ≡ digit_text (digits fuel n) ++ str
fill_digits_lem zero n str = fill_none n str
fill_digits_lem (suc fuel) n str = elim (Bool-cases (n / 10 == 0)) [
  | inl e ↦
      subst (λ ds. fill_digits (length ds) n str ≡ digit_text ds ++ str) (sym (digits_end fuel n e))
        (fill_more 0 n str ∙ fill_none (n / 10) ((n % 10 + 48) ∷ str))
  | inr e ↦
      let ds = digits fuel (n / 10) in
      subst (λ ds. fill_digits (length ds) n str ≡ digit_text ds ++ str)
        (sym (digits_more fuel n e))
        (fill_more (length ds) n str
          ∙ fill_digits_lem fuel (n / 10) ((n % 10 + 48) ∷ str)
          ∙ sym (text_append (backwards ds) (n % 10) str))
]

text_of_count :
    (n : ℕ) → n < 2 ^ 31 → fill_digits (length (digits 10 n)) n [] ≡ digit_text (digits aux_size n)
text_of_count n l =
    fill_digits_lem 10 n []
    ∙ append-nil (digit_text (digits 10 n))
    ∙ ap digit_text (digits-fuel 10 aux_size n (omega (arith, l)) (omega arith) (omega arith))

text-pos : (n k : ℕ) → count_digits 10 n ≡ some k → num_text (pos n) ≡ some (fill_digits k n [])
unfolding num_text
text-pos n k e = rw (num_text, e) refl

text-negsuc :
    (n k : ℕ)
    → leb (2 ^ 31) (n + 1) ≡ false
    → count_digits 10 (suc n) ≡ some k
    → num_text (negsuc n) ≡ some (45 ∷ fill_digits k (suc n) [])
unfolding num_text
text-negsuc n k l e = rw (num_text, l, e) refl

-- For a number that is an `int`, and whose negative is one, the string that `print_num` counts out and
-- fills from its end is the one that `itoa` writes in base 10 and turns round.
pub num_text-decimal : (v : ℤ) → magnitude v < 2 ^ 31 → num_text v ≡ some (decimal v)
num_text-decimal (pos n) l =
    text-pos n (length (digits 10 n)) (count_digits_lem 10 n (omega (arith, l)) (omega arith))
    ∙ ap some (text_of_count n l)
num_text-decimal (negsuc n) l =
    text-negsuc n (length (digits 10 (suc n))) (ground (arith, l))
      (count_digits_lem 10 (suc n) (omega (arith, l)) (omega arith))
    ∙ ap (λ t. some (45 ∷ t)) (text_of_count (suc n) l)
