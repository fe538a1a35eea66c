-- ===== src/User/Commands/Clock.antt =====
-- What `getTime` of nanOS/Userland/SampleCodeModule/commands.c prints.
use tpe_arqui.Prelude.{
  ℕ, ◌+◌, ◌/◌, ◌%◌, ◌≤◌, ◌<◌, ◌≡◌, refl, sym, ap, subst, ◌∙◌, arith, ltb, true, false, some, List,
  [], ◌∷◌, ◌++◌, length, pos, tally, Bool-cases, inl, inr,
}
use mathlib.Core.List.{append-nil}
use tpe_arqui.Libc.Copy.{Memory}
use tpe_arqui.Libc.Numbers.Digits.{digits_end, digits_more}
use tpe_arqui.User.Commands.{codes, then_prints, print_with_time_format, get_time}
use tpe_arqui.User.Format.{int_arg, emits, fprintformat}
use tpe_arqui.User.Format.Text.{decimal, digit_text}
use tpe_arqui.User.Format.Printing.{number, fprintformat-rendered, plain_step, nothing_left}

-- A format with no `%` is put out as it is.
literal :
    (fuel : ℕ) (m : Memory) (aux : ℕ) (str : List ℕ)
    → tally 37 str ≡ 0
    → fprintformat fuel m aux str [] ≡ some (length str, str)
literal fuel m aux [] h = nothing_left fuel m aux
literal fuel m aux (c ∷ str) h =
    plain_step fuel m aux c str [] (ground (arith, h))
    ∙ ap (emits 1 (c ∷ [])) (literal fuel m aux str (ground (arith, h)))
    ∙ ap (λ n. some (n, c ∷ str)) (omega arith)

-- The last two decimal digits.
abbrev pub two_digits : ℕ → List ℕ
two_digits n = (n / 10 % 10 + 48) ∷ (n % 10 + 48) ∷ []

one_digit : (n : ℕ) → n < 10 → decimal (pos n) ≡ (n % 10 + 48) ∷ []
one_digit n l = ap digit_text (digits_end 63 n (ground (arith, l)))

decimal_two : (n : ℕ) → 10 ≤ n → n < 100 → decimal (pos n) ≡ two_digits n
decimal_two n m l = ap digit_text (
    digits_more 63 n (ground (arith, m))
    ∙ ap (λ ds. n % 10 ∷ ds) (digits_end 62 (n / 10) (ground (arith, l))))

print_decimal :
    (fuel : ℕ) (m : Memory) (aux n : ℕ) (text : List ℕ)
    → n < 100
    → length text < fuel
    → decimal (pos n) ≡ text
    → fprintformat fuel m aux (codes "%d") (int_arg (pos n) ∷ []) ≡ some (length text, text)
print_decimal fuel m aux n text l f e =
    fprintformat-rendered fuel m aux (number (pos n) ∷ [])
      (omega (arith, l), subst (λ t. length t < fuel) (sym e) f, tt)
    ∙ ap (λ t. some (length t, t)) (append-nil (decimal (pos n)) ∙ e)

below_ten :
    (fuel : ℕ) (m : Memory) (aux n : ℕ)
    → ltb n 10 ≡ true
    → print_with_time_format fuel m aux n
      ≡ then_prints
          (fprintformat fuel m aux (codes "0") [])
          (fprintformat fuel m aux (codes "%d") (int_arg (pos n) ∷ []))
unfolding print_with_time_format
below_ten fuel m aux n e = rw (print_with_time_format, e) refl

from_ten :
    (fuel : ℕ) (m : Memory) (aux n : ℕ)
    → ltb n 10 ≡ false
    → print_with_time_format fuel m aux n
      ≡ fprintformat fuel m aux (codes "%d") (int_arg (pos n) ∷ [])
unfolding print_with_time_format
from_ten fuel m aux n e = rw (print_with_time_format, e) refl

time_format :
    (fuel : ℕ) (m : Memory) (aux n : ℕ)
    → n < 100
    → 2 < fuel
    → print_with_time_format fuel m aux n ≡ some (2, two_digits n)
time_format fuel m aux n l f = elim (Bool-cases (ltb n 10)) [
  | inl e ↦
      let small : n < 10 = ground (arith, e) in
      let ten : 48 ≡ n / 10 % 10 + 48 = omega (arith, small) in
      below_ten fuel m aux n e
      ∙ ap (λ z. then_prints z (fprintformat fuel m aux (codes "%d") (int_arg (pos n) ∷ [])))
          (literal fuel m aux (codes "0") refl)
      ∙ ap (then_prints (some (1, codes "0")))
          (print_decimal fuel m aux n ((n % 10 + 48) ∷ []) l (omega (arith, f)) (one_digit n small))
      ∙ ap (λ d. some (2, d ∷ (n % 10 + 48) ∷ [])) ten
  | inr e ↦
      from_ten fuel m aux n e
      ∙ print_decimal fuel m aux n (two_digits n) l f (decimal_two n (ground (arith, e)) l)
]

-- For hours, minutes and seconds below 100, the command `time` prints "Current time: " and each of them
-- with two digits, with colons between them, and a newline: 23 characters.
pub get_time_lem :
    (fuel : ℕ) (m : Memory) (aux h min s : ℕ)
    → h < 100
    → min < 100
    → s < 100
    → 2 < fuel
    → get_time fuel m aux h min s
      ≡ some (
        23,
        codes "Current time: "
            ++ two_digits h
            ++ codes ":"
            ++ two_digits min
            ++ codes ":"
            ++ two_digits s
            ++ 10 ∷ [],
      )
unfolding get_time
get_time_lem fuel m aux h min s lh lm ls f =
    rw
      (
        literal fuel m aux (codes "Current time: ") refl,
        literal fuel m aux (codes ":") refl,
        literal fuel m aux (10 ∷ []) refl,
        time_format fuel m aux h lh f,
        time_format fuel m aux min lm f,
        time_format fuel m aux s ls f,
      )
      refl
