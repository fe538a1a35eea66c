-- ===== src/Philo/Ring.antt =====
-- The neighbours of a philosopher: `LEFT` and `RIGHT` of nanOS/Userland/SampleCodeModule/include/philo.h.
use tpe_arqui.Prelude.{
  ℕ, zero, suc, ◌+◌, ◌-◌, ◌%◌, ◌<◌, ◌≡◌, arith, ap, ◌∙◌, ◌==◌, not, if◌then◌else◌,
}
use tpe_arqui.Philo.{left, right}

divisor : (n : ℕ) → 0 < n → (if not (n == 0) then n else 1) ≡ n
divisor n l = ground (arith, l)

next_mod : (i n : ℕ) → i < n → (i + 1) % n ≡ (if i + 1 == n then 0 else i + 1)
next_mod i n l = grind arith

add_self_mod : (i n : ℕ) → i < n → (i + n) % n ≡ i
add_self_mod i n l = grind arith

previous_mod : (i n : ℕ) → i < n → (i + n - 1) % n ≡ (if i == 0 then n - 1 else i - 1)
previous_mod zero n l = let below : n - 1 < n = omega arith in grind (arith, below)
previous_mod (suc i) n l =
    let round : (i + n) % n ≡ i = add_self_mod i n (omega arith) in
    ap (λ a. a % n) {x = suc i + n - 1} {y = i + n} (omega arith) ∙ round ∙ ground arith

pub right_lem : (i n : ℕ) → i < n → right i n ≡ (if i + 1 == n then 0 else i + 1)
right_lem i n l = ap (λ d. (i + 1) % d) (divisor n (omega arith)) ∙ next_mod i n l

pub left_lem : (i n : ℕ) → i < n → left i n ≡ (if i == 0 then n - 1 else i - 1)
left_lem i n l = ap (λ d. (i + n - 1) % d) (divisor n (omega arith)) ∙ previous_mod i n l
