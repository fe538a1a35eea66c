-- ===== src/Libc/Numbers/Reverse.antt =====
-- The reversal in place of `itoa`, nanOS/Kernel/lib.c.
use tpe_arqui.Prelude.{
  ℕ, zero, suc, ◌+◌, ◌-◌, ◌*◌, ◌≤◌, ◌<◌, ◌≡◌, sym, subst, arith, leb, ◌&&◌, if◌then◌else◌, Option,
  none, some,
}
use native.Mathlib.Decide.{dec_lt}
use tpe_arqui.Libc.Copy.{Memory}
use tpe_arqui.Libc.Numbers.{swap, reverse_from}

-- The bytes from `p1` to `p2` stand the other way round, all others where they were.
abbrev pub Reversed : Memory → ℕ → ℕ → Option Memory → Type 0
Reversed m p1 p2 none = ⊥
Reversed m p1 p2 (some m') =
    (a : ℕ) → m' a ≡ (if leb p1 a && leb a p2 then m (p1 + p2 - a) else m a)

Reversed-swap :
    (m : Memory) (p1 p2 : ℕ) (out : Option Memory)
    → p1 < p2
    → Reversed (swap m p1 p2) (p1 + 1) (p2 - 1) out
    → Reversed m p1 p2 out
Reversed-swap m p1 p2 none l r = r
Reversed-swap m p1 p2 (some m') l r = λ a. let inner = r a in ground (arith, inner, l)

reverse_more :
    (fuel : ℕ) (m : Memory) (p1 p2 : ℕ)
    → p1 < p2
    → reverse_from (suc fuel) m p1 p2 ≡ reverse_from fuel (swap m p1 p2) (p1 + 1) (p2 - 1)
unfolding reverse_from
reverse_more fuel m p1 p2 l = ground (arith, l)

reverse_end :
    (fuel : ℕ) (m : Memory) (p1 p2 : ℕ) → p2 ≤ p1 → reverse_from (suc fuel) m p1 p2 ≡ some m
unfolding reverse_from
reverse_end fuel m p1 p2 l = ground (arith, l)

-- With half as much fuel as there are bytes, and one more, the reversal ends.
pub reverse_from-Reversed :
    (fuel : ℕ) (m : Memory) (p1 p2 : ℕ)
    → p2 + 1 < p1 + 2 * fuel
    → p1 ≤ p2 + 1
    → Reversed m p1 p2 (reverse_from fuel m p1 p2)
reverse_from-Reversed zero m p1 p2 f l = absurd (omega arith)
reverse_from-Reversed (suc fuel) m p1 p2 f l = elim (dec_lt p1 p2) [
  | yes less ↦ subst (Reversed m p1 p2) (sym (reverse_more fuel m p1 p2 less)) (
      Reversed-swap m p1 p2 _ less
        (reverse_from-Reversed fuel (swap m p1 p2) (p1 + 1) (p2 - 1) (omega arith) (omega arith)))
  | no more ↦
      subst (Reversed m p1 p2) (sym (reverse_end fuel m p1 p2 (omega arith)))
        (λ a. ground (arith, more, l))
]
