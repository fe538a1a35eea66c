-- ===== src/Philo/Progress.antt =====
-- Nobody is left hungry beside two free forks: nanOS/Userland/SampleCodeModule/philo.c while the
-- table does not grow.
use tpe_arqui.Prelude.{ℕ, ◌+◌, ◌-◌, ◌<◌, ◌≡◌, ◌≢◌, refl, arith, true, false, subst, sym}
use tpe_arqui.Philo.{
  Philos, State, thinking, hungry, eating, dying, is_hungry, is_eating, left, right, state_of,
  may_eat, set_state, test, take_forks, put_forks, begin_to_die, finish_to_die, remove_philosopher,
  must_wait, call, signals_cond,
}
use tpe_arqui.Philo.Ring.{left_lem, right_lem}
use native.Mathlib.Decide.{ℕ_discrete}
use tpe_arqui.Philo.Table.{set_state_state, set_state_same, test_state, test_same}
use tpe_arqui.Philo.Safety.{OnlyLast, Inv, Step, Step-Inv, Reach, Reach-Apart}

-- The philosopher is not hungry, or waits for a neighbour who eats.
abbrev pub Waits : Philos → ℕ → Type 0
Waits s i = may_eat s i ≡ false

-- So it is with everybody at the table.
abbrev pub Fed : Philos → Type 0
Fed s = (i : ℕ) → i < s.philosopher_count → Waits s i

-- Where more philosophers eat and fewer are hungry, who waits waits on.
Waits-later :
    (s t : Philos) (i : ℕ)
    → t.philosopher_count ≡ s.philosopher_count
    → (is_hungry (state_of t i) ≡ true → is_hungry (state_of s i) ≡ true)
    → ((j : ℕ) → is_eating (state_of s j) ≡ true → is_eating (state_of t j) ≡ true)
    → Waits s i
    → Waits t i
Waits-later s t i same fewer more w =
    let n = s.philosopher_count in ground (arith, same, fewer, more (left i n), more (right i n), w)

test_hungry :
    (s : Philos) (k j : ℕ)
    → is_hungry (state_of (test s k) j) ≡ true
    → is_hungry (state_of s j) ≡ true
test_hungry s k j h = let now = test_state s k j in ground (arith, now, h)

test_eating :
    (s : Philos) (k j : ℕ)
    → is_eating (state_of s j) ≡ true
    → is_eating (state_of (test s k) j) ≡ true
test_eating s k j h = let now = test_state s k j in ground (arith, now, h)

test-Waits : (s : Philos) (k i : ℕ) → Waits s i → Waits (test s k) i
test-Waits s k i w =
    Waits-later s (test s k) i ((test_same s k i).0) (test_hungry s k i) (test_eating s k) w

tested-Waits : (s : Philos) (k : ℕ) → Waits (test s k) k
unfolding test set_state
tested-Waits s k = ground arith

set_state-Waits :
    (s : Philos) (k i : ℕ) (st : State)
    → is_hungry st ≡ false
    → is_eating (state_of s k) ≡ false
    → Waits s i
    → Waits (set_state s k st) i
unfolding set_state
set_state-Waits s k i st h e w =
    Waits-later s (set_state s k st) i refl (λ x. ground (arith, h, x))
      (λ j x. ground (arith, e, x)) w

take_forks-Fed :
    (s : Philos) (k : ℕ) → is_eating (state_of s k) ≡ false → Fed s → Fed (take_forks s k)
unfolding take_forks
take_forks-Fed s k e f i m =
    let t = set_state s k hungry in
    let same = (set_state_same s k hungry i).0 in
    let same' = (test_same t k i).0 in
    elim (ℕ_discrete i k) [
      | yes p ↦ subst (Waits (test t k)) (sym p) (tested-Waits t k)
      | no p ↦ test-Waits t k i (
          Waits-later s t i same
            (λ x. let now = set_state_state s k hungry i in ground (arith, now, p, x))
            (λ j x. let now = set_state_state s k hungry j in ground (arith, now, e, x))
            (f i (ground (arith, m, same, same'))))
    ]

-- Who sits beside neither `i` nor at `i` sees no change there.
put_down-Waits :
    (s : Philos) (k i : ℕ)
    → k < s.philosopher_count
    → i < s.philosopher_count
    → i ≢ left k s.philosopher_count
    → i ≢ right k s.philosopher_count
    → Waits s i
    → Waits (set_state s k thinking) i
unfolding set_state
put_down-Waits s k i l m p q w =
    let n = s.philosopher_count in
    let left_i = left_lem i n m in
    let right_i = right_lem i n m in
    let left_k = left_lem k n l in
    let right_k = right_lem k n l in ground (arith, left_i, right_i, left_k, right_k, p, q, w)

put_forks-Fed : (s : Philos) (k : ℕ) → k < s.philosopher_count → Fed s → Fed (put_forks s k)
unfolding put_forks
put_forks-Fed s k l f i m =
    let n = s.philosopher_count in
    let t = set_state s k thinking in
    let u = test t (left k n) in
    let u' = call u (signals_cond (u.philo_array (left k n)).cond_die) in
    let same = (set_state_same s k thinking i).0 in
    let same_u = (test_same t (left k n) i).0 in
    let same_w = (test_same u' (right k n) i).0 in
    let bound : i < n = ground (arith, m, same, same_u, same_w) in
    elim (ℕ_discrete i (left k n)) [
      | yes p ↦ test-Waits u' (right k n) i (subst (Waits u) (sym p) (tested-Waits t (left k n)))
      | no p ↦ elim (ℕ_discrete i (right k n)) [
        | yes q ↦ subst (Waits (test u' (right k n))) (sym q) (tested-Waits u' (right k n))
        | no q ↦
            test-Waits u' (right k n) i
              (test-Waits t (left k n) i (put_down-Waits s k i l bound p q (f i bound)))
      ]
    ]

finish_to_die-Fed :
    (s : Philos) (k : ℕ)
    → k + 1 ≡ s.philosopher_count
    → is_eating (state_of s k) ≡ false
    → Fed s
    → Fed (finish_to_die s k)
unfolding finish_to_die
finish_to_die-Fed s k l e f i m =
    let n = s.philosopher_count in
    let old = f i in
    let left_i = left_lem i n in
    let right_i = right_lem i n in
    let left_now = left_lem i (n - 1) m in
    let right_now = right_lem i (n - 1) m in
    ground (arith, old, left_i, right_i, left_now, right_now, l, e, m)

-- The steps of a table that does not grow, each by a philosopher in the state in which its process is.
pub data Dines (s t : Philos) : Type 0 where
  takes :
      (i : ℕ) → i < s.philosopher_count → state_of s i ≡ thinking → t ≡ take_forks s i → Dines s t
  puts : (i : ℕ) → i < s.philosopher_count → state_of s i ≡ eating → t ≡ put_forks s i → Dines s t
  dies :
      (i : ℕ)
      → i < s.philosopher_count
      → (s.philo_array i).die ≡ true
      → state_of s i ≡ thinking
      → t ≡ begin_to_die s i
      → Dines s t
  leaves :
      (i : ℕ)
      → i < s.philosopher_count
      → (s.philo_array i).die ≡ true
      → state_of s i ≡ dying
      → must_wait s i ≡ false
      → t ≡ finish_to_die s i
      → Dines s t
  removes :
      ((j : ℕ) → j < s.philosopher_count → (s.philo_array j).die ≡ false)
      → t ≡ remove_philosopher s
      → Dines s t

-- A meal from `s` on.
pub data Meal (s : Philos) : Philos → Type 0 where
  begun : (t : Philos) → t ≡ s → Meal s t
  next : (t u : Philos) → Meal s t → Dines t u → Meal s u

Dines-Step : {s t : Philos} → Dines s t → Step s t
Dines-Step (Dines.takes i l st e) = Step.takes i l e
Dines-Step (Dines.puts i l st e) = Step.puts i l e
Dines-Step (Dines.dies i l d st e) = Step.dies i l d e
Dines-Step (Dines.leaves i l d st w e) = Step.leaves i l d w e
Dines-Step (Dines.removes nobody e) = Step.removes nobody e

Dines-Fed : {s t : Philos} → Dines s t → OnlyLast s → Fed s → Fed t
unfolding begin_to_die remove_philosopher
Dines-Fed {s} (Dines.takes i l st e) o f =
    subst Fed (sym e) (take_forks-Fed s i (ground (arith, st)) f)
Dines-Fed {s} (Dines.puts i l st e) o f = subst Fed (sym e) (put_forks-Fed s i l f)
Dines-Fed {s} (Dines.dies i l d st e) o f = subst Fed (sym e) (λ j m.
    set_state-Waits s i j dying refl (ground (arith, st))
      (f j (let same = set_state_same s i dying j in ground (arith, same, m))))
Dines-Fed {s} (Dines.leaves i l d st w e) o f =
    subst Fed (sym e) (finish_to_die-Fed s i (o i l d) (ground (arith, st)) f)
Dines-Fed {s} (Dines.removes nobody e) o f =
    subst Fed (sym e) (λ j m. let old = f j in ground (arith, old, m))

Meal_lem : {s t : Philos} → Meal s t → Inv s → Fed s → Inv t × Fed t
Meal_lem (Meal.begun t e) v f = (subst Inv (sym e) v, subst Fed (sym e) f)
Meal_lem (Meal.next t u meal step) v f =
    let before = Meal_lem meal v f in
    (Step-Inv (Dines-Step step) before.0, Dines-Fed step before.0.only_last before.1)

-- From a table that the program reaches and at which everybody thinks, as when the philosophers have
-- just been seated, while they take and put down their forks, die and leave in any order, and none
-- is added: nobody is ever left hungry between two neighbours who do not eat, since each hungry
-- philosopher waits for a neighbour who eats. No grant of the forks is missed.
pub Meal-Fed :
    {s t : Philos}
    → Reach s
    → ((i : ℕ) → i < s.philosopher_count → state_of s i ≡ thinking)
    → Meal s t
    → Inv t × Fed t
Meal-Fed {s} reached think meal =
    Meal_lem meal (Reach-Apart reached) (λ i m. let st = think i m in ground (arith, st))
