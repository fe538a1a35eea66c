-- ===== src/Philo/Safety.antt =====
-- No two neighbours eat at once: nanOS/Userland/SampleCodeModule/philo.c over any interleaving.
use tpe_arqui.Prelude.{ℕ, ◌+◌, ◌-◌, ◌≤◌, ◌<◌, ◌≡◌, refl, arith, true, false, ◌&&◌, ℤ, subst, sym}
use tpe_arqui.Philo.{
  Philos, State, thinking, hungry, dying, is_eating, left, right, state_of, set_state, test,
  take_forks, put_forks, begin_to_die, finish_to_die, add_philosopher, remove_philosopher,
  must_wait, Call, call, signals_cond,
}
use tpe_arqui.Philo.Ring.{left_lem, right_lem}
use tpe_arqui.Philo.Table.{set_state_state, set_state_same, test_state, test_same}

-- No philosopher eats beside one who eats.
abbrev pub Apart : Philos → Type 0
Apart s =
    (i : ℕ)
    → i < s.philosopher_count
    → 2 ≤ s.philosopher_count
    → is_eating (state_of s i) && is_eating (state_of s (right i s.philosopher_count)) ≡ false

test-Apart : (s : Philos) (k : ℕ) → k < s.philosopher_count → Apart s → Apart (test s k)
test-Apart s k l a i m two =
    let n = s.philosopher_count in
    let same = test_same s k i in
    let at_i = test_state s k i in
    let at_right = test_state s k (right i n) in
    let right_i = right_lem i n in
    let right_k = right_lem k n l in
    let left_k = left_lem k n l in
    let before = a i in
    ground (arith, same, at_i, at_right, right_i, right_k, left_k, before, m, two)

set_state-Apart :
    (s : Philos) (k : ℕ) (st : State) → is_eating st ≡ false → Apart s → Apart (set_state s k st)
set_state-Apart s k st e a i m two =
    let n = s.philosopher_count in
    let same = set_state_same s k st i in
    let at_i = set_state_state s k st i in
    let at_right = set_state_state s k st (right i n) in
    let before = a i in ground (arith, same, at_i, at_right, before, m, two, e)

-- Only the last philosopher is ever marked to leave.
abbrev pub OnlyLast : Philos → Type 0
OnlyLast s =
    (i : ℕ) → i < s.philosopher_count → (s.philo_array i).die ≡ true → i + 1 ≡ s.philosopher_count

pub record Inv (s : Philos) : Type 0 where
  pub apart : Apart s
  pub only_last : OnlyLast s

-- The steps of the philosophers, and of the process that listens to commands, which adds and removes
-- no other philosopher while it waits for one to leave.
pub data Step (s t : Philos) : Type 0 where
  takes : (i : ℕ) → i < s.philosopher_count → t ≡ take_forks s i → Step s t
  puts : (i : ℕ) → i < s.philosopher_count → t ≡ put_forks s i → Step s t
  dies :
      (i : ℕ)
      → i < s.philosopher_count
      → (s.philo_array i).die ≡ true
      → t ≡ begin_to_die s i
      → Step s t
  leaves :
      (i : ℕ)
      → i < s.philosopher_count
      → (s.philo_array i).die ≡ true
      → must_wait s i ≡ false
      → t ≡ finish_to_die s i
      → Step s t
  removes :
      ((j : ℕ) → j < s.philosopher_count → (s.philo_array j).die ≡ false)
      → t ≡ remove_philosopher s
      → Step s t
  adds :
      (mut cond_die pid : ℤ)
      → ((j : ℕ) → j < s.philosopher_count → (s.philo_array j).die ≡ false)
      → t ≡ add_philosopher s mut cond_die pid
      → Step s t

pub data Reach : Philos → Type 0 where
  start : (s : Philos) → s.philosopher_count ≡ 0 → Reach s
  next : (r s : Philos) → Reach r → Step r s → Reach s

test-Inv : (s : Philos) (k : ℕ) → k < s.philosopher_count → Inv s → Inv (test s k)
test-Inv s k l v = record {
  apart = test-Apart s k l v.apart;
  only_last = λ i m d.
      let same = test_same s k i in
      let before = v.only_last i in ground (arith, same, before, m, d);
}

set_state-Inv :
    (s : Philos) (k : ℕ) (st : State) → is_eating st ≡ false → Inv s → Inv (set_state s k st)
set_state-Inv s k st e v = record {
  apart = set_state-Apart s k st e v.apart;
  only_last = λ i m d.
      let same = set_state_same s k st i in
      let before = v.only_last i in ground (arith, same, before, m, d);
}

call-Inv : (s : Philos) (c : Call) → Inv s → Inv (call s c)
call-Inv s c v = record { apart = v.apart; only_last = v.only_last }

take_forks-Inv : (s : Philos) (i : ℕ) → i < s.philosopher_count → Inv s → Inv (take_forks s i)
unfolding take_forks
take_forks-Inv s i l v =
    let t = set_state s i hungry in
    let same = set_state_same s i hungry i in
    test-Inv t i (ground (arith, same, l)) (set_state-Inv s i hungry refl v)

put_forks-Inv : (s : Philos) (i : ℕ) → i < s.philosopher_count → Inv s → Inv (put_forks s i)
unfolding put_forks
put_forks-Inv s i l v =
    let n = s.philosopher_count in
    let t = set_state s i thinking in
    let t_same = set_state_same s i thinking i in
    let left_i = left_lem i n l in
    let right_i = right_lem i n l in
    let u = test t (left i n) in
    let u_same = test_same t (left i n) i in
    let w = call u (signals_cond (u.philo_array (left i n)).cond_die) in
    call-Inv _ _ (
      test-Inv w (right i n) (ground (arith, t_same, u_same, right_i, l)) (
        call-Inv u _ (
          test-Inv t (left i n) (ground (arith, t_same, left_i, l))
            (set_state-Inv s i thinking refl v))))

finish_to_die-Inv :
    (s : Philos) (i : ℕ)
    → i < s.philosopher_count
    → (s.philo_array i).die ≡ true
    → must_wait s i ≡ false
    → Inv s
    → Inv (finish_to_die s i)
unfolding finish_to_die must_wait
finish_to_die-Inv s i l d w v =
    let n = s.philosopher_count in
    let last = v.only_last i l d in
    let left_i = left_lem i n l in
    let right_i = right_lem i n l in
    record {
      apart = λ j m two.
          let old = v.apart j in
          let right_j = right_lem j n in
          let right_now = right_lem j (n - 1) m in
          ground (arith, old, right_j, right_now, left_i, right_i, last, w, m, two);
      only_last = λ j m e. let old = v.only_last j in ground (arith, old, last, m, e);
    }

remove_philosopher-Inv :
    (s : Philos)
    → ((j : ℕ) → j < s.philosopher_count → (s.philo_array j).die ≡ false)
    → Inv s
    → Inv (remove_philosopher s)
unfolding remove_philosopher
remove_philosopher-Inv s nobody v = record {
  apart = λ j m two. let old = v.apart j in ground (arith, old, m, two);
  only_last = λ j m e. let none_marked = nobody j in ground (arith, none_marked, m, e);
}

add_philosopher-Inv :
    (s : Philos) (mut cond_die pid : ℤ)
    → ((j : ℕ) → j < s.philosopher_count → (s.philo_array j).die ≡ false)
    → Inv s
    → Inv (add_philosopher s mut cond_die pid)
unfolding add_philosopher
add_philosopher-Inv s mut cond_die pid nobody v =
    let n = s.philosopher_count in
    record {
      apart = λ j m two.
          let old = v.apart j in
          let right_j = right_lem j n in
          let right_now = right_lem j (n + 1) in ground (arith, old, right_j, right_now, m, two);
      only_last = λ j m e. let none_marked = nobody j in ground (arith, none_marked, m, e);
    }

pub Step-Inv : {s t : Philos} → Step s t → Inv s → Inv t
unfolding begin_to_die
Step-Inv {s} (Step.takes i l e) v = subst Inv (sym e) (take_forks-Inv s i l v)
Step-Inv {s} (Step.puts i l e) v = subst Inv (sym e) (put_forks-Inv s i l v)
Step-Inv {s} (Step.dies i l d e) v = subst Inv (sym e) (set_state-Inv s i dying refl v)
Step-Inv {s} (Step.leaves i l d w e) v = subst Inv (sym e) (finish_to_die-Inv s i l d w v)
Step-Inv {s} (Step.removes nobody e) v = subst Inv (sym e) (remove_philosopher-Inv s nobody v)
Step-Inv {s} (Step.adds mut cond_die pid nobody e) v =
    subst Inv (sym e) (add_philosopher-Inv s mut cond_die pid nobody v)

-- In every interleaving of philosophers that take and put down their forks, die and leave, and of
-- commands that add and remove philosophers one after the other, from the empty table on: no
-- philosopher eats beside one who eats, and only the last one is ever marked to leave.
pub Reach-Apart : {s : Philos} → Reach s → Inv s
Reach-Apart (Reach.start s e) = record {
  apart = λ i m. absurd (omega (arith, e, m));
  only_last = λ i m. absurd (omega (arith, e, m));
}
Reach-Apart (Reach.next r s reached step) = Step-Inv step (Reach-Apart reached)
