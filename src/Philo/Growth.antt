-- ===== src/Philo/Growth.antt =====
-- A philosopher joins the table of nanOS/Userland/SampleCodeModule/philo.c beside one who is hungry.
use tpe_arqui.Prelude.{
  ℕ, ◌+◌, ◌-◌, ◌≤◌, ◌<◌, ◌≡◌, ◌≢◌, ◌∙◌, arith, ◌==◌, Bool, true, false, ◌&&◌, if◌then◌else◌, ℤ,
}
use tpe_arqui.Philo.{
  Philos, State, thinking, eating, is_hungry, is_eating, left, right, state_of, may_eat, set_state,
  test, put_forks, add_philosopher, max_philosophers, call, signals_cond,
}
use tpe_arqui.Philo.Ring.{left_lem, right_lem}
use tpe_arqui.Philo.Table.{set_state_state, set_state_same, test_state, test_same}
use tpe_arqui.Philo.Progress.{Waits}

added_state :
    (s : Philos) (mut cond_die pid : ℤ) (j : ℕ)
    → s.philosopher_count < max_philosophers
    → let a = add_philosopher s mut cond_die pid in
      (a.philosopher_count ≡ s.philosopher_count + 1)
      × (state_of a j ≡ (if s.philosopher_count == j then thinking else state_of s j))
unfolding add_philosopher
added_state s mut cond_die pid j hi = ground (arith, hi)

elsewhere : (b : Bool) (x y : ℕ) (u v : State) → x ≢ y → (if b && (x == y) then u else v) ≡ v
elsewhere b x y u v p = ground (arith, p)

unless : (b c : Bool) (u v : State) → b ≡ false → (if b && c then u else v) ≡ v
unless b c u v p = ground (arith, p)

thinking-Waits : (s : Philos) (i : ℕ) → state_of s i ≡ thinking → Waits s i
thinking-Waits s i h = ground (arith, h)

-- The philosopher itself and its right neighbour excepted, nobody's state changes when one puts its forks down
-- beside a left neighbour who may not eat.
put_forks_elsewhere :
    (s : Philos) (k j : ℕ)
    → k ≢ j
    → may_eat (set_state s k thinking) (left k s.philosopher_count) ≡ false
    → right k s.philosopher_count ≢ j
    → state_of (put_forks s k) j ≡ state_of s j
unfolding put_forks
put_forks_elsewhere s k j p q r =
    let n = s.philosopher_count in
    let t = set_state s k thinking in
    let u = test t (left k n) in
    let u' = call u (signals_cond (u.philo_array (left k n)).cond_die) in
    let now_t = set_state_state s k thinking j in
    let now_u = test_state t (left k n) j in
    test_state u' (right k n) j
    ∙ elsewhere (may_eat u' (right k n)) (right k n) j eating (state_of u j) r
    ∙ test_state t (left k n) j
    ∙ unless (may_eat t (left k n)) (left k n == j) eating (state_of t j) q
    ∙ set_state_state s k thinking j
    ∙ elsewhere true k j thinking (state_of s j) p

put_forks_count : (s : Philos) (k : ℕ) → (put_forks s k).philosopher_count ≡ s.philosopher_count
unfolding put_forks
put_forks_count s k =
    let n = s.philosopher_count in
    let t = set_state s k thinking in
    let u = test t (left k n) in
    let u' = call u (signals_cond (u.philo_array (left k n)).cond_die) in
    (test_same u' (right k n) 0).0
    ∙ (test_same t (left k n) 0).0
    ∙ (set_state_same s k thinking 0).0

free-may_eat :
    (s : Philos) (n : ℕ)
    → s.philosopher_count ≡ n + 1
    → 4 ≤ n
    → is_hungry (state_of s (n - 1)) ≡ true
    → is_eating (state_of s (n - 2)) ≡ false
    → is_eating (state_of s n) ≡ false
    → may_eat s (n - 1) ≡ true
free-may_eat s n c four h l r =
    let left_last = left_lem (n - 1) (n + 1) (omega arith) in
    let right_last = right_lem (n - 1) (n + 1) (omega arith) in
    ground (arith, left_last, right_last, c, four, h, l, r)

-- `add_philosopher` misses one: with four to fifteen at the table, the last hungry beside the first
-- who eats and another who does not, a philosopher comes to sit between the last and the first;
-- then the first puts down its forks, and the last is hungry between two who do not eat.
pub add_philosopher_forgets :
    (s : Philos) (mut cond_die pid : ℤ)
    → 4 ≤ s.philosopher_count
    → s.philosopher_count < max_philosophers
    → is_hungry (state_of s (s.philosopher_count - 1)) ≡ true
    → is_eating (state_of s (s.philosopher_count - 2)) ≡ false
    → is_eating (state_of s 0) ≡ true
    → may_eat (put_forks (add_philosopher s mut cond_die pid) 0) (s.philosopher_count - 1) ≡ true
add_philosopher_forgets s mut cond_die pid lo hi h l e =
    let n = s.philosopher_count in
    let a = add_philosopher s mut cond_die pid in
    let grown = (added_state s mut cond_die pid 0 hi).0 in
    let left_0 = left_lem 0 a.philosopher_count (omega (arith, grown)) in
    let right_0 = right_lem 0 a.philosopher_count (omega (arith, grown)) in
    let new = (added_state s mut cond_die pid n hi).1 in
    let new_now = set_state_state a 0 thinking n in
    let last = (added_state s mut cond_die pid (n - 1) hi).1 in
    let fore = (added_state s mut cond_die pid (n - 2) hi).1 in
    let sits : may_eat (set_state a 0 thinking) (left 0 a.philosopher_count) ≡ false =
      thinking-Waits (set_state a 0 thinking) (left 0 a.philosopher_count)
        (ground (arith, left_0, grown, new, new_now)) in
    let same = put_forks_count a 0 ∙ grown in
    let at_new =
      put_forks_elsewhere a 0 n (omega arith) sits (ground (arith, right_0, grown, lo)) ∙ new in
    let at_last =
      put_forks_elsewhere a 0 (n - 1) (omega arith) sits (ground (arith, right_0, grown, lo))
      ∙ last in
    let at_fore =
      put_forks_elsewhere a 0 (n - 2) (omega arith) sits (ground (arith, right_0, grown, lo))
      ∙ fore in
    free-may_eat (put_forks a 0) n same (omega arith) (ground (arith, at_last, h))
      (ground (arith, at_fore, l)) (ground (arith, at_new))
