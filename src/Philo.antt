-- ===== src/Philo.antt =====
-- The dining philosophers: nanOS/Userland/SampleCodeModule/philo.c. Each function is what its
-- process does between `mutex_lock(critical_m)` and the next `mutex_unlock` or `cond_wait` of it;
-- `calls` are the other system calls on mutexes and condition variables, latest first.
pub mod Ring
pub mod Table
pub mod Safety
pub mod Progress
pub mod Growth
use tpe_arqui.Prelude.{
  ℕ, ◌+◌, ◌-◌, ◌%◌, ltb, ◌==◌, Bool, true, false, not, ◌&&◌, if◌then◌else◌, ℤ, List, [], ◌∷◌,
  Option, none, some,
}

-- `LEFT(x, N)` and `RIGHT(x, N)`
abbrev pub left : ℕ → ℕ → ℕ
left x n = (x + n - 1) % (if not (n == 0) then n else 1)

abbrev pub right : ℕ → ℕ → ℕ
right x n = (x + 1) % (if not (n == 0) then n else 1)

abbrev pub max_philosophers : ℕ
max_philosophers = 16

pub data State : Type 0 where
  thinking hungry eating dying : State

abbrev pub is_hungry : State → Bool
is_hungry hungry = true
is_hungry _ = false

abbrev pub is_eating : State → Bool
is_eating eating = true
is_eating _ = false

-- `philosopher_data`
pub record PhilosopherData : Type 0 where
  pub state : State
  pub mut : ℤ
  pub pid : ℤ
  pub die : Bool
  pub cond_die : ℤ

pub data Call : Type 0 where
  locks_mutex unlocks_mutex closes_mutex closes_cond signals_cond : ℤ → Call

-- The shared variables; `modify_cond_var` is the key of a condition variable.
pub record Philos : Type 0 where
  pub philo_array : ℕ → PhilosopherData
  pub philosopher_count : ℕ
  pub modify_cond_var : ℤ
  pub calls : List Call

abbrev pub put_philosopher : Philos → ℕ → PhilosopherData → Philos
put_philosopher s i d = record s { philo_array = λ j. if i == j then d else s.philo_array j }

abbrev pub call : Philos → Call → Philos
call s c = record s { calls = c ∷ s.calls }

abbrev pub state_of : Philos → ℕ → State
state_of s i = (s.philo_array i).state

-- Without the drawing.
unfoldable pub set_state : Philos → ℕ → State → Philos
set_state s i st = put_philosopher s i (let d = s.philo_array i in record d { state = st })

abbrev pub may_eat : Philos → ℕ → Bool
may_eat s i =
    is_hungry (state_of s i)
    && (not (is_eating (state_of s (left i s.philosopher_count)))
        && not (is_eating (state_of s (right i s.philosopher_count))))

unfoldable pub test : Philos → ℕ → Philos
unfolding set_state
test s i =
    if may_eat s i then call (set_state s i eating) (unlocks_mutex (s.philo_array i).mut) else s

-- Up to the lock of the philosopher's own mutex, where it waits until it eats.
unfoldable pub take_forks : Philos → ℕ → Philos
unfolding set_state test
take_forks s i = test (set_state s i hungry) i

unfoldable pub put_forks : Philos → ℕ → Philos
unfolding set_state test
put_forks s i =
    let n = s.philosopher_count in
    let t = test (set_state s i thinking) (left i n) in
    let u = call t (signals_cond (t.philo_array (left i n)).cond_die) in
    let v = test u (right i n) in call v (signals_cond (v.philo_array (right i n)).cond_die)

-- The test of the loop in which a dying philosopher waits.
unfoldable pub must_wait : Philos → ℕ → Bool
must_wait s i =
    is_eating (state_of s (left i s.philosopher_count))
    && is_eating (state_of s (right i s.philosopher_count))

-- `should_die` of a marked philosopher up to the loop, and from it on.
unfoldable pub begin_to_die : Philos → ℕ → Philos
unfolding set_state
begin_to_die s i = set_state s i dying

unfoldable pub finish_to_die : Philos → ℕ → Philos
finish_to_die s i =
    let d = s.philo_array i in
    let t = put_philosopher s i (record d { die = false }) in
    let u = record t { philosopher_count = s.philosopher_count - 1 } in
    call (call (call u (closes_mutex d.mut)) (closes_cond d.cond_die))
      (signals_cond s.modify_cond_var)

-- The value tells whether it goes on: `none` while it waits.
unfoldable pub should_die : Philos → ℕ → Option (Bool × Philos)
unfolding begin_to_die must_wait finish_to_die
should_die s i =
    let t = begin_to_die s i in
    if (s.philo_array i).die
    then (if must_wait t i then none else some (true, finish_to_die t i))
    else some (false, s)

-- The keys and the pid are what `mutex_open`, `cond_open` and `execp` return.
unfoldable pub add_philosopher : Philos → ℤ → ℤ → ℤ → Philos
add_philosopher s mut cond_die pid =
    let n = s.philosopher_count in
    let d : PhilosopherData = record {
      state = thinking;
      mut = mut;
      pid = pid;
      die = false;
      cond_die = cond_die;
    } in
    let t = record s { philosopher_count = n + 1 } in
    if ltb n max_philosophers then call (put_philosopher t n d) (locks_mutex mut) else s

-- Up to its wait for the philosopher to leave.
unfoldable pub remove_philosopher : Philos → Philos
remove_philosopher s =
    let n = s.philosopher_count in
    let d = s.philo_array (n - 1) in
    if ltb 0 n then put_philosopher s (n - 1) (record d { die = true }) else s
