-- ===== src/Philo/Table.antt =====
-- What each critical section of nanOS/Userland/SampleCodeModule/philo.c does to the states round the
-- table.
use tpe_arqui.Prelude.{ℕ, ◌≡◌, arith, ◌==◌, ◌&&◌, if◌then◌else◌}
use tpe_arqui.Philo.{Philos, State, eating, state_of, may_eat, set_state, test}

pub set_state_state :
    (s : Philos) (i : ℕ) (st : State) (j : ℕ)
    → state_of (set_state s i st) j ≡ (if i == j then st else state_of s j)
unfolding set_state
set_state_state s i st j = ground arith

pub set_state_same :
    (s : Philos) (i : ℕ) (st : State) (j : ℕ)
    → ((set_state s i st).philosopher_count ≡ s.philosopher_count)
      × (((set_state s i st).philo_array j).die ≡ (s.philo_array j).die)
unfolding set_state
set_state_same s i st j = ground arith

pub test_state :
    (s : Philos) (i j : ℕ)
    → state_of (test s i) j ≡ (if may_eat s i && (i == j) then eating else state_of s j)
unfolding test
test_state s i j = ground arith

pub test_same :
    (s : Philos) (i j : ℕ)
    → ((test s i).philosopher_count ≡ s.philosopher_count)
      × (((test s i).philo_array j).die ≡ (s.philo_array j).die)
unfolding test
test_same s i j = ground arith
