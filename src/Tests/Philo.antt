-- ===== src/Tests/Philo.antt =====
-- The philosophers of nanOS/Userland/SampleCodeModule/philo.c: tables of two and of five.
use tpe_arqui.Prelude.{ℕ, ◌<◌, ◌≡◌, refl, arith, false, true, [], pos, ◌==◌, if◌then◌else◌}
use tpe_arqui.Philo.{
  Philos, PhilosopherData, State, thinking, hungry, eating, take_forks, put_forks, add_philosopher,
  may_eat, state_of, test, set_state,
}
use tpe_arqui.Philo.Safety.{Reach, Step, Inv, Reach-Apart}
use tpe_arqui.Philo.Progress.{Meal, Dines, Fed, Meal-Fed}
use tpe_arqui.Philo.Growth.{add_philosopher_forgets}

abbrev philosopher : State → PhilosopherData
philosopher st = record { state = st; mut = pos 1; pid = pos 7; die = false; cond_die = pos 2 }

abbrev no_table : Philos
no_table = record {
  philo_array = λ i. philosopher eating;
  philosopher_count = 0;
  modify_cond_var = pos 0;
  calls = [];
}

abbrev one_sits : Philos
one_sits = add_philosopher no_table (pos 3) (pos 4) (pos 9)

abbrev two_sit : Philos
two_sit = add_philosopher one_sits (pos 5) (pos 6) (pos 10)

two_sit-Reach : Reach two_sit
unfolding add_philosopher
two_sit-Reach =
    Reach.next one_sits two_sit
      (Reach.next no_table one_sits (Reach.start no_table refl)
        (Step.adds (pos 3) (pos 4) (pos 9) (λ j l. absurd (omega arith)) refl))
      (Step.adds (pos 5) (pos 6) (pos 10) (λ j l. ground arith) refl)

Reach-Apart_example : Inv (take_forks (take_forks two_sit 0) 1)
unfolding add_philosopher take_forks
Reach-Apart_example = Reach-Apart (
    Reach.next (take_forks two_sit 0) (take_forks (take_forks two_sit 0) 1)
      (Reach.next two_sit (take_forks two_sit 0) two_sit-Reach (Step.takes 0 (ground arith) refl))
      (Step.takes 1 (ground arith) refl))

two_think : (i : ℕ) → i < two_sit.philosopher_count → state_of two_sit i ≡ thinking
unfolding add_philosopher
two_think i l = ground (arith, l)

-- The first takes the forks and puts them down, while the second waits for them.
Meal-Fed_example :
    Inv (put_forks (take_forks (take_forks two_sit 0) 1) 0)
    × Fed (put_forks (take_forks (take_forks two_sit 0) 1) 0)
unfolding add_philosopher take_forks test set_state
Meal-Fed_example =
    let one = take_forks two_sit 0 in
    let two = take_forks one 1 in
    Meal-Fed two_sit-Reach two_think (
      Meal.next two (put_forks two 0)
        (Meal.next one two
          (Meal.next two_sit one (Meal.begun two_sit refl) (Dines.takes 0 (omega arith) refl refl))
          (Dines.takes 1 (omega arith) refl refl))
        (Dines.puts 0 (omega arith) refl refl))

-- The first eats and the last waits for it.
abbrev five_sit : Philos
five_sit = record {
  philo_array = λ i. philosopher (if i == 0 then eating else if i == 4 then hungry else thinking);
  philosopher_count = 5;
  modify_cond_var = pos 0;
  calls = [];
}

add_philosopher_forgets_example :
    may_eat (put_forks (add_philosopher five_sit (pos 5) (pos 6) (pos 10)) 0) 4 ≡ true
add_philosopher_forgets_example =
    add_philosopher_forgets five_sit (pos 5) (pos 6) (pos 10) (omega arith) (omega arith) refl refl
      refl
