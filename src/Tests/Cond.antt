-- ===== src/Tests/Cond.antt =====
-- The condition variables of nanOS/Kernel/condVariable.c: one, with two processes waiting at it.
use tpe_arqui.Prelude.{ℕ, refl, arith, true, false, List, [], ◌∷◌, replicate, pos}
use tpe_arqui.Process.Defs.{Process, blocked}
use tpe_arqui.Process.Status.{is_delete_process}
use tpe_arqui.Mutex.{Mutexes, unlocked, no_mutex, mutex_unlock}
use tpe_arqui.Cond.{Conds, no_cond, is_open_cond, cond_signal, cond_broadcast, cond_wait}
use tpe_arqui.Cond.Laws.{Woke, Waits, cond_signal_lem, cond_broadcast_lem, cond_wait_lem}

abbrev sleeper : Process
sleeper = record {
  st = blocked;
  name = [];
  entry_point = 0;
  rsp = 0;
  stack_page = 0;
  n_data_page = 0;
  data_page = replicate 64 0;
  pid = 2;
  ppid = 1;
  open_fds = λ _. false;
}

abbrev mutexes : Mutexes
mutexes = record {
  open_mutexes = replicate 128 no_mutex;
  array_mutex = unlocked;
  superlock = unlocked;
  heap = λ _. sleeper;
}

-- The first condition variable of the array, with what waits at it.
abbrev one_cond : List ℕ → Conds
one_cond waiting = record {
  open_conds =
      record { name = b'c' ∷ []; is_open = true; lock_queue = pos 1; process_queue = waiting }
      ∷ replicate 127 no_cond;
  array_lock = pos 0;
  mutexes = mutexes;
  key_calls = [];
}

-- Process 10 has waited longest.
cond_signal_lem_example :
    Woke
      (one_cond (10 ∷ 20 ∷ []))
      0
      (10 ∷ [])
      (20 ∷ [])
      (cond_signal (one_cond (10 ∷ 20 ∷ [])) (pos 0))
unfolding is_open_cond
cond_signal_lem_example =
    cond_signal_lem (one_cond (10 ∷ 20 ∷ [])) 0 10 (20 ∷ []) refl refl refl (omega arith)

all_woken :
    Woke
      (one_cond (10 ∷ 20 ∷ []))
      0
      (10 ∷ 20 ∷ [])
      []
      (cond_broadcast (one_cond (10 ∷ 20 ∷ [])) (pos 0))
unfolding is_open_cond
all_woken = cond_broadcast_lem (one_cond (10 ∷ 20 ∷ [])) 0 refl refl

cond_wait_lem_example :
    Waits (one_cond (10 ∷ [])) 0 (pos 2) 20 (cond_wait (one_cond (10 ∷ [])) (pos 0) (pos 2) 20)
unfolding is_open_cond mutex_unlock is_delete_process
cond_wait_lem_example = cond_wait_lem (one_cond (10 ∷ [])) 0 (pos 2) 20 refl refl refl
