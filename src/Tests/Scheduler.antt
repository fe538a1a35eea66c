-- ===== src/Tests/Scheduler.antt =====
-- The ring of nanOS/Kernel/processManager.c: three processes, the second of them blocked.
use tpe_arqui.Prelude.{
  ℕ, zero, suc, ◌<◌, ◌≡◌, refl, arith, true, false, [], ◌∷◌, Option, none, some, ◌==◌,
  if◌then◌else◌, pos,
}
use tpe_arqui.Allocator.Stacks.{blank_stack_pages}
use tpe_arqui.Allocator.Pages.{blank_pages, get_page}
use tpe_arqui.Process.Defs.{Process, ready, blocked}
use tpe_arqui.Process.Lifecycle.{initial_frame}
use tpe_arqui.Process.Status.{
  is_blocked_process, is_delete_process, set_rsp_process, get_rsp_process,
}
use tpe_arqui.Mutex.{unlocked}
use tpe_arqui.Process.DataPages.Laws
use tpe_arqui.Tests.Process.{one_process, one_process-IsValid}
use tpe_arqui.Scheduler.Ring.{IsRing}
use tpe_arqui.Scheduler.Ring.Refine.{Reach, Reach-IsRing}
use tpe_arqui.Scheduler.Info.{Answers, get_process_info_by_pid, get_process_info_by_pid_lem}
use tpe_arqui.Scheduler.{Scheduler, next_process, set_next_current, unassign_quantum, add_process}
use tpe_arqui.Scheduler.Laws.{Switches, current_blocked, moved, left, next_process_lem}

abbrev at_rsp : ℕ → Process
at_rsp p = record {
  st = if p == 20 then blocked else ready;
  name = [];
  entry_point = 0;
  rsp = p;
  stack_page = 0;
  n_data_page = 0;
  data_page = [];
  pid = 4;
  ppid = 1;
  open_fds = λ fd. false;
}

abbrev three_processes : Scheduler
three_processes = record {
  nodes = λ a. record {
    quantum = pos 1;
    p = if a == 100 then 10 else if a == 200 then 20 else 30;
    next = if a == 100 then 200 else if a == 200 then 300 else 100;
  };
  current = 100;
  prev = 300;
  superlock = unlocked;
  world = record {
    procs = record {
      heap = at_rsp;
      process_table = [];
      foreground = 10;
      n_processes = 3;
      lock_calls = [];
    };
    pages = blank_pages;
    stacks = blank_stack_pages;
    frames = λ a. initial_frame 0 0 0;
  };
}

first_blocked : (k : ℕ) → k < 1 → current_blocked (moved k (left three_processes 5555)) ≡ true
unfolding is_blocked_process unassign_quantum set_rsp_process
first_blocked zero l = refl
first_blocked (suc k) l = absurd (omega arith)

next_process_lem_example : Switches three_processes 5555 1 (next_process 2 three_processes 5555)
unfolding is_blocked_process is_delete_process unassign_quantum set_rsp_process
next_process_lem_example =
    next_process_lem 1 2 three_processes 5555 (omega arith) (omega arith) refl refl first_blocked
      refl (omega arith)

-- The scheduler of the kernel with the one process of pid 0.
abbrev one_scheduled : Scheduler
one_scheduled =
    let w = three_processes.world in
    record three_processes { world = record w { procs = one_process } }

one_process_pages : Laws.IsValid (one_process.heap 0x501000)
one_process_pages = record { sized = refl; counted = refl }

informed_of_0 : Answers one_scheduled 0x501000 0 (get_process_info_by_pid one_scheduled 0)
unfolding is_delete_process
informed_of_0 =
    get_process_info_by_pid_lem one_scheduled 0x501000 0 one_process-IsValid one_process_pages
      (omega arith) (omega arith) refl refl

-- Two nodes are added to an empty ring, for the processes 10 and 30.
abbrev no_nodes : Scheduler
no_nodes =
    let w = three_processes.world in
    record three_processes {
      current = 0;
      prev = 0;
      world = record w {
        pages = record { pages_stack = 1 ∷ 2 ∷ 3 ∷ []; current_index = 0; lock_calls = [] };
      };
    }

abbrev one_node : Scheduler
one_node = add_process no_nodes 10

abbrev two_nodes : Scheduler
two_nodes = add_process one_node 30

two_added : Reach (0x501000 ∷ 0x502000 ∷ []) two_nodes
unfolding add_process get_page
two_added =
    Reach.adds (0x501000 ∷ []) one_node 30
      (Reach.adds [] no_nodes 10 (Reach.begins no_nodes refl) refl (omega arith)) refl (omega arith)

abbrev state_of_switch : Option (ℕ × Scheduler) → Scheduler
state_of_switch none = two_nodes
state_of_switch (some (r, t)) = t

abbrev switched : Scheduler
switched = state_of_switch (next_process 1 two_nodes 5555)

nobody_before : (k : ℕ) → k < 0 → current_blocked (moved k (left two_nodes 5555)) ≡ true
nobody_before k l = absurd (omega (arith, l))

switched_over : Reach (0x502000 ∷ 0x501000 ∷ []) switched
unfolding next_process set_next_current unassign_quantum add_process get_page is_blocked_process
    is_delete_process set_rsp_process get_rsp_process
switched_over =
    Reach.switches 0 1 (0x501000 ∷ 0x502000 ∷ []) two_nodes switched 5555 30 two_added (omega arith)
      refl refl nobody_before refl (omega arith) refl

Reach-IsRing_example : IsRing switched (0x502000 ∷ 0x501000 ∷ [])
Reach-IsRing_example = Reach-IsRing switched_over
