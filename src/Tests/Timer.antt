-- ===== src/Tests/Timer.antt =====
-- The timer of nanOS/Kernel/timer.c: two processes that sleep.
use tpe_arqui.Prelude.{◌/◌, ◌≡◌, refl, arith, false, List, [], ◌∷◌, ◌==◌, if◌then◌else◌}
use tpe_arqui.Allocator.Pages.{get_page}
use tpe_arqui.Process.Defs.{Process, blocked, ready}
use tpe_arqui.Process.Status.{block_process, unblock_process, is_delete_process}
use tpe_arqui.Timer.{Timer, timer_handler, sleep}
use tpe_arqui.Timer.Chains.{Sleeper, woken}
use tpe_arqui.Timer.Laws.{Sleeps, Leaves, Handles, ticked, ticked_lem, timer_handler_lem, sleep_lem}

abbrev asleep : Process
asleep = record {
  st = blocked;
  name = [];
  entry_point = 0;
  rsp = 0;
  stack_page = 0;
  n_data_page = 0;
  data_page = [];
  pid = 4;
  ppid = 1;
  open_fds = λ fd. false;
}

-- The structs at 100 and at 200, of the processes 10 and 20.
abbrev two_asleep : Timer
two_asleep = record {
  sleeping_processes = 100;
  structs = λ a.
      if a == 100
      then record { p = 10; ticks = 1; next = 200 }
      else record { p = 20; ticks = 3; next = 0 };
  heap = λ p. asleep;
  pages = record { pages_stack = 1 ∷ 2 ∷ []; current_index = 0; lock_calls = [] };
  quantum = 1;
}

abbrev two_sleepers : List Sleeper
two_sleepers =
    record { page = 100; p = 10; ticks = 1 } ∷ record { page = 200; p = 20; ticks = 3 } ∷ []

two_asleep-Sleeps : Sleeps two_asleep two_sleepers
two_asleep-Sleeps = record {
  chain = (refl, omega arith, refl, refl, (refl, omega arith, refl, refl, refl));
  distinct = ((omega arith, tt), (tt, tt));
  waiting = (omega arith, omega arith, (omega arith, omega arith, tt));
}

ticked_lem_example : Leaves (record { page = 200; p = 20; ticks = 1 } ∷ []) (ticked 3 2 two_asleep)
ticked_lem_example = ticked_lem 3 2 two_asleep two_sleepers (omega arith) two_asleep-Sleeps

timer_handler_lem_example : Handles two_asleep two_sleepers (timer_handler 3 two_asleep)
timer_handler_lem_example =
    timer_handler_lem 3 two_asleep two_sleepers (omega arith) two_asleep-Sleeps

woken_10 : (woken two_asleep.heap two_sleepers 10).st ≡ ready
unfolding unblock_process is_delete_process
woken_10 = refl

begun_sleep :
    let (r, u) = sleep two_asleep 30 120 in
    let a = (get_page two_asleep.pages).0 in
    (r ≡ 1)
    × (u.heap ≡ block_process two_asleep.heap 30)
    × Sleeps u (record { page = a; p = 30; ticks = 120 / 55 } ∷ two_sleepers)
unfolding get_page
begun_sleep =
    sleep_lem two_asleep 30 120 two_sleepers (omega arith) (omega arith) (omega arith)
      two_asleep-Sleeps (omega arith, (omega arith, tt))
