-- ===== src/Scheduler/Info.antt =====
-- What a program is told of a process: nanOS/Kernel/process_info.c.
use tpe_arqui.Prelude.{
  ℕ, ◌+◌, ◌<◌, ◌≡◌, ◌≢◌, refl, sym, ap, subst, ◌∙◌, arith, ◌==◌, Bool, false, Option, none, some,
  if◌then◌else◌, List, tally, get_or, ℤ, pos, negsuc, zero, suc, length,
}
use tpe_arqui.Allocator.Stacks.{max_processes}
use tpe_arqui.Process.Defs.{null}
use tpe_arqui.Process.DataPages.{data_pages_process}
use tpe_arqui.Process.DataPages.Laws.{data_pages_process_lem}
use tpe_arqui.Process.DataPages.Laws
use tpe_arqui.Process.Foreground.{get_foreground_process}
use tpe_arqui.Process.Status.{
  is_blocked_process, is_delete_process, pid_process, ppid_process, stack_page_process,
}
use tpe_arqui.Process.Table.{get_process_by_pid}
use tpe_arqui.Process.Table
use tpe_arqui.Process.Table.Laws.{get_process_by_pid_found, get_process_by_pid_lem}
use tpe_arqui.Scheduler.{
  Scheduler, get_current_process, assign_quantum, unassign_quantum, incremented, decremented,
}

pub data Shown : Type 0 where
  shown_running shown_ready shown_blocked : Shown

-- `process_info`; `mem_pages` with the NULL behind the pages.
pub record ProcessInfo : Type 0 where
  pub is_foreground : Bool
  pub st : Shown
  pub pid : ℕ
  pub ppid : ℕ
  pub name : List ℕ
  pub stack_address : ℕ
  pub mem_pages : List ℕ

unfoldable pub get_process_info : Scheduler → ℕ → ProcessInfo × Scheduler
get_process_info s p =
    let t = assign_quantum s in
    let procs = t.world.procs in
    (
      record {
        is_foreground = get_foreground_process procs == p;
        st =
            if p == get_current_process t
            then shown_running
            else if is_blocked_process procs.heap p
            then shown_blocked
            else shown_ready;
        pid = pid_process procs.heap p;
        ppid = ppid_process procs.heap p;
        name = (procs.heap p).name;
        stack_address = stack_page_process procs.heap p;
        mem_pages = data_pages_process (procs.heap p);
      },
      unassign_quantum t,
    )

-- The 0 or 1 that it returns, and `pi` where it is 1.
unfoldable pub get_process_info_by_pid : Scheduler → ℕ → Option ProcessInfo × Scheduler
unfolding get_process_info
get_process_info_by_pid s pid =
    let p = get_process_by_pid s.world.procs pid in
    let (info, t) = get_process_info s p in if p == null then (none, s) else (some info, t)

-- What is told of the process `p` with the pid `i`.
pub record Tells (s : Scheduler) (p i : ℕ) (info : ProcessInfo) (t : Scheduler) : Type 0 where
  pub pid : info.pid ≡ i
  pub foreground : info.is_foreground ≡ (s.world.procs.foreground == p)
  pub running : info.st ≡ (
      if p == get_current_process s
      then shown_running
      else if is_blocked_process s.world.procs.heap p
      then shown_blocked
      else shown_ready)
  pub pages : (a : ℕ) → a ≢ 0 → tally a info.mem_pages ≡ tally a (s.world.procs.heap p).data_page
  pub number : length info.mem_pages ≡ (s.world.procs.heap p).n_data_page + 1
  pub world : t.world ≡ s.world
  pub quantum : (a : ℕ) → (t.nodes a).quantum ≡ (s.nodes a).quantum
  pub ring : (a : ℕ) → (t.nodes a).next ≡ (s.nodes a).next

abbrev pub Answers : Scheduler → ℕ → ℕ → Option ProcessInfo × Scheduler → Type 0
Answers s p i (none, t) = ⊥
Answers s p i (some info, t) = Tells s p i info t

next : (n : ℕ) → decremented (pos (suc n)) ≡ pos n
next n = refl

back : (q : ℤ) → decremented (incremented q) ≡ q
back (pos n) =
    let one_more : n + 1 ≡ suc n = omega arith in ap (λ m. decremented (pos m)) one_more ∙ next n
back (negsuc zero) = refl
back (negsuc (suc n)) = let one_more : n + 1 ≡ suc n = omega arith in ap negsuc one_more

same_current : (s : Scheduler) → get_current_process (assign_quantum s) ≡ get_current_process s
unfolding get_current_process assign_quantum
same_current s = ground arith

same_quantum :
    (s : Scheduler) (a : ℕ)
    → ((unassign_quantum (assign_quantum s)).nodes a).quantum ≡ (s.nodes a).quantum
unfolding assign_quantum unassign_quantum
same_quantum s a = let same = back (s.nodes s.current).quantum in ground (arith, same)

same_ring :
    (s : Scheduler) (a : ℕ)
    → ((unassign_quantum (assign_quantum s)).nodes a).next ≡ (s.nodes a).next
unfolding assign_quantum unassign_quantum
same_ring s a = ground arith

same_world :
    (s : Scheduler)
    → ((assign_quantum s).world ≡ s.world) × ((unassign_quantum (assign_quantum s)).world ≡ s.world)
unfolding assign_quantum unassign_quantum
same_world s = (refl, refl)

info-Tells :
    (s : Scheduler) (p i : ℕ)
    → pid_process s.world.procs.heap p ≡ i
    → Laws.IsValid (s.world.procs.heap p)
    → Tells s p i (get_process_info s p).0 (get_process_info s p).1
unfolding get_process_info assign_quantum get_foreground_process
info-Tells s p i e v =
    let held = data_pages_process_lem (s.world.procs.heap p) v in
    record {
      pid = e;
      foreground = refl;
      running =
          ap
            (λ q.
              if p == q
              then shown_running
              else if is_blocked_process s.world.procs.heap p
              then shown_blocked
              else shown_ready)
            (same_current s);
      pages = held.0;
      number = held.1;
      world = (same_world s).1;
      quantum = λ a. same_quantum s a;
      ring = λ a. same_ring s a;
    }

abbrev informed : Scheduler → ℕ → Option ProcessInfo × Scheduler
informed s p =
    if p == null then (none, s) else (some (get_process_info s p).0, (get_process_info s p).1)

informed_lem :
    (s : Scheduler) (p i : ℕ)
    → get_process_by_pid s.world.procs i ≡ p
    → p ≢ null
    → get_process_info_by_pid s i ≡ (some (get_process_info s p).0, (get_process_info s p).1)
unfolding get_process_info_by_pid
informed_lem s p i e n =
    let there : (p == null) ≡ false = ground (arith, n) in ap (informed s) e ∙ rw there refl

-- `get_process_info_by_pid` of a process of the table that is not marked for deletion gives its pid,
-- whether it is in the foreground, whether it runs, is blocked or is ready, and exactly its data pages
-- with a NULL behind them; the quantum of every process, the ring and the rest are as before.
pub get_process_info_by_pid_lem :
    (s : Scheduler) (p i : ℕ)
    → Table.Laws.IsValid s.world.procs
    → Laws.IsValid (s.world.procs.heap p)
    → i < max_processes
    → p ≢ null
    → get_or s.world.procs.process_table i null ≡ p
    → is_delete_process s.world.procs.heap p ≡ false
    → Answers s p i (get_process_info_by_pid s i)
unfolding pid_process
get_process_info_by_pid_lem s p i table pages l n entry d =
    let found = get_process_by_pid_found s.world.procs i p l n entry d in
    let right = get_process_by_pid_lem s.world.procs i p table n found in
    subst (Answers s p i) (sym (informed_lem s p i found n))
      (info-Tells s p i (ground (arith, n, right.0)) pages)
