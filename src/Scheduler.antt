-- ===== src/Scheduler.antt =====
-- The ring of processes: nanOS/Kernel/processManager.c. Its nodes stand by address; the switch to
-- another stack is left to the caller, which gets the stack pointer.
pub mod Laws
pub mod Ring
pub mod Info
use tpe_arqui.Prelude.{
  ℕ, zero, suc, ◌+◌, ◌==◌, if◌then◌else◌, Bool, true, false, not, ◌&&◌, ◌||◌, ℤ, pos, negsuc,
  Option, none, some,
}
use tpe_arqui.Allocator.Pages.{get_page, store_page}
use tpe_arqui.Process.Defs.{null}
use tpe_arqui.Process.Status.{
  is_blocked_process, is_delete_process, set_rsp_process, get_rsp_process, pid_process,
}
use tpe_arqui.Process.Lifecycle.{World, destroy_process}
use tpe_arqui.Mutex.{Lock, locked, unlocked}

-- `QUANTUM`
abbrev pub quantum_max : ℤ
quantum_max = pos 1

-- `struct c_node`
pub record ListNode : Type 0 where
  pub quantum : ℤ
  pub p : ℕ
  pub next : ℕ

-- The statics, the nodes, and the processes with their memory.
pub record Scheduler : Type 0 where
  pub nodes : ℕ → ListNode
  pub current : ℕ
  pub prev : ℕ
  pub superlock : Lock
  pub world : World

abbrev pub incremented : ℤ → ℤ
incremented (pos n) = pos (n + 1)
incremented (negsuc zero) = pos 0
incremented (negsuc (suc n)) = negsuc n

abbrev pub decremented : ℤ → ℤ
decremented (pos zero) = negsuc 0
decremented (pos (suc n)) = pos n
decremented (negsuc n) = negsuc (n + 1)

-- `quantum > 0`
abbrev pub positive : ℤ → Bool
positive (pos zero) = false
positive (pos (suc n)) = true
positive (negsuc n) = false

abbrev pub put_node : Scheduler → ℕ → ListNode → Scheduler
put_node s a n = record s { nodes = λ b. if a == b then n else s.nodes b }

abbrev pub set_quantum : Scheduler → ℕ → ℤ → Scheduler
set_quantum s a q = put_node s a (let n = s.nodes a in record n { quantum = q })

abbrev pub set_next : Scheduler → ℕ → ℕ → Scheduler
set_next s a next = put_node s a (let n = s.nodes a in record n { next = next })

unfoldable pub get_current_process : Scheduler → ℕ
get_current_process s = (s.nodes s.current).p

unfoldable pub assign_quantum : Scheduler → Scheduler
assign_quantum s = set_quantum s s.current (incremented (s.nodes s.current).quantum)

unfoldable pub unassign_quantum : Scheduler → Scheduler
unassign_quantum s = set_quantum s s.current (decremented (s.nodes s.current).quantum)

-- The process is destroyed, and the page of its node given back.
abbrev pub drop_node : Scheduler → ℕ → Scheduler
drop_node s a =
    let w = destroy_process s.world (s.nodes s.current).p (s.nodes a).p in
    record s { world = record w { pages = (store_page w.pages a).1 } }

-- One turn of the loop of `set_next_current`.
abbrev pub pass_over : Scheduler → Scheduler
pass_over s =
    let next = (s.nodes s.current).next in
    let passed =
      if is_delete_process s.world.procs.heap (s.nodes s.current).p
      then drop_node (set_next s s.prev next) s.current
      else record s { prev = s.current } in
    record passed { current = next }

-- The loop, with fuel: it does not end while no process can run.
unfoldable pub set_next_current : ℕ → Scheduler → Option Scheduler
set_next_current zero s = none
set_next_current (suc fuel) s =
    let p = (s.nodes s.current).p in
    let h = s.world.procs.heap in
    elim (is_blocked_process h p || is_delete_process h p) [
      | true ↦ set_next_current fuel (pass_over s)
      | false ↦ some s
    ]

-- From one process to the next: the stack pointer is saved, and the ring moves on.
abbrev pub leave_current : Scheduler → ℕ → Scheduler
leave_current s current_rsp =
    let t = set_quantum s s.current quantum_max in
    let w = t.world in
    let procs = w.procs in
    let saved = record w {
      procs = record procs { heap = set_rsp_process procs.heap (t.nodes t.current).p current_rsp };
    } in
    record t { world = saved; prev = t.current; current = (t.nodes t.current).next }

abbrev pub rsp_of_current : Scheduler → ℕ
rsp_of_current s = get_rsp_process s.world.procs.heap (s.nodes s.current).p

-- `_unlocked(&superlock)` takes the superlock if it is free; it is given back at the end.
unfoldable pub next_process : ℕ → Scheduler → ℕ → Option (ℕ × Scheduler)
unfolding set_next_current unassign_quantum
next_process fuel s current_rsp =
    let t = unassign_quantum s in
    if s.current == null
    then some (current_rsp, s)
    else if positive (t.nodes t.current).quantum
    then some (current_rsp, t)
    else elim t.superlock [
      | locked ↦ some (current_rsp, t)
      | unlocked ↦
          elim (set_next_current fuel
            (leave_current (record t { superlock = locked }) current_rsp)) [
              | none ↦ none
              | some u ↦ let v = record u { superlock = unlocked } in some (rsp_of_current v, v)
            ]
    ]

-- Between `set_superlock` and `unset_superlock` nothing reads it.
unfoldable pub add_process : Scheduler → ℕ → Scheduler
add_process s p =
    let w = s.world in
    let (new_node, pages) = get_page w.pages in
    let t = record s { world = record w { pages = pages }; superlock = unlocked } in
    if s.current == null
    then (let u = put_node t new_node (record { quantum = quantum_max; p = p; next = new_node }) in
        record u { current = new_node; prev = new_node })
    else (let next = (t.nodes t.current).next in
        set_next (put_node t new_node (record { quantum = quantum_max; p = p; next = next }))
          t.current new_node)

-- The value is the pid; process 0 is switched to at once.
unfoldable pub exec_process : Scheduler → ℕ → ℕ × Scheduler
unfolding add_process
exec_process s new_process =
    let t = add_process s new_process in (pid_process t.world.procs.heap new_process, t)

-- Up to the interrupt that it raises.
unfoldable pub yield_process : Scheduler → Scheduler
yield_process s =
    let next = (s.nodes s.current).next in
    let t = set_quantum s next (incremented (s.nodes next).quantum) in
    set_quantum t t.current (pos 0)

-- The stack pointer is the one to change to.
unfoldable pub end_process : ℕ → Scheduler → Option (ℕ × Scheduler)
unfolding set_next_current assign_quantum
end_process fuel s =
    let n = s.current in
    let p = (s.nodes n).p in
    let destroyed = record s { superlock = locked; world = destroy_process s.world p p } in
    let next = (s.nodes n).next in
    let unlinked = set_next destroyed s.prev next in
    elim (set_next_current fuel (record unlinked { current = (unlinked.nodes n).next })) [
      | none ↦ none
      | some t ↦
          let w = t.world in
          let stored = record t {
            superlock = unlocked;
            world = record w { pages = (store_page w.pages n).1 };
          } in
          let v = assign_quantum stored in some (rsp_of_current v, v)
    ]
