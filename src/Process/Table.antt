-- ===== src/Process/Table.antt =====
-- The table of processes: `insert_process`, `get_current_pids`, `get_process_by_pid` and
-- `number_processes` of nanOS/Kernel/process.c.
pub mod Laws
use tpe_arqui.Prelude.{
  ℕ, zero, suc, ◌+◌, ◌-◌, ltb, if◌then◌else◌, ◌==◌, Bool, true, false, not, ◌&&◌, List, [], ◌∷◌,
  ◌++◌, get_or, set, ℤ, pos, negsuc, map,
}
use tpe_arqui.Allocator.Locks.{LockCalls, locks, unlocks}
use tpe_arqui.Allocator.Stacks.{max_processes}
use tpe_arqui.Process.Defs.{Process, Processes, Heap, put, null}
use tpe_arqui.Process.Entries.{index_of}
use tpe_arqui.Process.Status.{is_delete_process, pid_process}

unfoldable pub lock_table : Processes → Processes
lock_table s = record s { lock_calls = locks ∷ s.lock_calls }

unfoldable pub unlock_table : Processes → Processes
unlock_table s = record s { lock_calls = unlocks ∷ s.lock_calls }

-- The result is the index, or -1.
unfoldable pub insert_process : Processes → ℕ → ℤ × Processes
unfolding lock_table unlock_table
insert_process s p =
    let t = lock_table s in
    let i = index_of t.process_table null 0 in
    if ltb i max_processes
    then (
      pos i,
      unlock_table (record t {
        n_processes = t.n_processes + 1;
        heap = put t.heap p (let x = t.heap p in record x { pid = i });
        process_table = set t.process_table i p;
      }),
    )
    else (negsuc 0, unlock_table t)

-- The loop of `get_current_pids` from an index on, with `left` processes still to meet.
unfoldable pub pids_met : Heap → List ℕ → ℕ → List ℕ
pids_met h [] left = []
pids_met h (p ∷ ps) left =
    let here = pid_process h p ∷ pids_met h ps (left - 1) in
    let later = pids_met h ps left in if left == 0 then [] else if p == null then later else here

-- What is put in `pid_array`, with the terminator -1, and the state after.
unfoldable pub get_current_pids : Processes → List ℤ × Processes
unfolding lock_table unlock_table
get_current_pids s =
    let t = lock_table s in
    (map pos (pids_met t.heap t.process_table t.n_processes) ++ negsuc 0 ∷ [], unlock_table t)

unfoldable pub get_process_by_pid : Processes → ℕ → ℕ
get_process_by_pid s pid =
    let p = get_or s.process_table pid null in
    if ltb pid max_processes && (not (p == null) && not (is_delete_process s.heap p))
    then p
    else null

unfoldable pub number_processes : Processes → ℕ
number_processes s = s.n_processes
