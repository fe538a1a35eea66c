-- ===== src/Tests/Process.antt =====
-- Processes, nanOS/Kernel/process.c: a kernel with one process, and small steps from there.
use tpe_arqui.Prelude.{
  ℕ, zero, suc, ◌≡◌, ◌≢◌, refl, arith, true, false, [], ◌∷◌, get_or, replicate, pos, negsuc,
  if◌then◌else◌, ◌==◌,
}
use tpe_arqui.Allocator.Locks.{Balanced}
use tpe_arqui.Process.Defs.{Process, Processes, Heap, Status, ready, blocked, delete, null}
use tpe_arqui.Process.Entries.{index_of}
use tpe_arqui.Process.Status.{
  is_delete_process, block_process, unblock_process, unblock_read_process,
  unblock_foreground_process, kill_process,
}
use tpe_arqui.Process.Status.Laws.{delete_is_final, kill_process_lem}
use tpe_arqui.Process.Foreground.{
  set_foreground_process, get_foreground_process, set_foreground_process_lem,
}
use tpe_arqui.Process.Files.{Sees, set_file_open, set_file_closed, set_file_lem}
use tpe_arqui.Process.Table.{insert_process, get_current_pids, number_processes}
use tpe_arqui.Process.Table.Laws
use tpe_arqui.Process.Table.Laws.{
  Inserted, indices, insert_process-Inserted, insert_process-IsValid, get_current_pids_lem,
}

abbrev pub process_with : Status → ℕ → Process
process_with st pid = record {
  st = st;
  name = [];
  entry_point = 0;
  rsp = 0;
  stack_page = 0;
  n_data_page = 2;
  data_page = 0x503000 ∷ 0 ∷ 0x504000 ∷ replicate 61 0;
  pid = pid;
  ppid = 0;
  open_fds = λ _. false;
}

-- The process at 10 is to be deleted, all others are blocked.
abbrev heap : Heap
heap p = process_with (if p == 10 then delete else blocked) 5

deleted_stays :
    (is_delete_process (block_process heap 20) 10 ≡ true)
    × (is_delete_process (unblock_process heap 20) 10 ≡ true)
    × (is_delete_process (unblock_read_process heap 20) 10 ≡ true)
    × (is_delete_process (unblock_foreground_process heap 20) 10 ≡ true)
    × (is_delete_process (kill_process heap 20).1 10 ≡ true)
unfolding is_delete_process
deleted_stays = delete_is_final heap 20 10 (omega arith) refl

killed_20 : let (r, h) = kill_process heap 20 in (r ≡ true) × (h 20 ≡ process_with delete 5)
killed_20 = kill_process_lem heap 20 (omega arith)

-- One process, of pid 0, at 0x501000.
abbrev pub one_process : Processes
one_process = record {
  heap = λ _. process_with ready 0;
  process_table = 0x501000 ∷ replicate 127 0;
  foreground = 0x501000;
  n_processes = 1;
  lock_calls = [];
}

get_or-replicate : (n i : ℕ) → get_or (replicate n null) i null ≡ null
get_or-replicate zero i = refl
get_or-replicate (suc n) zero = refl
get_or-replicate (suc n) (suc i) = get_or-replicate n i

one_process_pids : (i : ℕ) → get_or one_process.process_table i null ≢ null → 0 ≡ i
one_process_pids zero h = refl
one_process_pids (suc i) h = absurd (h (get_or-replicate 127 i))

pub one_process-IsValid : Laws.IsValid one_process
one_process-IsValid = record { sized = refl; counted = refl; pids = one_process_pids }

-- The foreground process hands the foreground to one with pid 5.
abbrev two_in_heap : Processes
two_in_heap = record one_process { heap = heap }

foreground_given :
    let t = set_foreground_process two_in_heap 0x501000 20 in
    (get_foreground_process t ≡ 20)
    × ((t.heap 20).st ≡ blocked)
    × ((q : ℕ) → q ≢ 20 → t.heap q ≡ heap q)
foreground_given = set_foreground_process_lem two_in_heap 0x501000 20

opened_3 :
    Sees true heap 20 3 (set_file_open heap 20 3) × Sees false heap 20 3 (set_file_closed heap 20 3)
opened_3 = set_file_lem heap 20 3 (omega arith)

pids_of_table :
    let (pids, t) = get_current_pids one_process in
    (pids ≡ pos 0 ∷ negsuc 0 ∷ [])
    × (t ≡ record one_process { lock_calls = t.lock_calls })
    × Balanced [] t.lock_calls
pids_of_table = get_current_pids_lem one_process one_process-IsValid

insert_in_table :
    let (r, t) = insert_process one_process 0x502000 in
    (r ≡ pos 1) × Inserted one_process 0x502000 1 t × Balanced [] t.lock_calls
unfolding index_of number_processes
insert_in_table =
    insert_process-Inserted one_process 0x502000 one_process-IsValid (omega arith) (omega arith)

one_inserted : Laws.IsValid (insert_process one_process 0x502000).1
unfolding number_processes
one_inserted =
    insert_process-IsValid one_process 0x502000 one_process-IsValid (omega arith) refl (omega arith)
