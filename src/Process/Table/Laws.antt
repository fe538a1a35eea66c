-- ===== src/Process/Table/Laws.antt =====
-- What the table of nanOS/Kernel/process.c promises.
use tpe_arqui.Prelude.{
  tally, ℕ, suc, ◌+◌, ◌-◌, ◌<◌, ◌≡◌, ◌≢◌, refl, sym, ap, arith, if◌then◌else◌, ◌==◌, false, List,
  [], ◌∷◌, ◌++◌, map, get_or, length, length-set, get_or-set_self, get_or-set_ne, pos, negsuc,
}
use tpe_arqui.Allocator.Locks.{Balanced}
use tpe_arqui.Allocator.Stacks.{max_processes}
use tpe_arqui.Process.Defs.{Processes, Heap, null}
use tpe_arqui.Process.Entries.{index_of, used, replaced, tally-used, get_or-index_of, get_or_ne}
use tpe_arqui.Process.Status.{is_delete_process, pid_process}
use tpe_arqui.Process.Table.{
  insert_process, pids_met, get_current_pids, get_process_by_pid, number_processes,
}

-- The counts are right, and every process stands at the index that is its pid.
pub record IsValid (s : Processes) : Type 0 where
  pub sized : length s.process_table ≡ max_processes
  pub counted : s.n_processes ≡ used s.process_table
  pub pids :
      (i : ℕ)
      → get_or s.process_table i null ≢ null
      → (s.heap (get_or s.process_table i null)).pid ≡ i

-- `p` has been put at index `i`, which was free, and has that pid; all other entries are as before.
pub record Inserted (s : Processes) (p i : ℕ) (t : Processes) : Type 0 where
  pub in_range : i < max_processes
  pub was_free : get_or s.process_table i null ≡ null
  pub at_index : get_or t.process_table i null ≡ p
  pub pid_set : t.heap p ≡ (let x = s.heap p in record x { pid = i })
  pub others : (j : ℕ) → j ≢ i → get_or t.process_table j null ≡ get_or s.process_table j null
  pub elsewhere : (q : ℕ) → q ≢ p → t.heap q ≡ s.heap q
  pub number : number_processes t ≡ number_processes s + 1

-- While the table has room, `insert_process` gives the process the first free index as its pid and
-- returns it; every other entry and every other process is as before, one process more is
-- counted, and the table is left unlocked.
pub insert_process-Inserted :
    (s : Processes) (p : ℕ)
    → IsValid s
    → p ≢ null
    → number_processes s < max_processes
    → let i = index_of s.process_table null 0 in
      (let (r, t) = insert_process s p in
        (r ≡ pos i) × Inserted s p i t × Balanced s.lock_calls t.lock_calls)
unfolding insert_process number_processes
insert_process-Inserted s p v n room =
    let xs = s.process_table in
    let r = replaced xs null p in
    let i = index_of xs null 0 in
    let empty : 0 < tally null xs = omega (arith, tally-used xs, v.counted, v.sized) in
    let within : i < max_processes = omega (arith, r.found empty, v.sized) in
    (
      ground arith,
      record {
        in_range = within;
        was_free = get_or-index_of xs null null empty;
        at_index = ground (arith, get_or-set_self xs i p null (r.found empty));
        pid_set = ground arith;
        others = λ j h. ground (arith, get_or-set_ne xs i j p null (λ e. h (sym e)));
        elsewhere = λ q h. ground arith;
        number = ground arith;
      },
      ground arith,
    )

-- `insert_process` of a process that is not in the table yet keeps the table well formed.
pub insert_process-IsValid :
    (s : Processes) (p : ℕ)
    → IsValid s
    → p ≢ null
    → tally p s.process_table ≡ 0
    → number_processes s < max_processes
    → IsValid (insert_process s p).1
unfolding insert_process number_processes
insert_process-IsValid s p v n new room =
    let xs = s.process_table in
    let r = replaced xs null p in
    let i = index_of xs null 0 in
    let empty : 0 < tally null xs = omega (arith, tally-used xs, v.counted, v.sized) in
    let within : i < max_processes = omega (arith, r.found empty, v.sized) in
    record {
      sized = ground (arith, length-set xs i p, v.sized);
      counted = ground (arith, r.uses empty, v.counted);
      pids = λ j h. ground (
        arith,
        v.pids j,
        get_or_ne xs p j null new n,
        get_or-set_self xs i p null (r.found empty),
        get_or-set_ne xs i j p null,
      );
    }

-- With 128 processes `insert_process` returns -1 and changes nothing but that it has locked and
-- unlocked the table; the new process gets no pid.
pub insert_process_full :
    (s : Processes) (p : ℕ)
    → IsValid s
    → number_processes s ≡ max_processes
    → let (r, t) = insert_process s p in
      (r ≡ negsuc 0)
      × (t ≡ record s { lock_calls = t.lock_calls })
      × Balanced s.lock_calls t.lock_calls
unfolding insert_process number_processes
insert_process_full s p v full =
    let none_empty : tally null s.process_table ≡ 0 =
      omega (arith, tally-used s.process_table, v.counted, v.sized) in
    ground (arith, (replaced s.process_table null p).missing none_empty, v.sized)

-- `get_process_by_pid` finds exactly the processes of the table that are not marked for deletion,
-- each under its pid.
pub get_process_by_pid_lem :
    (s : Processes) (pid p : ℕ)
    → IsValid s
    → p ≢ null
    → get_process_by_pid s pid ≡ p
    → ((s.heap p).pid ≡ pid) × (pid < max_processes) × (is_delete_process s.heap p ≡ false)
unfolding get_process_by_pid
get_process_by_pid_lem s pid p v n e = ground (arith, v.pids pid)

-- A process of the table that is not marked for deletion is found.
pub get_process_by_pid_found :
    (s : Processes) (i p : ℕ)
    → i < max_processes
    → p ≢ null
    → get_or s.process_table i null ≡ p
    → is_delete_process s.heap p ≡ false
    → get_process_by_pid s i ≡ p
unfolding get_process_by_pid
get_process_by_pid_found s i p h n e d = ground arith

-- The indices, from `i` on, of the entries that are not NULL.
abbrev pub indices : List ℕ → ℕ → List ℕ
indices [] i = []
indices (x ∷ xs) i = if x == null then indices xs (i + 1) else i ∷ indices xs (i + 1)

indices_nil : (xs : List ℕ) (i : ℕ) → used xs ≡ 0 → indices xs i ≡ []
indices_nil [] i e = refl
indices_nil (x ∷ xs) i e = ground (arith, indices_nil xs (i + 1))

pids_met-indices :
    (h : Heap) (xs : List ℕ) (left i : ℕ)
    → left ≡ used xs
    → ((j : ℕ) → get_or xs j null ≢ null → (h (get_or xs j null)).pid ≡ i + j)
    → pids_met h xs left ≡ indices xs i
unfolding pids_met pid_process
pids_met-indices h [] left i e f = refl
pids_met-indices h (x ∷ xs) left i e f =
    let later : (j : ℕ) → get_or xs j null ≢ null → (h (get_or xs j null)).pid ≡ i + 1 + j =
      λ j n. omega (arith, f (suc j) n) in
    ground (
      arith,
      f 0,
      indices_nil xs (i + 1),
      λ (e' : left ≡ used xs). pids_met-indices h xs left (i + 1) e' later,
      λ (e' : left - 1 ≡ used xs). pids_met-indices h xs (left - 1) (i + 1) e' later,
    )

-- On a well formed table `get_current_pids` gives the pids of its processes in ascending order and
-- then -1, changes nothing, and leaves the table unlocked.
pub get_current_pids_lem :
    (s : Processes)
    → IsValid s
    → let (pids, t) = get_current_pids s in
      (pids ≡ map pos (indices s.process_table 0) ++ negsuc 0 ∷ [])
      × (t ≡ record s { lock_calls = t.lock_calls })
      × Balanced s.lock_calls t.lock_calls
unfolding get_current_pids
get_current_pids_lem s v = (
  ap (λ l. map pos l ++ negsuc 0 ∷ [])
      (pids_met-indices s.heap s.process_table s.n_processes 0 v.counted
        (λ j n. omega (arith, v.pids j n))),
  refl,
  refl,
)
