-- ===== src/Process/Status/Laws.antt =====
-- The states of a process in nanOS/Kernel/process.c: who may change them, and how.
use tpe_arqui.Prelude.{ℕ, ◌≡◌, ◌≢◌, arith, true, false, if◌then◌else◌, ◌==◌, ◌||◌, not}
use tpe_arqui.Process.Defs.{ready, delete, Heap, null}
use tpe_arqui.Process.Status.{
  is_delete_process, kill_process, block_process, unblock_process, is_blocked_process,
  unblock_read_process, block_read_process, unblock_foreground_process, block_foreground_process,
}

-- A process marked for deletion stays marked under `block_process`, `unblock_process`,
-- `unblock_read_process`, `unblock_foreground_process` and `kill_process` of any process.
pub delete_is_final :
    (h : Heap) (p q : ℕ)
    → q ≢ null
    → is_delete_process h q ≡ true
    → (is_delete_process (block_process h p) q ≡ true)
      × (is_delete_process (unblock_process h p) q ≡ true)
      × (is_delete_process (unblock_read_process h p) q ≡ true)
      × (is_delete_process (unblock_foreground_process h p) q ≡ true)
      × (is_delete_process (kill_process h p).1 q ≡ true)
unfolding is_delete_process block_process unblock_process unblock_read_process
    unblock_foreground_process kill_process
delete_is_final h p q n d = ground arith

-- `block_read_process` and `block_foreground_process` take the mark away: a kill that comes before
-- them is lost.
pub delete_is_lost :
    (h : Heap) (p : ℕ)
    → p ≢ null
    → (is_delete_process (block_read_process h p) p ≡ false)
      × (is_delete_process (block_foreground_process h p) p ≡ false)
unfolding is_delete_process block_read_process block_foreground_process
delete_is_lost h p n = ground arith

-- A process that is not marked for deletion is blocked after `block_process` and is not after
-- `unblock_process`; one that is marked is left as it is.
pub block_unblock :
    (h : Heap) (p : ℕ)
    → p ≢ null
    → let live = not (is_delete_process h p) in
      (is_blocked_process (block_process h p) p ≡ live)
      × (is_blocked_process (unblock_process h p) p ≡ false)
      × (is_blocked_process (unblock_process (block_process h p) p) p ≡ false)
unfolding is_delete_process block_process unblock_process is_blocked_process
block_unblock h p n = ground arith

-- No process but the one named changes under `block_process`, `unblock_process` and `kill_process`.
pub status_elsewhere :
    (h : Heap) (p q : ℕ)
    → p ≢ q
    → (block_process h p q ≡ h q) × (unblock_process h p q ≡ h q) × ((kill_process h p).1 q ≡ h q)
unfolding block_process unblock_process kill_process
status_elsewhere h p q n = ground arith

-- `kill_process` reports whether it was given a process, marks it for deletion unless its pid is 0
-- or 1, and leaves those two as they were.
pub kill_process_lem :
    (h : Heap) (p : ℕ)
    → p ≢ null
    → let (r, h') = kill_process h p in
      (r ≡ true)
      × (h' p
          ≡ (let x = h p in if (x.pid == 0) || (x.pid == 1) then x else record x { st = delete }))
unfolding kill_process
kill_process_lem h p n = ground arith

-- A process that is not marked for deletion is ready after `unblock_process`.
pub unblock_process-ready :
    (h : Heap) (p : ℕ)
    → p ≢ null
    → is_delete_process h p ≡ false
    → (unblock_process h p p).st ≡ ready
unfolding unblock_process is_delete_process
unblock_process-ready h p n l = ground arith
