-- ===== src/Process/Status.antt =====
-- The state of a process and its registers: `block_process`, `unblock_process`, `kill_process` and
-- the like of nanOS/Kernel/process.c. Each takes the address of a process, `null` included.
pub mod Laws
use tpe_arqui.Prelude.{ℕ, ◌+◌, ◌≡◌, Bool, true, false, not, ◌&&◌, ◌||◌, if◌then◌else◌, ◌==◌}
use tpe_arqui.Process.Defs.{
  Status, ready, blocked, blocked_read, delete, blocked_foreground, is_delete, is_blocked, Process,
  Heap, put, null, minus_one,
}

unfoldable pub set_st : Heap → ℕ → Status → Heap
set_st h p s = put h p (let x = h p in record x { st = s })

unfoldable pub is_delete_process : Heap → ℕ → Bool
is_delete_process h p = if p == null then false else is_delete (h p).st

unfoldable pub kill_process : Heap → ℕ → Bool × Heap
unfolding set_st
kill_process h p = (
  not (p == null),
  (if not (p == null) && (not ((h p).pid == 1) && not ((h p).pid == 0))
      then set_st h p delete
      else h),
)

unfoldable pub block_process : Heap → ℕ → Heap
unfolding set_st
block_process h p = if not (p == null) && not (is_delete (h p).st) then set_st h p blocked else h

unfoldable pub unblock_process : Heap → ℕ → Heap
unfolding set_st
unblock_process h p = if not (p == null) && not (is_delete (h p).st) then set_st h p ready else h

unfoldable pub is_blocked_process : Heap → ℕ → Bool
is_blocked_process h p = if p == null then true else is_blocked (h p).st

abbrev pub is_blocked_read : Status → Bool
is_blocked_read blocked_read = true
is_blocked_read _ = false

-- Without a test of `p` against NULL, as in the source.
unfoldable pub unblock_read_process : Heap → ℕ → Heap
unfolding unblock_process
unblock_read_process h p = if is_blocked_read (h p).st then unblock_process h p else h

-- It overwrites DELETE too.
unfoldable pub block_read_process : Heap → ℕ → Heap
unfolding set_st
block_read_process h p = set_st h p blocked_read

unfoldable pub block_foreground_process : Heap → ℕ → Heap
unfolding set_st
block_foreground_process h p = if p == null then h else set_st h p blocked_foreground

abbrev pub is_blocked_foreground : Status → Bool
is_blocked_foreground blocked_foreground = true
is_blocked_foreground _ = false

unfoldable pub unblock_foreground_process : Heap → ℕ → Heap
unfolding set_st
unblock_foreground_process h p =
    if not (p == null) && is_blocked_foreground (h p).st then set_st h p ready else h

unfoldable pub set_rsp_process : Heap → ℕ → ℕ → Heap
set_rsp_process h p rsp = if p == null then h else put h p (let x = h p in record x { rsp = rsp })

unfoldable pub get_rsp_process : Heap → ℕ → ℕ
get_rsp_process h p = if p == null then minus_one else (h p).rsp

unfoldable pub pid_process : Heap → ℕ → ℕ
pid_process h p = if p == null then minus_one else (h p).pid

unfoldable pub ppid_process : Heap → ℕ → ℕ
ppid_process h p = if p == null then minus_one else (h p).ppid

-- The argument is never NULL in the source's calls.
unfoldable pub stack_page_process : Heap → ℕ → ℕ
stack_page_process h p = (h p).stack_page
