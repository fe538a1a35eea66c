-- ===== src/Process/Defs.antt =====
-- The data of nanOS/Kernel/process.c: `struct c_process`, its states, and the statics.
use tpe_arqui.Prelude.{ℕ, ◌-◌, ◌^◌, Bool, true, false, List, if◌then◌else◌, ◌==◌}
use tpe_arqui.Allocator.Locks.{LockCalls}

-- The states of nanOS/Kernel/include/process.h, 0 to 5.
pub data Status : Type 0 where
  running ready blocked blocked_read delete blocked_foreground : Status

abbrev pub is_delete : Status → Bool
is_delete delete = true
is_delete _ = false

-- BLOCKED, BLOCKED_READ and BLOCKED_FOREGROUND.
abbrev pub is_blocked : Status → Bool
is_blocked blocked = true
is_blocked blocked_read = true
is_blocked blocked_foreground = true
is_blocked _ = false

-- `open_fds` is a bit map: bit `fd` stands as the value at `fd`.
pub record Process : Type 0 where
  pub st : Status
  pub name : List ℕ
  pub entry_point : ℕ
  pub rsp : ℕ
  pub stack_page : ℕ
  pub n_data_page : ℕ
  pub data_page : List ℕ
  pub pid : ℕ
  pub ppid : ℕ
  pub open_fds : ℕ → Bool

-- The address of no process.
abbrev pub null : ℕ
null = 0

-- The structs by address, whatever stands at an address that holds none.
abbrev pub Heap : Type 0
Heap = ℕ → Process

abbrev pub put : Heap → ℕ → Process → Heap
put h p x a = if p == a then x else h a

-- `-1` as a `uint64_t`.
abbrev pub minus_one : ℕ
minus_one = 2 ^ 64 - 1

-- The statics: `process_table` holds addresses. `lock_calls` are the calls of `lock_table` and
-- `unlock_table`.
pub record Processes : Type 0 where
  pub heap : Heap
  pub process_table : List ℕ
  pub foreground : ℕ
  pub n_processes : ℕ
  pub lock_calls : LockCalls
