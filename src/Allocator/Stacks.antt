-- ===== src/Allocator/Stacks.antt =====
-- The allocator of process stacks: `get_stack_page` and `store_stack_page` of
-- nanOS/Kernel/memoryAllocator.c.
pub mod Regions
use tpe_arqui.Prelude.{
  ℕ, zero, suc, ◌+◌, ◌-◌, ◌*◌, ltb, if◌then◌else◌, List, ◌∷◌, get_or, set, replicate,
}
use tpe_arqui.Allocator.Locks.{LockCalls, locks, unlocks}
use tpe_arqui.Allocator.Pages.{page_size, data_address, stack_size}

abbrev pub stack_page_size : ℕ
stack_page_size = 0x100000

-- `MEMORY_PAGES_END`
abbrev pub memory_pages_end : ℕ
memory_pages_end = (stack_size + 1) * page_size + data_address

-- `STACK_ADDRESS`
abbrev pub stack_address : ℕ
stack_address = memory_pages_end + page_size

-- `MAX_PROCESSES`
abbrev pub max_processes : ℕ
max_processes = 128

-- `lock_calls` are the calls on `stack_memory_mutex_key`.
pub record StackPages : Type 0 where
  pub stack_pages_stack : List ℕ
  pub current_stack_index : ℕ
  pub lock_calls : LockCalls

abbrev pub blank_stack_pages : StackPages
blank_stack_pages = record {
  stack_pages_stack = replicate max_processes 0;
  current_stack_index = 0;
  lock_calls = List.[];
}

-- `stack_pages_stack[i] = (i+1) * STACK_PAGE_SIZE + STACK_ADDRESS`, from `i` on, `k` times.
unfoldable pub fill_stack_pages : List ℕ → ℕ → ℕ → List ℕ
fill_stack_pages stack i zero = stack
fill_stack_pages stack i (suc k) =
    fill_stack_pages (set stack i ((i + 1) * stack_page_size + stack_address)) (i + 1) k

unfoldable pub initialize_stack_memory_allocator : StackPages → StackPages
unfolding fill_stack_pages
initialize_stack_memory_allocator p = record p {
  stack_pages_stack = fill_stack_pages p.stack_pages_stack 0 max_processes;
}

unfoldable pub get_stack_page : StackPages → ℕ × StackPages
get_stack_page p =
    if ltb p.current_stack_index max_processes
    then (
      get_or p.stack_pages_stack p.current_stack_index 0,
      record p {
        current_stack_index = p.current_stack_index + 1;
        lock_calls = unlocks ∷ locks ∷ p.lock_calls;
      },
    )
    else (0, record p { lock_calls = unlocks ∷ locks ∷ p.lock_calls })

unfoldable pub store_stack_page : StackPages → ℕ → ℕ × StackPages
store_stack_page p address =
    if ltb 0 p.current_stack_index
    then (
      1,
      record p {
        stack_pages_stack = set p.stack_pages_stack (p.current_stack_index - 1) address;
        current_stack_index = p.current_stack_index - 1;
        lock_calls = unlocks ∷ locks ∷ p.lock_calls;
      },
    )
    else (0, record p { lock_calls = unlocks ∷ locks ∷ p.lock_calls })
