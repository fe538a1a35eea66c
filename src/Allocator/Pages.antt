-- ===== src/Allocator/Pages.antt =====
-- The allocator of data pages: `get_page` and `store_page` of nanOS/Kernel/memoryAllocator.c.
pub mod Free
pub mod Init
pub mod Owners
use tpe_arqui.Prelude.{
  ℕ, zero, suc, ◌+◌, ◌-◌, ◌*◌, ◌/◌, ◌%◌, ◌^◌, ltb, if◌then◌else◌, List, ◌∷◌, get_or, set, replicate,
}
use tpe_arqui.Allocator.Locks.{LockCalls, locks, unlocks}

abbrev pub page_size : ℕ
page_size = 0x1000

abbrev pub data_address : ℕ
data_address = 0x500000

-- `(page_index_t) - 1`, the largest `uint8_t`.
abbrev pub stack_size : ℕ
stack_size = 255

-- `pages_stack` holds `uint8_t`s. `lock_calls` are the calls on `memory_mutex_key`.
pub record Pages : Type 0 where
  pub pages_stack : List ℕ
  pub current_index : ℕ
  pub lock_calls : LockCalls

-- The statics before any code runs.
abbrev pub blank_pages : Pages
blank_pages = record {
  pages_stack = replicate stack_size 0;
  current_index = 0;
  lock_calls = List.[];
}

-- `pages_stack[i] = i+1`, from `i` on, with `k` rounds left.
unfoldable pub fill_indices : List ℕ → ℕ → ℕ → List ℕ
fill_indices stack i zero = stack
fill_indices stack i (suc k) = fill_indices (set stack i (i + 1)) (i + 1) k

unfoldable pub initialize_memory_allocator : Pages → Pages
unfolding fill_indices
initialize_memory_allocator p = record p {
  pages_stack = fill_indices p.pages_stack 0 (stack_size - 1);
}

abbrev pub page_address : ℕ → ℕ
page_address index = index * page_size + data_address

-- `(address - DATA_ADDRESS) / PAGE_SIZE` on `uint64_t`, stored in a `uint8_t`.
abbrev pub page_index : ℕ → ℕ
page_index address = ((address + 2 ^ 64 - data_address) % 2 ^ 64 / page_size) % 256

-- The argument `size` is ignored. `lock_calls` gets what the two branches call. With no page left
-- the mutex that is held is locked once more, so that the call never comes back and nobody gets the
-- 0: what follows the call is modelled where a page is free.
unfoldable pub get_page : Pages → ℕ × Pages
get_page p =
    if ltb p.current_index stack_size
    then (
      page_address (get_or p.pages_stack p.current_index 0),
      record p { current_index = p.current_index + 1; lock_calls = unlocks ∷ locks ∷ p.lock_calls },
    )
    else (0, record p { lock_calls = locks ∷ locks ∷ p.lock_calls })

unfoldable pub store_page : Pages → ℕ → ℕ × Pages
store_page p address =
    if ltb 0 p.current_index
    then (
      1,
      record p {
        pages_stack = set p.pages_stack (p.current_index - 1) (page_index address);
        current_index = p.current_index - 1;
        lock_calls = unlocks ∷ locks ∷ p.lock_calls;
      },
    )
    else (0, record p { lock_calls = unlocks ∷ locks ∷ p.lock_calls })
