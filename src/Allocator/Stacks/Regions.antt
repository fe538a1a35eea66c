-- ===== src/Allocator/Stacks/Regions.antt =====
-- The process stacks of nanOS/Kernel/memoryAllocator.c: their regions, and who gets which.

use native.Mathlib.Decide.{dec_lt}
use tpe_arqui.Prelude.{
  ℕ, zero, suc, ◌+◌, ◌-◌, ◌*◌, ◌≤◌, ◌<◌, ◌≡◌, refl, ◌∙◌, arith, List, [], ◌∷◌, length, get_or, set,
  drop, length-set, get_or-set_self, get_or-set_ne, drop-cons, drop-set, drop_all,
}
use tpe_arqui.Allocator.Locks.{Balanced}
use tpe_arqui.Allocator.Stacks.{
  StackPages, stack_page_size, stack_address, memory_pages_end, max_processes, fill_stack_pages,
  initialize_stack_memory_allocator, get_stack_page, store_stack_page,
}

-- The stack of slot `i` grows down from this address.
abbrev pub stack_top : ℕ → ℕ
stack_top i = (i + 1) * stack_page_size + stack_address

get_or-fill_stack_pages_below :
    (xs : List ℕ) (i k j : ℕ) → j < i → get_or (fill_stack_pages xs i k) j 0 ≡ get_or xs j 0
unfolding fill_stack_pages
get_or-fill_stack_pages_below xs i zero j h = refl
get_or-fill_stack_pages_below xs i (suc k) j h =
    get_or-fill_stack_pages_below (set xs i (stack_top i)) (i + 1) k j (omega arith)
    ∙ get_or-set_ne xs i j (stack_top i) 0 (omega arith)

get_or-fill_stack_pages :
    (xs : List ℕ) (i k j : ℕ)
    → i ≤ j
    → j < i + k
    → i + k ≤ length xs
    → get_or (fill_stack_pages xs i k) j 0 ≡ stack_top j
unfolding fill_stack_pages
get_or-fill_stack_pages xs i zero j l h n = absurd (omega arith)
get_or-fill_stack_pages xs i (suc k) j l h n = ground (
  arith,
  length-set xs i (stack_top i),
  get_or-set_self xs i (stack_top i) 0,
  get_or-fill_stack_pages_below (set xs i (stack_top i)) (i + 1) k j,
  get_or-fill_stack_pages (set xs i (stack_top i)) (i + 1) k j,
)

-- After the initialisation slot `i` holds the top of the `i`-th stack.
pub initialize_stack_memory_allocator_lem :
    (p : StackPages) (i : ℕ)
    → length p.stack_pages_stack ≡ max_processes
    → i < max_processes
    → get_or (initialize_stack_memory_allocator p).stack_pages_stack i 0 ≡ stack_top i
unfolding initialize_stack_memory_allocator
initialize_stack_memory_allocator_lem p i n h =
    get_or-fill_stack_pages p.stack_pages_stack 0 max_processes i (omega arith) (omega arith)
      (omega arith)

-- The stacks of two slots after the initialisation have no address in common, and each of them
-- lies above the end of the data pages.
pub stack_regions_apart :
    (p : StackPages) (i j : ℕ)
    → length p.stack_pages_stack ≡ max_processes
    → i < j
    → j < max_processes
    → let stacks = (initialize_stack_memory_allocator p).stack_pages_stack in
      (get_or stacks i 0 + stack_page_size ≤ get_or stacks j 0)
      × (memory_pages_end ≤ get_or stacks i 0 - stack_page_size)
stack_regions_apart p i j n h l = omega (
  arith,
  initialize_stack_memory_allocator_lem p i n (omega arith),
  initialize_stack_memory_allocator_lem p j n l,
)

pub record IsValid (p : StackPages) : Type 0 where
  pub sized : length p.stack_pages_stack ≡ max_processes
  pub index_in : p.current_stack_index ≤ max_processes

-- The free stacks, the next one to go first.
abbrev pub free : StackPages → List ℕ
free p = drop p.current_stack_index p.stack_pages_stack

-- What `get_stack_page` does to a valid allocator: it hands out the first free stack, or 0 if there is none.
abbrev pub Gets : StackPages → ℕ × StackPages → List ℕ → Type 0
Gets p (a, q) [] = (a ≡ 0) × (free q ≡ [])
Gets p (a, q) (x ∷ xs) = (a ≡ x) × (free q ≡ xs)

free-nil : (p : StackPages) → IsValid p → p.current_stack_index ≡ max_processes → free p ≡ []
free-nil p v e = drop_all p.stack_pages_stack p.current_stack_index (omega arith)

-- `get_stack_page` pops the stack of free stacks, or returns 0 when it is empty; it keeps the
-- invariant, and leaves the mutex unlocked on both paths.
pub get_stack_page_lem :
    (p : StackPages)
    → IsValid p
    → let (a, q) = get_stack_page p in
      Gets p (get_stack_page p) (free p) × IsValid q × Balanced p.lock_calls q.lock_calls
unfolding get_stack_page
get_stack_page_lem p v = elim (dec_lt p.current_stack_index max_processes) [
  | yes h ↦ rw (drop-cons p.stack_pages_stack p.current_stack_index 0 (omega arith)) (ground arith)
  | no h ↦ rw (free-nil p v (omega arith)) (ground (arith, free-nil p v))
]

-- `store_stack_page` after `get_stack_page` gives back the free stacks as they were.
pub store_stack_page-get_stack_page :
    (p : StackPages)
    → IsValid p
    → p.current_stack_index < max_processes
    → let (a, q) = get_stack_page p in free (store_stack_page q a).1 ≡ free p
unfolding get_stack_page store_stack_page
store_stack_page-get_stack_page p v h = ground (
  arith,
  drop-set p.stack_pages_stack p.current_stack_index
      (get_or p.stack_pages_stack p.current_stack_index 0),
  drop-cons p.stack_pages_stack p.current_stack_index 0,
)
