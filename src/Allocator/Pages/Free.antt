-- ===== src/Allocator/Pages/Free.antt =====
-- The data pages of nanOS/Kernel/memoryAllocator.c that are free, as a stack.
use tpe_arqui.Prelude.{
  ℕ, ◌+◌, ◌-◌, ◌≤◌, ◌<◌, ◌≡◌, ◌≢◌, arith, List, ◌∷◌, length, get_or, drop, length-set, drop-cons,
  drop-set,
}
use tpe_arqui.Allocator.Locks.{Balanced, locks}
use tpe_arqui.Allocator.Pages.{Pages, stack_size, page_address, page_index, get_page, store_page}

pub record IsValid (p : Pages) : Type 0 where
  pub sized : length p.pages_stack ≡ stack_size
  pub index_in : p.current_index ≤ stack_size

-- The indices of the free pages, the next one to go first.
abbrev pub free : Pages → List ℕ
free p = drop p.current_index p.pages_stack

-- An index survives the round through its address.
pub page_index-page_address : (i : ℕ) → i < 256 → page_index (page_address i) ≡ i
page_index-page_address i h = omega arith

-- While a page is free, `get_page` hands out the top of the stack of free pages, keeps the
-- invariant and leaves the mutex unlocked.
pub get_page_lem :
    (p : Pages)
    → IsValid p
    → p.current_index < stack_size
    → let (a, q) = get_page p in
      (i : ℕ) × (a ≡ page_address i)
      × (free p ≡ i ∷ free q)
      × IsValid q
      × (q.current_index ≡ p.current_index + 1)
      × Balanced p.lock_calls q.lock_calls
unfolding get_page
get_page_lem p v h = (
  get_or p.pages_stack p.current_index 0,
  ground arith,
  ground (arith, drop-cons p.pages_stack p.current_index 0),
  ground arith,
  ground arith,
  ground arith,
)

-- With no page left `get_page` returns 0 and changes no page, but it has called `mutex_lock` twice
-- and never `mutex_unlock`.
pub get_page_exhausted :
    (p : Pages)
    → p.current_index ≡ stack_size
    → get_page p ≡ (0, record p { lock_calls = locks ∷ locks ∷ p.lock_calls })
unfolding get_page
get_page_exhausted p h = ground arith

-- While a page is out, `store_page` of the address of a page puts that page on top of the free ones, returns 1,
-- keeps the invariant and leaves the mutex unlocked.
pub store_page_lem :
    (p : Pages) (i : ℕ)
    → IsValid p
    → 0 < p.current_index
    → i < 256
    → let (n, q) = store_page p (page_address i) in
      (n ≡ 1)
      × (free q ≡ i ∷ free p)
      × IsValid q
      × (q.current_index + 1 ≡ p.current_index)
      × Balanced p.lock_calls q.lock_calls
unfolding store_page
store_page_lem p i v h k = ground (
  arith,
  page_index-page_address i k,
  length-set p.pages_stack (p.current_index - 1) i,
  drop-set p.pages_stack (p.current_index - 1) i,
)

-- No page has the address 0.
pub get_page-ne_zero : (p : Pages) → p.current_index < stack_size → (get_page p).0 ≢ 0
unfolding get_page
get_page-ne_zero p h = ground arith
