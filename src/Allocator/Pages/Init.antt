-- ===== src/Allocator/Pages/Init.antt =====
-- `initialize_memory_allocator` of nanOS/Kernel/memoryAllocator.c: which pages there are.

use tpe_arqui.Prelude.{
  ℕ, zero, suc, ◌+◌, ◌≤◌, ◌<◌, ◌≡◌, refl, ap, ap₂, ◌∙◌, arith, List, [], ◌∷◌, ◌++◌, length, get_or,
  set, drop, length-set, get_or-set_self, get_or-set_ne, drop-cons, drop-set_below,
}
use tpe_arqui.Allocator.Pages.{Pages, fill_indices, initialize_memory_allocator, blank_pages}
use tpe_arqui.Allocator.Pages.Free.{IsValid, free}

-- `i`, `i + 1`, …: `k` of them.
abbrev pub count_up : ℕ → ℕ → List ℕ
count_up i zero = []
count_up i (suc k) = i ∷ count_up (i + 1) k

length-fill_indices : (xs : List ℕ) (i k : ℕ) → length (fill_indices xs i k) ≡ length xs
unfolding fill_indices
length-fill_indices xs i zero = refl
length-fill_indices xs i (suc k) =
    length-fill_indices (set xs i (i + 1)) (i + 1) k ∙ length-set xs i (i + 1)

get_or-fill_indices :
    (xs : List ℕ) (i k j : ℕ) → j < i → get_or (fill_indices xs i k) j 0 ≡ get_or xs j 0
unfolding fill_indices
get_or-fill_indices xs i zero j h = refl
get_or-fill_indices xs i (suc k) j h =
    get_or-fill_indices (set xs i (i + 1)) (i + 1) k j (omega arith)
    ∙ get_or-set_ne xs i j (i + 1) 0 (omega arith)

drop-fill_indices :
    (xs : List ℕ) (i k : ℕ)
    → i + k ≤ length xs
    → drop i (fill_indices xs i k) ≡ count_up (i + 1) k ++ drop (i + k) xs
unfolding fill_indices
drop-fill_indices xs i zero h = ap (λ j. drop j xs) (omega arith)
drop-fill_indices xs i (suc k) h =
    drop-cons (fill_indices ys (i + 1) k) i 0
      (omega (arith, length-fill_indices ys (i + 1) k, length-set xs i (i + 1)))
    ∙ ap₂ ◌∷◌
        (get_or-fill_indices ys (i + 1) k i (omega arith)
          ∙ get_or-set_self xs i (i + 1) 0 (omega arith))
        (drop-fill_indices ys (i + 1) k (omega (arith, length-set xs i (i + 1)))
          ∙ ap (λ r. count_up (i + 1 + 1) k ++ r)
              (drop-set_below xs i (i + 1 + k) (i + 1) (omega arith)
                ∙ ap (λ j. drop j xs) (omega arith)))
  where
    ys : List ℕ
    ys = set xs i (i + 1)

-- From the statics the initialisation makes a valid allocator whose free pages are, in the order
-- in which they go out, the pages 1 to 254 and then page 0, the start of the data module.
pub initialize_memory_allocator_lem :
    (p : Pages)
    → p.pages_stack ≡ blank_pages.pages_stack
    → p.current_index ≡ 0
    → let q = initialize_memory_allocator p in IsValid q × (free q ≡ count_up 1 254 ++ 0 ∷ [])
unfolding initialize_memory_allocator
initialize_memory_allocator_lem p blank fresh = (
  record {
    sized = length-fill_indices p.pages_stack 0 254 ∙ ap length blank;
    index_in = omega arith;
  },
  ap (λ i. drop i (fill_indices p.pages_stack 0 254)) fresh
      ∙ drop-fill_indices p.pages_stack 0 254 (omega (arith, ap length blank))
      ∙ ap (λ xs. count_up 1 254 ++ drop 254 xs) blank,
)
