-- ===== src/Tests/Allocator.antt =====
-- The page allocators of nanOS/Kernel/memoryAllocator.c.
use tpe_arqui.Prelude.{◌+◌, ◌-◌, ◌≤◌, ◌≡◌, refl, arith, [], ◌∷◌, ◌++◌, get_or, replicate}
use tpe_arqui.Allocator.Locks.{locks}
use tpe_arqui.Allocator.Pages.{
  Pages, blank_pages, get_page, store_page, page_address, initialize_memory_allocator,
}
use tpe_arqui.Allocator.Pages.Free.{IsValid, free, get_page_exhausted}
use tpe_arqui.Allocator.Pages.Init.{count_up, initialize_memory_allocator_lem}
use tpe_arqui.Allocator.Pages.Owners.{Reach, Step, Accounted, Reach-Accounted}
use tpe_arqui.Allocator.Stacks.{
  blank_stack_pages, initialize_stack_memory_allocator, stack_page_size, memory_pages_end,
}
use tpe_arqui.Allocator.Stacks.Regions.{stack_regions_apart}

initialized_blank :
    let q = initialize_memory_allocator blank_pages in
    IsValid q × (free q ≡ count_up 1 254 ++ 0 ∷ [])
initialized_blank = initialize_memory_allocator_lem blank_pages refl refl

-- All pages are out.
abbrev spent : Pages
spent = record { pages_stack = replicate 255 0; current_index = 255; lock_calls = [] }

get_page_none_left : get_page spent ≡ (0, record spent { lock_calls = locks ∷ locks ∷ [] })
get_page_none_left = get_page_exhausted spent refl

abbrev begun : Pages
begun = initialize_memory_allocator blank_pages

-- One page is out, and then none again.
abbrev one_out : Pages
one_out = (get_page begun).1

one_out-Reach : Reach one_out (1 ∷ [])
unfolding get_page initialize_memory_allocator
one_out-Reach = Reach.next (Reach.start begun refl) (Step.gets 1 (omega arith) refl refl refl)

Reach-Accounted_example : Accounted (store_page one_out (page_address 1)).1 []
Reach-Accounted_example =
    Reach-Accounted (Reach.next one_out-Reach (Step.stores [] [] 1 refl refl refl))

regions_apart :
    let stacks = (initialize_stack_memory_allocator blank_stack_pages).stack_pages_stack in
    (get_or stacks 3 0 + stack_page_size ≤ get_or stacks 4 0)
    × (memory_pages_end ≤ get_or stacks 3 0 - stack_page_size)
regions_apart = stack_regions_apart blank_stack_pages 3 4 refl (omega arith) (omega arith)
