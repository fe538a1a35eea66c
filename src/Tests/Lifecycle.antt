-- ===== src/Tests/Lifecycle.antt =====
-- A second process, and the data pages of a process: nanOS/Kernel/process.c.
use tpe_arqui.Prelude.{
  tally, ℕ, ◌+◌, ◌-◌, ◌≡◌, ◌≢◌, refl, arith, [], replicate, if◌then◌else◌, ◌==◌, length,
}
use tpe_arqui.Allocator.Pages.{Pages, get_page}
use tpe_arqui.Allocator.Stacks.{blank_stack_pages}
use tpe_arqui.Process.Defs.{Process, ready}
use tpe_arqui.Process.Entries.{index_of, used}
use tpe_arqui.Process.DataPages.{add_data_page, remove_data_page, data_pages_process}
use tpe_arqui.Process.DataPages.Laws.{
  IsValid, add_data_page_lem, remove_data_page_lem, remove_data_page_null, data_pages_process_lem,
}
use tpe_arqui.Process.Table.{number_processes}
use tpe_arqui.Process.Lifecycle.{World, initial_frame, create_process}
use tpe_arqui.Process.Lifecycle.Laws.{Created, create_process-Created}
use tpe_arqui.Tests.Process.{process_with, one_process, one_process-IsValid}

abbrev two_pages : Process
two_pages = process_with ready 5

two_pages-IsValid : IsValid two_pages
two_pages-IsValid = record { sized = refl; counted = refl }

add_one_page :
    let q = add_data_page two_pages 0x505000 in
    IsValid q
    × ((a : ℕ)
        → a ≢ 0
        → tally a q.data_page ≡ tally a two_pages.data_page + (if 0x505000 == a then 1 else 0))
add_one_page = add_data_page_lem two_pages 0x505000 two_pages-IsValid (omega arith) (omega arith)

remove_one_page :
    let q = remove_data_page two_pages 0x504000 in
    IsValid q
    × ((a : ℕ)
        → a ≢ 0
        → tally a q.data_page ≡ tally a two_pages.data_page - (if 0x504000 == a then 1 else 0))
remove_one_page = remove_data_page_lem two_pages 0x504000 two_pages-IsValid (omega arith)

remove_null_page :
    let q = remove_data_page two_pages 0 in (q.n_data_page ≡ 1) × (used q.data_page ≡ 2)
remove_null_page = remove_data_page_null two_pages two_pages-IsValid (omega arith)

data_pages_run :
    let pages = data_pages_process two_pages in
    ((a : ℕ) → a ≢ 0 → tally a pages ≡ tally a two_pages.data_page)
    × (length pages ≡ 3)
    × (used pages ≡ 2)
data_pages_run = data_pages_process_lem two_pages two_pages-IsValid

abbrev pages : Pages
pages = record { pages_stack = replicate 255 2; current_index = 1; lock_calls = [] }

abbrev world : World
world = record {
  procs = one_process;
  pages = pages;
  stacks = blank_stack_pages;
  frames = λ _. initial_frame 0 0 0;
}

create_process-Created_example :
    let (p, w) = create_process world 0x501000 0x400000 7 [] in
    (p ≡ (get_page pages).0) × Created world 0x501000 0x400000 7 [] 1 p w
unfolding index_of number_processes get_page
create_process-Created_example =
    create_process-Created world 0x501000 0x400000 7 [] (omega arith) one_process-IsValid
      (omega arith) (omega arith) refl (omega arith)
