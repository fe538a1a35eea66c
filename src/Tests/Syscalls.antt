-- ===== src/Tests/Syscalls.antt =====
-- The system calls of nanOS/Kernel/systemCalls.c, and the end of a process.
use tpe_arqui.Prelude.{◌≡◌, refl, arith, [], ◌∷◌, replicate, pos, negsuc, some}
use tpe_arqui.Allocator.Pages.{Pages, page_address}
use tpe_arqui.Allocator.Pages.Free
use tpe_arqui.Allocator.Stacks.{blank_stack_pages}
use tpe_arqui.Process.DataPages.{pages_met}
use tpe_arqui.Process.Lifecycle.{World, initial_frame, destroy_process}
use tpe_arqui.Process.Lifecycle.Destroy.{Destroyed, destroy_process-Destroyed}
use tpe_arqui.Syscalls.{Request, fifo_to_fds}
use tpe_arqui.Syscalls.Stubs.{calls_int80h}
use tpe_arqui.Syscalls.Laws.{asks, calls_int80h-asks}
use tpe_arqui.Syscalls.Memory.{sys_malloc, sys_free, Returned, sys_free-sys_malloc, sys_free_twice}
use tpe_arqui.Tests.Process.{one_process, one_process-IsValid}

-- A condition variable and a mutex whose key is -1.
calls_int80h-asks_example :
    calls_int80h (asks (Request.waits_cond (pos 3) (negsuc 0)))
    ≡ some (Request.waits_cond (pos 3) (negsuc 0))
calls_int80h-asks_example =
    calls_int80h-asks (Request.waits_cond (pos 3) (negsuc 0)) (omega arith, omega arith)

-- The error -2 of `fifo_open` becomes the number of the standard input.
failed_pipe : fifo_to_fds (negsuc 1) ≡ 1
unfolding fifo_to_fds
failed_pipe = refl

-- Five pages are free.
abbrev pages : Pages
pages = record { pages_stack = replicate 255 2; current_index = 250; lock_calls = [] }

pages-IsValid : Free.IsValid pages
pages-IsValid = record { sized = refl; index_in = omega arith }

abbrev world : World
world = record {
  procs = one_process;
  pages = pages;
  stacks = blank_stack_pages;
  frames = λ _. initial_frame 0 0 0;
}

-- The process holds two pages, 3 and 4; its struct stands in page 1.
destroy_process-Destroyed_example :
    Destroyed world 0x501000 0 1 (3 ∷ 4 ∷ []) (destroy_process world 0x501000 0x501000)
unfolding pages_met
destroy_process-Destroyed_example =
    destroy_process-Destroyed world 0x501000 0x501000 0 1 (3 ∷ 4 ∷ []) one_process-IsValid
      pages-IsValid refl (omega arith, (omega arith, (omega arith, tt))) refl refl (omega arith)

sys_free-sys_malloc_example :
    let (a, u) = sys_malloc world 0x501000 in
    let (r, v) = sys_free u 0x501000 a in Returned world 0x501000 a u r v
sys_free-sys_malloc_example =
    sys_free-sys_malloc world 0x501000 pages-IsValid (omega arith)
      (omega arith, (omega arith, (omega arith, (omega arith, (omega arith, tt)))))
      (record { sized = refl; counted = refl }) (omega arith)

-- Page 7 is given to two processes.
freed_twice :
    let freed =
      (sys_free (sys_free world 0x501000 (page_address 7)).1 0x502000 (page_address 7)).1 in
    let (first, u) = sys_malloc freed 0x501000 in
    let (second, _) = sys_malloc u 0x502000 in (first ≡ page_address 7) × (second ≡ page_address 7)
freed_twice =
    sys_free_twice world 0x501000 0x502000 0x501000 0x502000 7 pages-IsValid (omega arith)
      (omega arith)
