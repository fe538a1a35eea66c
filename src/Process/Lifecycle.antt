-- ===== src/Process/Lifecycle.antt =====
-- How a process comes and goes: `create_process`, `destroy_process` and `fill_stack` of
-- nanOS/Kernel/process.c, with the allocators that they call.
pub mod Laws
pub mod Destroy
use tpe_arqui.Prelude.{
  ℕ, zero, suc, ◌+◌, ◌-◌, ◌*◌, ◌^◌, ◌%◌, ltb, if◌then◌else◌, ◌==◌, Bool, true, false, not, ◌&&◌,
  List, [], ◌∷◌, ◌++◌, get_or, set, ℤ, pos, negsuc, length,
}
use tpe_arqui.Allocator.Pages.{Pages, get_page, store_page}
use tpe_arqui.Allocator.Stacks.{StackPages, get_stack_page, store_stack_page}
use tpe_arqui.Process.Defs.{Process, Processes, Heap, ready, put, null}
use tpe_arqui.Process.DataPages.{clean_data_page, pages_met}
use tpe_arqui.Process.Foreground.{set_foreground_process}
use tpe_arqui.Process.Status.{pid_process}
use tpe_arqui.Process.Table.{insert_process, lock_table, unlock_table}

-- The registers that the first switch to a process restores, `StackFrame`.
pub record StackFrame : Type 0 where
  pub gs : ℕ
  pub fs : ℕ
  pub r15 : ℕ
  pub r14 : ℕ
  pub r13 : ℕ
  pub r12 : ℕ
  pub r11 : ℕ
  pub r10 : ℕ
  pub r9 : ℕ
  pub r8 : ℕ
  pub rsi : ℕ
  pub rdi : ℕ
  pub rbp : ℕ
  pub rdx : ℕ
  pub rcx : ℕ
  pub rbx : ℕ
  pub rax : ℕ
  pub rip : ℕ
  pub cs : ℕ
  pub eflags : ℕ
  pub rsp : ℕ
  pub ss : ℕ
  pub base : ℕ

-- 23 registers of eight bytes; `base` is the last of them.
abbrev pub frame_size : ℕ
frame_size = 23 * 8

abbrev pub base_offset : ℕ
base_offset = 22 * 8

-- The kernel memory that these functions change. `frames` are the stack frames by address.
pub record World : Type 0 where
  pub procs : Processes
  pub pages : Pages
  pub stacks : StackPages
  pub frames : ℕ → StackFrame

-- `(StackFrame *) stack_page - 1`, on `uint64_t` addresses.
abbrev pub frame_address : ℕ → ℕ
frame_address stack_page = (stack_page + 2 ^ 64 - frame_size) % 2 ^ 64

unfoldable pub initial_frame : ℕ → ℕ → ℕ → StackFrame
initial_frame rip frame params = record {
  gs = 0x001;
  fs = 0x002;
  r15 = 0x003;
  r14 = 0x004;
  r13 = 0x005;
  r12 = 0x006;
  r11 = 0x007;
  r10 = 0x008;
  r9 = 0x009;
  r8 = 0x00A;
  rsi = 0x00B;
  rdi = params;
  rbp = 0x00D;
  rdx = 0x00E;
  rcx = 0x00F;
  rbx = 0x010;
  rax = 0x011;
  rip = rip;
  cs = 0x008;
  eflags = 0x202;
  rsp = (frame + base_offset) % 2 ^ 64;
  ss = 0x000;
  base = 0x000;
}

-- The result is the address of `gs`, the first register.
unfoldable pub fill_stack : (ℕ → StackFrame) → ℕ → ℕ → ℕ → ℕ × (ℕ → StackFrame)
unfolding initial_frame
fill_stack frames rip stack_page params =
    let frame = frame_address stack_page in
    (frame, λ a. if frame == a then initial_frame rip frame params else frames a)

abbrev pub set_procs : World → Processes → World
set_procs w s = record w { procs = s }

abbrev pub edit : World → ℕ → (Process → Process) → World
edit w p f = set_procs w (let s = w.procs in record s { heap = put s.heap p (f (s.heap p)) })

-- MAX_PROCESS_NAME, the bytes of `name` in `struct process`.
abbrev pub max_process_name : ℕ
max_process_name = 64

-- `create_process` up to the call of `insert_process`: the new address, and the state. The name has
-- fewer than `max_process_name` characters: `strcpy` does not look, and a longer one leaves its array.
unfoldable pub build_process : World → ℕ → ℕ → List ℕ → ℕ × World
unfolding fill_stack clean_data_page
build_process w rip params name =
    let (new, pages) = get_page w.pages in
    let (stack, stacks) = get_stack_page w.stacks in
    let (rsp, frames) = fill_stack w.frames rip stack params in
    let init = λ (x : Process).
      clean_data_page
        (record x { name = name; stack_page = stack; entry_point = rip; st = ready; rsp = rsp }) in
    (new, edit (record w { pages = pages; stacks = stacks; frames = frames }) new init)

-- The end of it, once the process is in the table: its parent, or the foreground.
unfoldable pub finish_process : World → ℕ → ℕ → World
finish_process w new current =
    let s = w.procs in
    let parented =
      if (s.heap new).pid == 0
      then set_procs w (record s { foreground = new })
      else edit w new (λ x. record x { ppid = pid_process s.heap current }) in
    edit parented new (λ x. record x { open_fds = λ _. false })

-- `current` is what `get_current_process()` returns.
unfoldable pub create_process : World → ℕ → ℕ → ℕ → List ℕ → ℕ × World
create_process w current rip params name =
    let (new, built) = build_process w rip params name in
    let (_, inserted) = insert_process built.procs new in
    (new, finish_process (set_procs built inserted) new current)

unfoldable pub store_all : Pages → List ℕ → Pages
store_all p [] = p
store_all p (a ∷ as_) = store_all (store_page p a).1 as_

-- Only the entries that are not NULL are stored, until `n_data_page` is used up; the entries stay.
unfoldable pub free_data_pages : World → ℕ → World
free_data_pages w p =
    let x = w.procs.heap p in
    let met = pages_met x.data_page x.n_data_page in
    edit (record w { pages = store_all w.pages met }) p
      (λ y. record y { n_data_page = y.n_data_page - length met })

-- The table entry of the parent is read at `ppid`, which is below `MAX_PROCESSES` where it is set.
unfoldable pub destroy_process : World → ℕ → ℕ → World
unfolding free_data_pages lock_table unlock_table
destroy_process w current p =
    if p == null
    then w
    else let s = lock_table w.procs in
      let counted = record s { n_processes = (s.n_processes + 2 ^ 64 - 1) % 2 ^ 64 } in
      let freed = free_data_pages (set_procs w counted) p in
      let t = freed.procs in
      let x = t.heap p in
      let given =
        if t.foreground == p
        then set_foreground_process t current (get_or t.process_table x.ppid null)
        else t in
      let cleared = record given { process_table = set given.process_table x.pid null } in
      record freed {
        procs = unlock_table cleared;
        stacks = (store_stack_page freed.stacks x.stack_page).1;
        pages = (store_page freed.pages p).1;
      }
