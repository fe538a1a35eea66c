-- ===== src/Syscalls.antt =====
-- System calls, from the programs to the kernel: nanOS/Userland/SampleCodeModule/int80h.asm, the
-- handler `_syscallHandler` of nanOS/Kernel/asm/interrupts.asm, and the table and the wrappers of
-- nanOS/Kernel/systemCalls.c. A `Request` is the call that the kernel then makes.
pub mod Stubs
pub mod Laws
pub mod Memory
pub mod Screen
pub mod Keys
use tpe_arqui.Prelude.{
  ℕ, ◌+◌, ◌-◌, ◌/◌, ◌%◌, ◌^◌, ltb, leb, ◌==◌, if◌then◌else◌, ℤ, pos, negsuc, Option, none, some,
  List, [], ◌∷◌, get_elem?,
}
use tpe_arqui.Allocator.Pages.{data_address}

-- The arguments of the call have the types that the called function has.
pub data Request : Type 0 where
  returns : ℕ → Request
  reads_keys : ℕ → ℕ → Request
  reads_fifo : ℤ → ℕ → ℤ → Request
  puts puts_error : ℕ → ℤ → Request
  writes_fifo : ℤ → ℕ → ℤ → Request
  seconds minutes hours : Request
  fills : ℕ → ℕ → ℕ → ℤ → ℤ → Request
  sleeps : ℕ → Request
  scr_x_res scr_y_res text_rows text_cols : Request
  mallocs frees : ℕ → Request
  sets_char_color sets_bg_color : ℕ → ℕ → ℕ → Request
  executes : ℕ → ℕ → ℕ → Request
  ends yields : Request
  opens_mutex : ℕ → Request
  closes_mutex locks_mutex unlocks_mutex : ℤ → Request
  sets_foreground : ℕ → Request
  opens_fifo : ℕ → Request
  closes_fifo : ℤ → Request
  kills : ℕ → Request
  tells_pid tells_ppid : Request
  tells_process : ℕ → ℕ → Request
  opens_cond : ℕ → Request
  waits_cond : ℤ → ℤ → Request
  signals_cond broadcasts_cond closes_cond : ℤ → Request
  lists_pids lists_conds lists_mutexes lists_fifos : ℕ → Request

abbrev pub file_descriptors : ℕ
file_descriptors = 3

-- The conversion of a `uint64_t` to `int`, and of an `int` to `uint64_t`.
abbrev pub to_int : ℕ → ℤ
to_int u = let r = u % 2 ^ 32 in if ltb r (2 ^ 31) then pos r else negsuc (2 ^ 32 - 1 - r)

abbrev pub of_int : ℤ → ℕ
of_int (pos n) = n
of_int (negsuc n) = 2 ^ 64 - 1 - n

-- The result is an `unsigned int`.
unfoldable pub fifo_to_fds : ℤ → ℕ
fifo_to_fds key = (of_int key + file_descriptors) % 2 ^ 32

unfoldable pub fds_to_fifo : ℕ → ℤ
fds_to_fifo fds = to_int (fds % 2 ^ 32 + 2 ^ 32 - file_descriptors)

unfoldable pub sys_read : ℕ → ℕ → ℕ → Request
unfolding fds_to_fifo
sys_read fds buffer bytes =
    if fds == 1
    then reads_keys buffer bytes
    else if leb file_descriptors fds
    then reads_fifo (fds_to_fifo fds) buffer (to_int bytes)
    else returns 0

-- `none` where the result `n` is not initialized.
unfoldable pub sys_write : ℕ → ℕ → ℕ → Option Request
unfolding fds_to_fifo
sys_write fds str length =
    if fds == 2
    then some (puts_error str (to_int length))
    else if fds == 0
    then some (puts str (to_int length))
    else if leb file_descriptors fds
    then some (writes_fifo (fds_to_fifo fds) str (to_int length))
    else none

-- The -1 of an unknown selection.
abbrev minus_1 : Request
minus_1 = returns (2 ^ 64 - 1)

unfoldable pub sys_time : ℕ → Request
sys_time selection =
    if selection == 0
    then seconds
    else if selection == 1
    then minutes
    else if selection == 2
    then hours
    else minus_1

unfoldable pub sys_paint : ℕ → ℕ → ℕ → Request
sys_paint color x y =
    fills (color / 2 ^ 16 % 256) (color / 2 ^ 8 % 256) (color % 256) (to_int x) (to_int y)

unfoldable pub sys_screen_res : ℕ → Request
sys_screen_res selection =
    if selection == 0 then scr_x_res else if selection == 1 then scr_y_res else minus_1

unfoldable pub sys_text_space : ℕ → Request
sys_text_space selection =
    if selection == 0 then text_rows else if selection == 1 then text_cols else minus_1

-- The table of the functions with three arguments, from number 3 on.
unfoldable pub syscalls : List (ℕ → ℕ → ℕ → Option Request)
unfolding sys_read sys_write sys_time sys_paint sys_screen_res sys_text_space fds_to_fifo
syscalls =
    (λ a b c. some (sys_read a b c))
    ∷ sys_write
    ∷ (λ a b c. some (sys_time a))
    ∷ (λ a b c. some (sys_paint a b c))
    ∷ (λ a b c. some (sleeps a))
    ∷ (λ a b c. some (sys_screen_res a))
    ∷ (λ a b c. some (sys_text_space a))
    ∷ (λ a b c. some (mallocs a))
    ∷ (λ a b c. some (frees a))
    ∷ (λ a b c. some (returns data_address))
    ∷ (λ a b c. some (sets_char_color a b c))
    ∷ (λ a b c. some (sets_bg_color a b c))
    ∷ (λ a b c. some (executes a b c))
    ∷ (λ a b c. some ends)
    ∷ (λ a b c. some yields)
    ∷ (λ a b c. some (opens_mutex a))
    ∷ (λ a b c. some (closes_mutex (to_int a)))
    ∷ (λ a b c. some (locks_mutex (to_int a)))
    ∷ (λ a b c. some (unlocks_mutex (to_int a)))
    ∷ (λ a b c. some (sets_foreground a))
    ∷ (λ a b c. some (opens_fifo a))
    ∷ (λ a b c. some (closes_fifo (fds_to_fifo a)))
    ∷ (λ a b c. some (kills a))
    ∷ (λ a b c. some tells_pid)
    ∷ (λ a b c. some tells_ppid)
    ∷ (λ a b c. some (tells_process a b))
    ∷ (λ a b c. some (opens_cond a))
    ∷ (λ a b c. some (waits_cond (to_int a) (to_int b)))
    ∷ (λ a b c. some (signals_cond (to_int a)))
    ∷ (λ a b c. some (broadcasts_cond (to_int a)))
    ∷ (λ a b c. some (closes_cond (to_int a)))
    ∷ (λ a b c. some (lists_pids a))
    ∷ (λ a b c. some (lists_conds a))
    ∷ (λ a b c. some (lists_mutexes a))
    ∷ (λ a b c. some (lists_fifos a))
    ∷ []

abbrev pub run_entry : Option (ℕ → ℕ → ℕ → Option Request) → ℕ → ℕ → ℕ → Option Request
run_entry none a b c = some (returns 0)
run_entry (some f) a b c = f a b c

-- The third parameter is `rdx` and the fourth is `rcx`.
unfoldable pub syscall_dispatcher : ℕ → ℕ → ℕ → ℕ → Option Request
unfolding syscalls
syscall_dispatcher rax rbx rdx rcx =
    if ltb rax 3 then some (returns 0) else run_entry (get_elem? syscalls (rax - 3)) rbx rcx rdx

-- The registers that a call and its handler use.
pub record Registers : Type 0 where
  pub rax : ℕ
  pub rbx : ℕ
  pub rcx : ℕ
  pub rdx : ℕ
  pub rdi : ℕ
  pub rsi : ℕ

-- The first four arguments of a C function.
abbrev pub called : ℕ → ℕ → ℕ → ℕ → Registers
called a b c d = record { rax = 0; rbx = 0; rcx = d; rdx = c; rdi = a; rsi = b }

-- Up to `int 80h`: `rcx` is kept on the stack while `rdx` is moved.
abbrev pub before_int : Registers → Registers
before_int r = record r { rax = r.rdi; rbx = r.rsi; rcx = r.rdx; rdx = r.rcx }

-- `_syscallHandler`, up to its call of `syscallDispatcher`.
abbrev pub syscall_handler : Registers → Option Request
syscall_handler r =
    let s = record r { rdi = r.rax; rsi = r.rbx } in syscall_dispatcher s.rdi s.rsi s.rdx s.rcx

unfoldable pub int80h : ℕ → ℕ → ℕ → ℕ → Option Request
unfolding syscall_dispatcher
int80h rax rbx rcx rdx = syscall_handler (before_int (called rax rbx rcx rdx))
