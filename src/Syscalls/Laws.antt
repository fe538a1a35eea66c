-- ===== src/Syscalls/Laws.antt =====
-- The way of a system call: syscalls.c and int80h.asm of nanOS/Userland/SampleCodeModule, to the
-- dispatcher of nanOS/Kernel/systemCalls.c.
use tpe_arqui.Prelude.{
  ℕ, ◌+◌, ◌*◌, ◌/◌, ◌%◌, ◌^◌, ◌≤◌, ◌<◌, ◌≡◌, refl, ap, sym, ◌∙◌, arith, ℤ, pos, negsuc, some,
}
use tpe_arqui.Allocator.Pages.{data_address}
use tpe_arqui.Syscalls.{
  Request, of_int, to_int, fifo_to_fds, fds_to_fifo, sys_read, sys_write, sys_paint,
  file_descriptors,
}
use tpe_arqui.Syscalls.Stubs.{Stub, to_unsigned, calls_int80h}

-- The function of a program that asks for it.
abbrev pub asks : Request → Stub
asks (Request.returns n) = Stub.data_address_of
asks (Request.reads_keys buffer bytes) = Stub.read 1 buffer bytes
asks (Request.reads_fifo key buffer bytes) = Stub.read (fifo_to_fds key) buffer (of_int bytes)
asks (Request.puts str len) = Stub.write 0 str (of_int len)
asks (Request.puts_error str len) = Stub.write 2 str (of_int len)
asks (Request.writes_fifo key str len) = Stub.write (fifo_to_fds key) str (of_int len)
asks Request.seconds = Stub.time (pos 0)
asks Request.minutes = Stub.time (pos 1)
asks Request.hours = Stub.time (pos 2)
asks (Request.fills r g b x y) = Stub.paint (pos (r * 65536 + g * 256 + b)) x y
asks (Request.sleeps ms) = Stub.wait ms
asks Request.scr_x_res = Stub.screen_x_resolution
asks Request.scr_y_res = Stub.screen_y_resolution
asks Request.text_rows = Stub.text_rows
asks Request.text_cols = Stub.text_cols
asks (Request.mallocs bytes) = Stub.reserve bytes
asks (Request.frees address) = Stub.free_reserve address
asks (Request.sets_char_color r g b) = Stub.set_char_color r g b
asks (Request.sets_bg_color r g b) = Stub.set_bg_color r g b
asks (Request.executes ptr params name) = Stub.exec ptr params name
asks Request.ends = Stub.end
asks Request.yields = Stub.yield_
asks (Request.opens_mutex name) = Stub.mutex_open name
asks (Request.closes_mutex key) = Stub.mutex_close key
asks (Request.locks_mutex key) = Stub.mutex_lock key
asks (Request.unlocks_mutex key) = Stub.mutex_unlock key
asks (Request.sets_foreground process) = Stub.set_foreground process
asks (Request.opens_fifo name) = Stub.fifo_open name
asks (Request.closes_fifo key) = Stub.fifo_close (pos (fifo_to_fds key))
asks (Request.kills process) = Stub.kill process
asks Request.tells_pid = Stub.pid
asks Request.tells_ppid = Stub.ppid
asks (Request.tells_process process pi) = Stub.get_process_info process pi
asks (Request.opens_cond name) = Stub.cond_open name
asks (Request.waits_cond cond_key lock_key) = Stub.cond_wait cond_key lock_key
asks (Request.signals_cond key) = Stub.cond_signal key
asks (Request.broadcasts_cond key) = Stub.cond_broadcast key
asks (Request.closes_cond key) = Stub.cond_close key
asks (Request.lists_pids a) = Stub.get_current_pids a
asks (Request.lists_conds a) = Stub.get_conds_info a
asks (Request.lists_mutexes a) = Stub.get_mutexes_info a
asks (Request.lists_fifos a) = Stub.get_fifos_info a

abbrev pub IsInt : ℤ → Type 0
IsInt (pos n) = n < 2 ^ 31
IsInt (negsuc n) = n < 2 ^ 31

-- The key of a pipe.
abbrev pub IsKey : ℤ → Type 0
IsKey (pos n) = n + file_descriptors < 2 ^ 31
IsKey (negsuc n) = ⊥

-- The arguments are of the types of the programs' functions; the one value that a request returns by
-- itself is the address of the data.
abbrev pub IsValid : Request → Type 0
IsValid (Request.returns n) = n ≡ data_address
IsValid (Request.reads_keys buffer bytes) = bytes < 2 ^ 32
IsValid (Request.reads_fifo key buffer bytes) = IsKey key × IsInt bytes
IsValid (Request.puts str len) = IsInt len
IsValid (Request.puts_error str len) = IsInt len
IsValid (Request.writes_fifo key str len) = IsKey key × IsInt len
IsValid (Request.mallocs bytes) = bytes < 2 ^ 32
IsValid (Request.closes_fifo key) = IsKey key
IsValid (Request.fills r g b x y) = (r < 128) × (g < 256) × (b < 256) × IsInt x × IsInt y
IsValid (Request.closes_mutex key) = IsInt key
IsValid (Request.locks_mutex key) = IsInt key
IsValid (Request.unlocks_mutex key) = IsInt key
IsValid (Request.waits_cond cond_key lock_key) = IsInt cond_key × IsInt lock_key
IsValid (Request.signals_cond key) = IsInt key
IsValid (Request.broadcasts_cond key) = IsInt key
IsValid (Request.closes_cond key) = IsInt key
IsValid _ = Unit {0}

pub to_int-of_int : (k : ℤ) → IsInt k → to_int (of_int k) ≡ k
to_int-of_int (pos n) l = ground (arith, l)
to_int-of_int (negsuc n) l = ground (arith, l)

-- Through the `unsigned int` of a stub, the `uint64_t` of the kernel and back.
passed : (k : ℤ) → IsInt k → to_int (to_unsigned (of_int k)) ≡ k
passed (pos n) l = ground (arith, l)
passed (negsuc n) l = ground (arith, l)

to_unsigned_lem : (n : ℕ) → n < 2 ^ 32 → to_unsigned n ≡ n
to_unsigned_lem n l = omega (arith, l)

fifo_key :
    (k : ℤ)
    → IsKey k
    → (fds_to_fifo (fifo_to_fds k) ≡ k)
      × (file_descriptors ≤ fifo_to_fds k)
      × (fifo_to_fds k < 2 ^ 32)
unfolding fds_to_fifo fifo_to_fds
fifo_key (pos n) l = ground (arith, l)
fifo_key (negsuc n) l = absurd l

-- The numbers from 3 on are pipes.
sys_read_fifo :
    (fds b n : ℕ)
    → file_descriptors ≤ fds
    → sys_read fds b n ≡ Request.reads_fifo (fds_to_fifo fds) b (to_int n)
unfolding sys_read
sys_read_fifo fds b n l = ground (arith, l)

sys_write_fifo :
    (fds s n : ℕ)
    → file_descriptors ≤ fds
    → sys_write fds s n ≡ some (Request.writes_fifo (fds_to_fifo fds) s (to_int n))
unfolding sys_write
sys_write_fifo fds s n l = ground (arith, l)

red : (r g b : ℕ) → r < 128 → g < 256 → b < 256 → (r * 65536 + g * 256 + b) / 2 ^ 16 % 256 ≡ r
red r g b l m n = omega (arith, l, m, n)

green : (r g b : ℕ) → g < 256 → b < 256 → (r * 65536 + g * 256 + b) / 2 ^ 8 % 256 ≡ g
green r g b m n = omega (arith, m, n)

blue : (r g b : ℕ) → b < 256 → (r * 65536 + g * 256 + b) % 256 ≡ b
blue r g b n = omega (arith, n)

painted :
    (r g b : ℕ) (x y : ℤ)
    → IsValid (Request.fills r g b x y)
    → sys_paint (r * 65536 + g * 256 + b) (of_int x) (of_int y) ≡ Request.fills r g b x y
unfolding sys_paint
painted r g b x y (l, m, n, i, j) =
    let is_red = red r g b l m n in
    let is_green = green r g b m n in
    let is_blue = blue r g b n in
    let column = to_int-of_int x i in let row = to_int-of_int y j in cc

-- Every request with arguments of the right types comes out of the dispatcher when a program calls
-- the function that asks for it: the number, the way through the registers, the table and the
-- conversions of the arguments fit. (The keys and the lengths for a pipe or the screen are `int`s,
-- the numbers of bytes to read from the keyboard or to reserve are `unsigned int`s, and the red of a
-- pixel is below 128, so that its colour is an `int`.)
pub calls_int80h-asks : (r : Request) → IsValid r → calls_int80h (asks r) ≡ some r
unfolding calls_int80h
calls_int80h-asks (Request.reads_keys b n) v =
    ap (λ i. some (Request.reads_keys b i)) (to_unsigned_lem n v)
calls_int80h-asks (Request.puts s n) v = ap (λ i. some (Request.puts s i)) (passed n v)
calls_int80h-asks (Request.puts_error s n) v = ap (λ i. some (Request.puts_error s i)) (passed n v)
calls_int80h-asks Request.seconds v = refl
calls_int80h-asks Request.minutes v = refl
calls_int80h-asks Request.hours v = refl
calls_int80h-asks (Request.sleeps t) v = refl
calls_int80h-asks Request.scr_x_res v = refl
calls_int80h-asks Request.scr_y_res v = refl
calls_int80h-asks Request.text_rows v = refl
calls_int80h-asks Request.text_cols v = refl
calls_int80h-asks (Request.mallocs n) v = ap (λ i. some (Request.mallocs i)) (to_unsigned_lem n v)
calls_int80h-asks (Request.frees a) v = refl
calls_int80h-asks (Request.sets_char_color r g b) v = refl
calls_int80h-asks (Request.sets_bg_color r g b) v = refl
calls_int80h-asks (Request.executes a b c) v = refl
calls_int80h-asks Request.ends v = refl
calls_int80h-asks Request.yields v = refl
calls_int80h-asks (Request.opens_mutex n) v = refl
calls_int80h-asks (Request.sets_foreground p) v = refl
calls_int80h-asks (Request.opens_fifo n) v = refl
calls_int80h-asks (Request.kills p) v = refl
calls_int80h-asks Request.tells_pid v = refl
calls_int80h-asks Request.tells_ppid v = refl
calls_int80h-asks (Request.tells_process p a) v = refl
calls_int80h-asks (Request.opens_cond n) v = refl
calls_int80h-asks (Request.lists_pids a) v = refl
calls_int80h-asks (Request.lists_conds a) v = refl
calls_int80h-asks (Request.lists_mutexes a) v = refl
calls_int80h-asks (Request.lists_fifos a) v = refl
calls_int80h-asks (Request.closes_mutex k) v =
    ap (λ i. some (Request.closes_mutex i)) (to_int-of_int k v)
calls_int80h-asks (Request.locks_mutex k) v =
    ap (λ i. some (Request.locks_mutex i)) (to_int-of_int k v)
calls_int80h-asks (Request.unlocks_mutex k) v =
    ap (λ i. some (Request.unlocks_mutex i)) (to_int-of_int k v)
calls_int80h-asks (Request.signals_cond k) v =
    ap (λ i. some (Request.signals_cond i)) (to_int-of_int k v)
calls_int80h-asks (Request.broadcasts_cond k) v =
    ap (λ i. some (Request.broadcasts_cond i)) (to_int-of_int k v)
calls_int80h-asks (Request.closes_cond k) v =
    ap (λ i. some (Request.closes_cond i)) (to_int-of_int k v)
calls_int80h-asks (Request.returns n) v = ap (λ a. some (Request.returns a)) (sym v)
calls_int80h-asks (Request.waits_cond c l) v =
    ap (λ i. some (Request.waits_cond i (to_int (of_int l)))) (to_int-of_int c v.0)
    ∙ ap (λ i. some (Request.waits_cond c i)) (to_int-of_int l v.1)
calls_int80h-asks (Request.closes_fifo k) v =
    ap (λ i. some (Request.closes_fifo i)) (fifo_key k v).0
calls_int80h-asks (Request.reads_fifo k b n) v =
    let (same, pipe, small) = fifo_key k v.0 in
    let len = to_unsigned (of_int n) in
    ap (λ i. some (sys_read i b len)) (to_unsigned_lem (fifo_to_fds k) small)
    ∙ ap some (sys_read_fifo (fifo_to_fds k) b len pipe)
    ∙ ap (λ i. some (Request.reads_fifo i b (to_int len))) same
    ∙ ap (λ i. some (Request.reads_fifo k b i)) (passed n v.1)
calls_int80h-asks (Request.writes_fifo k s n) v =
    let (same, pipe, small) = fifo_key k v.0 in
    let len = to_unsigned (of_int n) in
    ap (λ i. sys_write i s len) (to_unsigned_lem (fifo_to_fds k) small)
    ∙ sys_write_fifo (fifo_to_fds k) s len pipe
    ∙ ap (λ i. some (Request.writes_fifo i s (to_int len))) same
    ∙ ap (λ i. some (Request.writes_fifo k s i)) (passed n v.1)
calls_int80h-asks (Request.fills r g b x y) v = ap some (painted r g b x y v)
