-- ===== src/Syscalls/Stubs.antt =====
-- The functions of nanOS/Userland/SampleCodeModule/syscalls.c.
use tpe_arqui.Prelude.{ℕ, ◌%◌, ◌^◌, ℤ, Option}
use tpe_arqui.Syscalls.{Request, int80h, of_int}

-- The conversion to `unsigned int`.
abbrev pub to_unsigned : ℕ → ℕ
to_unsigned n = n % 2 ^ 32

-- A call of one of them with its arguments: `int` is `ℤ`, all else is a number.
pub data Stub : Type 0 where
  read write : ℕ → ℕ → ℕ → Stub
  time : ℤ → Stub
  paint : ℤ → ℤ → ℤ → Stub
  wait : ℕ → Stub
  screen_x_resolution screen_y_resolution text_rows text_cols : Stub
  reserve free_reserve : ℕ → Stub
  data_address_of : Stub
  set_char_color set_bg_color exec : ℕ → ℕ → ℕ → Stub
  end yield_ : Stub
  mutex_open : ℕ → Stub
  mutex_close mutex_lock mutex_unlock : ℤ → Stub
  set_foreground fifo_open : ℕ → Stub
  fifo_close : ℤ → Stub
  kill : ℕ → Stub
  pid ppid : Stub
  get_process_info : ℕ → ℕ → Stub
  cond_open : ℕ → Stub
  cond_wait : ℤ → ℤ → Stub
  cond_signal cond_broadcast cond_close : ℤ → Stub
  get_current_pids get_conds_info get_mutexes_info get_fifos_info : ℕ → Stub

-- The function's body.
unfoldable pub calls_int80h : Stub → Option Request
unfolding int80h
calls_int80h (Stub.read fd buffer bytes) = int80h 3 (to_unsigned fd) buffer (to_unsigned bytes)
calls_int80h (Stub.write fd buffer bytes) = int80h 4 (to_unsigned fd) buffer (to_unsigned bytes)
calls_int80h (Stub.time selector) = int80h 5 (of_int selector) 0 0
calls_int80h (Stub.paint color x y) = int80h 6 (of_int color) (of_int x) (of_int y)
calls_int80h (Stub.wait milliseconds) = int80h 7 milliseconds 0 0
calls_int80h Stub.screen_x_resolution = int80h 8 0 0 0
calls_int80h Stub.screen_y_resolution = int80h 8 1 0 0
calls_int80h Stub.text_rows = int80h 9 0 0 0
calls_int80h Stub.text_cols = int80h 9 1 0 0
calls_int80h (Stub.reserve bytes) = int80h 10 (to_unsigned bytes) 0 0
calls_int80h (Stub.free_reserve address) = int80h 11 address 0 0
calls_int80h Stub.data_address_of = int80h 12 0 0 0
calls_int80h (Stub.set_char_color r g b) = int80h 13 r g b
calls_int80h (Stub.set_bg_color r g b) = int80h 14 r g b
calls_int80h (Stub.exec ptr params name) = int80h 15 ptr params name
calls_int80h Stub.end = int80h 16 0 0 0
calls_int80h Stub.yield_ = int80h 17 0 0 0
calls_int80h (Stub.mutex_open name) = int80h 18 name 0 0
calls_int80h (Stub.mutex_close key) = int80h 19 (of_int key) 0 0
calls_int80h (Stub.mutex_lock key) = int80h 20 (of_int key) 0 0
calls_int80h (Stub.mutex_unlock key) = int80h 21 (of_int key) 0 0
calls_int80h (Stub.set_foreground process) = int80h 22 process 0 0
calls_int80h (Stub.fifo_open name) = int80h 23 name 0 0
calls_int80h (Stub.fifo_close key) = int80h 24 (of_int key) 0 0
calls_int80h (Stub.kill process) = int80h 25 process 0 0
calls_int80h Stub.pid = int80h 26 0 0 0
calls_int80h Stub.ppid = int80h 27 0 0 0
calls_int80h (Stub.get_process_info process pi) = int80h 28 process pi 0
calls_int80h (Stub.cond_open name) = int80h 29 name 0 0
calls_int80h (Stub.cond_wait cond_key lock_key) = int80h 30 (of_int cond_key) (of_int lock_key) 0
calls_int80h (Stub.cond_signal key) = int80h 31 (of_int key) 0 0
calls_int80h (Stub.cond_broadcast key) = int80h 32 (of_int key) 0 0
calls_int80h (Stub.cond_close key) = int80h 33 (of_int key) 0 0
calls_int80h (Stub.get_current_pids pid_array) = int80h 34 pid_array 0 0
calls_int80h (Stub.get_conds_info info_array) = int80h 35 info_array 0 0
calls_int80h (Stub.get_mutexes_info info_array) = int80h 36 info_array 0 0
calls_int80h (Stub.get_fifos_info info_array) = int80h 37 info_array 0 0
