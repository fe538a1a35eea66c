-- ===== src/Tests/Fifo.antt =====
-- The pipes of nanOS/Kernel/fifo.c: one pipe with two readers that wait.
use tpe_arqui.Prelude.{
  ℕ, ◌+◌, ◌≤◌, ◌≡◌, refl, arith, true, [], ◌∷◌, pos, some, if◌then◌else◌, ◌==◌, tally,
}
use tpe_arqui.Process.Defs.{Process, blocked, ready}
use tpe_arqui.Process.Status.{is_delete_process}
use tpe_arqui.Process.Files.{file_is_open}
use tpe_arqui.Mutex.{unlocked}
use tpe_arqui.Fifo.Buffer.{CircularBuffer}
use tpe_arqui.Fifo.Buffer.Write.{IsValid}
use tpe_arqui.Fifo.Ops.{
  Fifos, Serving, send_to_readers, fifo_write, fifo_close, fifo_not_open_error, begin_read,
  finish_read, value, no_fifo, fifo_open, is_open_fifo, locked_key, unlocked_key, serving, fifo_at,
  release_readers,
}
use tpe_arqui.Fifo.Ops.Opens.{FifoOpens, fifo_open_lem}
use tpe_arqui.Fifo.Ops.Reads.{Began, fifo_read_lem}
use tpe_arqui.Fifo.Info.{get_fifos_info, open_fifos_info}
use tpe_arqui.Fifo.Ops.Delivery.{Disjoint}
use tpe_arqui.Fifo.Ops.Readers.{Flushes, send_to_readers_lem, release_readers_lem}
use tpe_arqui.Fifo.Ops.Calls.{
  FifoWrites, FifoCloses, fifo_write_lem, fifo_close_lem, not_open_fifo_lem,
}

abbrev waiting : Process
waiting = record {
  st = blocked;
  name = [];
  entry_point = 0;
  rsp = 0;
  stack_page = 0;
  n_data_page = 0;
  data_page = [];
  pid = 4;
  ppid = 1;
  open_fds = λ fd. fd == 0;
}

abbrev no_bytes : CircularBuffer
no_bytes = record { buffer = λ a. 0; free_slot = 1020; current = 1020; buf_fill = 0 }

no_bytes-IsValid : IsValid no_bytes
no_bytes-IsValid = record { current_in = omega arith; fill_in = omega arith; free_after = refl }

abbrev three_bytes : CircularBuffer
three_bytes = record { buffer = λ a. a; free_slot = 3; current = 0; buf_fill = 3 }

three_bytes-IsValid : IsValid three_bytes
three_bytes-IsValid = record { current_in = omega arith; fill_in = omega arith; free_after = refl }

-- The requests 100 and 200 wait, of the processes 10 and 20.
abbrev two_readers : Fifos
two_readers = record {
  open_fifos =
      record {
        name = b'f' ∷ [];
        c_buffer = no_bytes;
        is_open = true;
        fifo_mutex_key = pos 1;
        read_queue = 100 ∷ 200 ∷ [];
      }
      ∷ [];
  fifo_array_lock = pos 0;
  requests = λ a. record {
    bytes = 4;
    bytes_read = 0;
    buffer = 5000 + a;
    fifo = 0;
    reader_p = if a == 100 then 10 else 20;
  };
  memory = λ a. a;
  mutexes = record {
    open_mutexes = [];
    array_mutex = unlocked;
    superlock = unlocked;
    heap = λ p. waiting;
  };
  pages = record { pages_stack = 1 ∷ 2 ∷ []; current_index = 0; lock_calls = [] };
  key_calls = [];
}

abbrev three_held : Serving
three_held = serving two_readers (fifo_at two_readers 0) three_bytes

distinct : (a : ℕ) → tally a (100 ∷ 200 ∷ []) ≤ 1
distinct a = ground arith

apart : Disjoint two_readers.requests (100 ∷ 200 ∷ [])
apart a b l m n = ground (arith, l, m, n)

send_to_readers_lem_example :
    Flushes three_held (100 ∷ 200 ∷ []) (send_to_readers three_held (100 ∷ 200 ∷ []))
send_to_readers_lem_example =
    send_to_readers_lem three_held (100 ∷ 200 ∷ []) three_bytes-IsValid distinct
      (λ a h. omega arith) apart

released_readers :
    (release_readers two_readers.requests (λ p. waiting) (100 ∷ 200 ∷ []) 20).st ≡ ready
unfolding is_delete_process
released_readers =
    release_readers_lem two_readers.requests (λ p. waiting) (100 ∷ 200 ∷ []) 200 (omega arith)
      (ground arith) refl

fifo_write_lem_example : FifoWrites two_readers 0 5000 6 (fifo_write two_readers 10 0 5000 (pos 6))
unfolding is_open_fifo file_is_open
fifo_write_lem_example =
    fifo_write_lem two_readers 10 0 5000 6 refl (omega arith) no_bytes-IsValid (omega arith)
      (omega arith) distinct (λ a h. omega arith) apart

fifo_close_lem_example : FifoCloses two_readers 0 (fifo_close two_readers 10 0)
unfolding is_open_fifo file_is_open
fifo_close_lem_example = fifo_close_lem two_readers 10 0 refl

not_open :
    (fifo_write two_readers 10 1 5000 (pos 6) ≡ some (fifo_not_open_error, two_readers))
    × (begin_read two_readers 10 1 5000 (pos 6) ≡ some (value (pos 0), two_readers))
    × (fifo_close two_readers 10 1
        ≡ some (fifo_not_open_error, unlocked_key (locked_key two_readers (pos 0)) (pos 0)))
    × (finish_read two_readers 10 1 100 ≡ some (fifo_not_open_error, two_readers))
unfolding is_open_fifo file_is_open
not_open = not_open_fifo_lem two_readers 10 1 5000 6 100 refl (omega arith)

-- One pipe that holds three bytes, and a place for another.
abbrev two_places : Fifos
two_places = record two_readers {
  open_fifos =
      record {
        name = b'f' ∷ [];
        c_buffer = three_bytes;
        is_open = true;
        fifo_mutex_key = pos 1;
        read_queue = [];
      }
      ∷ no_fifo
      ∷ [];
}

-- Four bytes are asked for.
fifo_read_lem_example : Began two_places 10 0 5000 4 (begin_read two_places 10 0 5000 (pos 4))
unfolding is_open_fifo file_is_open
fifo_read_lem_example =
    fifo_read_lem two_places 10 0 5000 4 refl (omega arith) three_bytes-IsValid (omega arith)

fifo_open_lem_example :
    FifoOpens two_places 10 (b'g' ∷ []) (fifo_open two_places 10 (b'g' ∷ []) (λ _. 0))
fifo_open_lem_example = fifo_open_lem two_places 10 (b'g' ∷ []) (λ _. 0) (omega arith) refl

listed_pipe : (get_fifos_info two_places).0 ≡ record { name = b'f' ∷ []; fds = 3 } ∷ []
unfolding get_fifos_info open_fifos_info
listed_pipe = refl
