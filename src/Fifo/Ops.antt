-- ===== src/Fifo/Ops.antt =====
-- The operations on named pipes: nanOS/Kernel/fifo.c. Each function takes the state from the
-- moment at which its call of `mutex_lock` has come through; `key_calls` records the calls on the
-- mutexes in order, latest first.
pub mod Delivery
pub mod Trying
pub mod Readers
pub mod Calls
pub mod Reads
pub mod Opens
use tpe_arqui.Prelude.{
  ℕ, ◌+◌, ltb, if◌then◌else◌, ◌==◌, Bool, true, false, ◌&&◌, List, [], ◌∷◌, ◌++◌, get_or, set, ℤ,
  pos, negsuc, Option, none, some,
}
use tpe_arqui.Libc.Copy.{Memory}
use tpe_arqui.Allocator.Pages.{Pages, get_page, store_page}
use tpe_arqui.Process.Defs.{Heap}
use tpe_arqui.Process.Status.{block_process, unblock_process}
use tpe_arqui.Process.Files.{set_file_open, file_is_open}
use tpe_arqui.Mutex.KeyCalls.{KeyCall, locks_key, unlocks_key}
use tpe_arqui.Mutex.{Mutexes, mutex_open, same_name}
use tpe_arqui.Fifo.Buffer.{
  CircularBuffer, create_circular_buffer, write_circular_buffer, read_circular_buffer,
}

abbrev pub max_fifos : ℕ
max_fifos = 128

abbrev pub fifo_not_open_error : ℤ
fifo_not_open_error = negsuc 0

abbrev pub max_fifos_open_error : ℤ
max_fifos_open_error = negsuc 1

-- `struct fifo`; the queue holds the addresses of the requests that wait.
pub record Fifo : Type 0 where
  pub name : List ℕ
  pub c_buffer : CircularBuffer
  pub is_open : Bool
  pub fifo_mutex_key : ℤ
  pub read_queue : List ℕ

-- `struct read_request`; `fifo` is the index of the pipe.
pub record ReadRequest : Type 0 where
  pub bytes : ℕ
  pub bytes_read : ℕ
  pub buffer : ℕ
  pub fifo : ℕ
  pub reader_p : ℕ

-- The table, the requests by address, the memory of the processes, and what the pipes use.
pub record Fifos : Type 0 where
  pub open_fifos : List Fifo
  pub fifo_array_lock : ℤ
  pub requests : ℕ → ReadRequest
  pub memory : Memory
  pub mutexes : Mutexes
  pub pages : Pages
  pub key_calls : List KeyCall

abbrev pub no_fifo : Fifo
no_fifo = record {
  name = [];
  c_buffer = create_circular_buffer (λ _. 0);
  is_open = false;
  fifo_mutex_key = pos 0;
  read_queue = [];
}

abbrev pub locked_key : Fifos → ℤ → Fifos
locked_key s key = record s { key_calls = locks_key key ∷ s.key_calls }

abbrev pub unlocked_key : Fifos → ℤ → Fifos
unlocked_key s key = record s { key_calls = unlocks_key key ∷ s.key_calls }

abbrev pub set_heap : Fifos → Heap → Fifos
set_heap s h = record s { mutexes = (let m = s.mutexes in record m { heap = h }) }

abbrev pub put_fifo : Fifos → ℕ → Fifo → Fifos
put_fifo s k f = record s { open_fifos = set s.open_fifos k f }

abbrev pub fifo_at : Fifos → ℕ → Fifo
fifo_at s k = get_or s.open_fifos k no_fifo

-- Where the loop of `fifo_open` stops.
pub data FifoSlot : Type 0 where
  named : ℕ → FifoSlot
  closed : ℕ → FifoSlot
  full : FifoSlot

unfoldable pub find_fifo : List Fifo → List ℕ → ℕ → FifoSlot
find_fifo [] name k = full
find_fifo (f ∷ fs) name k =
    let rest = find_fifo fs name (k + 1) in
    if f.is_open then (if same_name name f.name then named k else rest) else closed k

-- FIFO_NAME_LEN, the bytes of `name` in `struct fifo`.
abbrev pub fifo_name_len : ℕ
fifo_name_len = 64

-- The buffer's bytes are what stood on the stack; `none` if the array of mutexes is taken. The name
-- has fewer than `fifo_name_len` characters: `strcpy` does not look, and a longer one leaves its
-- array.
unfoldable pub create_new_fifo : Fifos → List ℕ → Memory → Option (Fifo × Fifos)
create_new_fifo s name garbage = elim (mutex_open s.mutexes name) [
  | none ↦ none
  | some (key, mutexes) ↦ some (
    record {
      name = name;
      c_buffer = create_circular_buffer garbage;
      is_open = true;
      fifo_mutex_key = key;
      read_queue = [];
    },
    record s { mutexes = mutexes },
  )
]

-- `set_file_open(get_current_process(), k)`, whose result the callers ignore.
abbrev pub open_file : Fifos → ℕ → ℕ → Option Fifos
open_file s current k = elim (set_file_open s.mutexes.heap current k) [
  | none ↦ none
  | some (_, h) ↦ some (set_heap s h)
]

abbrev pub return_key : ℕ → Option Fifos → Option (ℤ × Fifos)
return_key k none = none
return_key k (some s) = some (pos k, s)

abbrev pub fifo_open_at : Fifos → ℕ → List ℕ → Memory → FifoSlot → Option (ℤ × Fifos)
fifo_open_at s current name garbage (named k) = elim (open_file s current k) [
  | none ↦ none
  | some t ↦ some (pos k, unlocked_key t t.fifo_array_lock)
]
fifo_open_at s current name garbage full =
    some (max_fifos_open_error, unlocked_key s s.fifo_array_lock)
fifo_open_at s current name garbage (closed k) = elim (create_new_fifo s name garbage) [
  | none ↦ none
  | some (f, t) ↦
      return_key k (open_file (unlocked_key (put_fifo t k f) t.fifo_array_lock) current k)
]

-- `none` where the shift of `set_file_open` is undefined.
unfoldable pub fifo_open : Fifos → ℕ → List ℕ → Memory → Option (ℤ × Fifos)
unfolding find_fifo create_new_fifo
fifo_open s current name garbage =
    let t = locked_key s s.fifo_array_lock in
    fifo_open_at t current name garbage (find_fifo t.open_fifos name 0)

-- The key is not negative. `sys_read` and `sys_write` take it from a file number above 2, but
-- `sys_fifo_cl` passes on what it gets: with a negative key the source reads in front of the table,
-- which is outside this model.
unfoldable pub is_open_fifo : Fifos → ℕ → ℕ → Option Bool
is_open_fifo s current key =
    if ltb key max_fifos && (fifo_at s key).is_open
    then file_is_open s.mutexes.heap current key
    else some false

-- What `try_read` changes: the buffer, the request, the memory.
unfoldable pub try_read :
    CircularBuffer → ReadRequest → Memory → Option (Bool × CircularBuffer × ReadRequest × Memory)
try_read c r m =
    if ltb 0 c.buf_fill
    then elim (read_circular_buffer c m r.buffer r.bytes) [
      | none ↦ none
      | some (n, c', m') ↦ some (true, c', record r { bytes_read = n }, m')
    ]
    else some (false, c, r, m)

abbrev pub put_request : (ℕ → ReadRequest) → ℕ → ReadRequest → ℕ → ReadRequest
put_request rs a r b = if a == b then r else rs b

-- The part of the state that the readers of one pipe share.
pub record Serving : Type 0 where
  pub c_buffer : CircularBuffer
  pub requests : ℕ → ReadRequest
  pub memory : Memory
  pub heap : Heap
  pub read_queue : List ℕ

-- The first reader has got its bytes: it leaves the queue and wakes up.
abbrev pub serve : Serving → ℕ → List ℕ → CircularBuffer → ReadRequest → Memory → Serving
serve s a rest c r m = record {
  c_buffer = c;
  requests = put_request s.requests a r;
  memory = m;
  heap = unblock_process s.heap r.reader_p;
  read_queue = rest;
}

-- `while(!is_empty(read_queue) && try_read(peek(read_queue)))`, over the queue.
unfoldable pub send_to_readers : Serving → List ℕ → Option Serving
unfolding try_read
send_to_readers s [] = some (record s { read_queue = [] })
send_to_readers s (a ∷ rest) = elim (try_read s.c_buffer (s.requests a) s.memory) [
  | none ↦ none
  | some (done, c, r, m) ↦ elim done [
    | true ↦ send_to_readers (serve s a rest c r m) rest
    | false ↦ some (record s { read_queue = a ∷ rest })
  ]
]

abbrev pub serving : Fifos → Fifo → CircularBuffer → Serving
serving s f c = record {
  c_buffer = c;
  requests = s.requests;
  memory = s.memory;
  heap = s.mutexes.heap;
  read_queue = f.read_queue;
}

abbrev pub served : Fifos → ℕ → Fifo → Serving → Fifos
served s key f v =
    put_fifo (set_heap (record s { requests = v.requests; memory = v.memory }) v.heap) key
      (record f { c_buffer = v.c_buffer; read_queue = v.read_queue })

-- The critical section of `fifo_write`.
unfoldable pub write_open : Fifos → ℕ → ℕ → ℕ → Option (ℤ × Fifos)
unfolding send_to_readers
write_open s key buf bytes =
    let f = fifo_at s key in
    elim (write_circular_buffer f.c_buffer s.memory buf bytes) [
      | none ↦ none
      | some (n, c) ↦ elim (send_to_readers (serving s f c) f.read_queue) [
        | none ↦ none
        | some v ↦
            some (
              pos n,
              unlocked_key (served (locked_key s f.fifo_mutex_key) key f v) f.fifo_mutex_key,
            )
      ]
    ]

-- `bytes` is an `int`: `negsuc` and 0 are the second branch.
unfoldable pub fifo_write : Fifos → ℕ → ℕ → ℕ → ℤ → Option (ℤ × Fifos)
unfolding is_open_fifo write_open
fifo_write s current key buf (negsuc n) = elim (is_open_fifo s current key) [
  | none ↦ none
  | some _ ↦ some (pos 0, s)
]
fifo_write s current key buf (pos bytes) = elim (is_open_fifo s current key) [
  | none ↦ none
  | some open_ ↦
      if open_ && ltb 0 bytes
      then write_open s key buf bytes
      else if bytes == 0
      then some (pos 0, s)
      else some (fifo_not_open_error, s)
]

-- What `fifo_read` does next once it has asked: it waits in the queue, or it has its bytes.
pub data Asked : Type 0 where
  waits has_read : ℕ → Asked

-- The address is that of the new request, whose `bytes_read` is what stood in its page. A page is
-- free, or `get_page` does not come back.
unfoldable pub create_read_request : Fifos → ℕ → ℕ → ℕ → ℕ → ℕ × Fifos
create_read_request s current key buf bytes =
    let (a, pages) = get_page s.pages in
    let old = s.requests a in
    let r = record old { bytes = bytes; buffer = buf; fifo = key; reader_p = current } in
    (a, record s { pages = pages; requests = put_request s.requests a r })

-- `could_read = try_read(r)` if the queue is empty, and 0 otherwise.
abbrev pub read_first : Fifos → Fifo → ℕ → Option (Bool × CircularBuffer × ReadRequest × Memory)
read_first s f a =
    let r = s.requests a in
    elim f.read_queue [
      | [] ↦ try_read f.c_buffer r s.memory
      | _ ∷ _ ↦ some (false, f.c_buffer, r, s.memory)
    ]

-- `fifo_read` of an open pipe up to the point where it waits, or from which it goes on.
unfoldable pub ask_to_read : Fifos → ℕ → ℕ → ℕ → ℕ → Option (Asked × Fifos)
unfolding create_read_request
ask_to_read s current key buf bytes =
    let (a, t) = create_read_request s current key buf bytes in
    let f = fifo_at t key in
    let u = locked_key t f.fifo_mutex_key in
    elim (read_first u f a) [
      | none ↦ none
      | some (could_read, c, r, m) ↦
          let v = put_fifo (record u { requests = put_request u.requests a r; memory = m }) key in
          some (
            if could_read
            then (has_read a, unlocked_key (v (record f { c_buffer = c })) f.fifo_mutex_key)
            else (
              waits a,
              let queued =
                    unlocked_key (v (record f { read_queue = f.read_queue ++ a ∷ [] }))
                      f.fifo_mutex_key in
                  set_heap queued (block_process queued.mutexes.heap r.reader_p),
            ))
    ]

-- The end of `fifo_read`, when the process runs on.
unfoldable pub finish_read : Fifos → ℕ → ℕ → ℕ → Option (ℤ × Fifos)
unfolding is_open_fifo
finish_read s current key a = elim (is_open_fifo s current key) [
  | none ↦ none
  | some open_ ↦ some (
      if open_
      then (pos (s.requests a).bytes_read, record s { pages = (store_page s.pages a).1 })
      else (fifo_not_open_error, s))
]

-- How `fifo_read` begins: its value at once, or what it has asked for.
pub data Begun : Type 0 where
  value : ℤ → Begun
  asked : Asked → Begun

unfoldable pub begin_read : Fifos → ℕ → ℕ → ℕ → ℤ → Option (Begun × Fifos)
unfolding is_open_fifo ask_to_read
begin_read s current key buf (negsuc n) = elim (is_open_fifo s current key) [
  | none ↦ none
  | some _ ↦ some (value (pos 0), s)
]
begin_read s current key buf (pos bytes) = elim (is_open_fifo s current key) [
  | none ↦ none
  | some open_ ↦
      if open_ && ltb 0 bytes
      then elim (ask_to_read s current key buf bytes) [
        | none ↦ none
        | some (a, t) ↦ some (asked a, t)
      ]
      else some (value (pos 0), s)
]

-- `release_readers`: each reader that waits wakes up.
unfoldable pub release_readers : (ℕ → ReadRequest) → Heap → List ℕ → Heap
release_readers rs h [] = h
release_readers rs h (a ∷ q) = release_readers rs (unblock_process h (rs a).reader_p) q

unfoldable pub fifo_close : Fifos → ℕ → ℕ → Option (ℤ × Fifos)
unfolding is_open_fifo release_readers
fifo_close s current key =
    let t = locked_key s s.fifo_array_lock in
    let f = fifo_at t key in
    let woken = set_heap t (release_readers t.requests t.mutexes.heap f.read_queue) in
    elim (is_open_fifo t current key) [
      | none ↦ none
      | some open_ ↦ some (
          if open_
          then (
            pos 1,
            unlocked_key (put_fifo woken key (record f { read_queue = []; is_open = false }))
                s.fifo_array_lock,
          )
          else (fifo_not_open_error, unlocked_key t s.fifo_array_lock))
    ]
