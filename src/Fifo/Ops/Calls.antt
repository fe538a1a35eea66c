-- ===== src/Fifo/Ops/Calls.antt =====
-- `fifo_write`, `fifo_read` and `fifo_close` of nanOS/Kernel/fifo.c as wholes.
use tpe_arqui.Prelude.{
  ℕ, ◌+◌, ◌-◌, ◌^◌, ◌≤◌, ◌<◌, ◌≡◌, ◌≢◌, refl, ap, sym, subst, ◌∙◌, arith, true, false, Option, none,
  some, [], ◌∷◌, ◌++◌, tally, set, ℤ, pos,
}
use tpe_arqui.Process.Defs.{null, ready}
use tpe_arqui.Process.Status.{is_delete_process}
use Prim.Native.Nat.{min}
use tpe_arqui.Fifo.Buffer.{CircularBuffer, buf_size}
use tpe_arqui.Fifo.Buffer.Write.{IsValid}
use tpe_arqui.Fifo.Buffer.Stream.{Appends, contents, bytes_at, write_refines}
use tpe_arqui.Mutex.KeyCalls.{locks_key, unlocks_key}
use tpe_arqui.Fifo.Ops.{
  Fifos, Serving, fifo_at, serving, send_to_readers, write_open, fifo_write, is_open_fifo,
  fifo_not_open_error, served, locked_key, unlocked_key, begin_read, value, fifo_close, finish_read,
  release_readers, set_heap, put_fifo,
}
use tpe_arqui.Fifo.Ops.Delivery.{Disjoint}
use tpe_arqui.Fifo.Ops.Readers.{release_readers_lem, Flushed, Flushes, send_to_readers_lem}

-- What a finished `fifo_write` has done.
pub record DidWrite (s : Fifos) (key buf bytes : ℕ) (result : ℤ) (t : Fifos) : Type 0 where
  pub c : CircularBuffer
  pub v : Serving
  pub count : result ≡ pos (min bytes (buf_size - (fifo_at s key).c_buffer.buf_fill))
  pub appended :
      contents c
      ≡ contents (fifo_at s key).c_buffer
        ++ bytes_at s.memory buf (min bytes (buf_size - (fifo_at s key).c_buffer.buf_fill))
  pub flushed : Flushed (serving s (fifo_at s key) c) (fifo_at s key).read_queue v
  pub pipes :
      t.open_fifos
      ≡ set s.open_fifos key
          (let f = fifo_at s key in record f { c_buffer = v.c_buffer; read_queue = v.read_queue })
  pub processes : t.mutexes.heap ≡ v.heap
  pub requests : t.requests ≡ v.requests
  pub memory : t.memory ≡ v.memory
  pub calls :
      t.key_calls
      ≡ unlocks_key (fifo_at s key).fifo_mutex_key
        ∷ locks_key (fifo_at s key).fifo_mutex_key
        ∷ s.key_calls

abbrev pub FifoWrites : Fifos → ℕ → ℕ → ℕ → Option (ℤ × Fifos) → Type 0
FifoWrites s key buf bytes none = ⊥
FifoWrites s key buf bytes (some (result, t)) = DidWrite s key buf bytes result t

Flushes-Appends :
    (s : Fifos) (key buf bytes n : ℕ) (c : CircularBuffer) (out : Option Serving)
    → Appends (fifo_at s key).c_buffer s.memory buf bytes (some (n, c))
    → Flushes (serving s (fifo_at s key) c) (fifo_at s key).read_queue out
    → let f = fifo_at s key in
      FifoWrites s key buf bytes (elim out [
        | none ↦ none
        | some v ↦
            some (
              pos n,
              unlocked_key (served (locked_key s f.fifo_mutex_key) key f v) f.fifo_mutex_key,
            )
      ])
Flushes-Appends s key buf bytes n c none a f = f
Flushes-Appends s key buf bytes n c (some v) a f = record {
  c = c;
  v = v;
  count = rw (a.1) refl;
  appended = a.2 ∙ ap (λ k. contents (fifo_at s key).c_buffer ++ bytes_at s.memory buf k) a.1;
  flushed = f;
  pipes = refl;
  processes = refl;
  requests = refl;
  memory = refl;
  calls = refl;
}

Appends-FifoWrites :
    (s : Fifos) (key buf bytes : ℕ) (out : Option (ℕ × CircularBuffer))
    → Appends (fifo_at s key).c_buffer s.memory buf bytes out
    → ((a : ℕ) → tally a (fifo_at s key).read_queue ≤ 1)
    → ((a : ℕ) → 0 < tally a (fifo_at s key).read_queue → 0 < (s.requests a).bytes)
    → Disjoint s.requests (fifo_at s key).read_queue
    → let f = fifo_at s key in
      FifoWrites s key buf bytes (elim out [
        | none ↦ none
        | some (n, c) ↦ elim (send_to_readers (serving s f c) f.read_queue) [
          | none ↦ none
          | some v ↦ some (
            pos n,
            unlocked_key (served (locked_key s f.fifo_mutex_key) key f v) f.fifo_mutex_key,
          )
        ]
      ])
Appends-FifoWrites s key buf bytes none a u b x = a
Appends-FifoWrites s key buf bytes (some (n, c)) a u b x =
    Flushes-Appends s key buf bytes n c _ a
      (send_to_readers_lem (serving s (fifo_at s key) c) (fifo_at s key).read_queue a.0 u b x)

fifo_write-open :
    (s : Fifos) (current key buf bytes : ℕ)
    → is_open_fifo s current key ≡ some true
    → 0 < bytes
    → fifo_write s current key buf (pos bytes) ≡ write_open s key buf bytes
unfolding fifo_write is_open_fifo
fifo_write-open s current key buf bytes o positive = ground (arith, o, positive)

-- `fifo_write` of at least one byte to a pipe that the process has open, whose buffer is valid and
-- has room, always finishes. Under the mutex of the pipe it appends the first `min bytes room`
-- bytes and returns their number, and then serves the waiting readers in order: all of them, or
-- until the buffer is empty. What then stands in their buffers, followed by what is left in the
-- pipe, is what the pipe held with the new bytes behind it. The other pipes stay as they were.
-- (The waiting requests are distinct, their buffers do not overlap, and each asks for at least one
-- byte.)
pub fifo_write_lem :
    (s : Fifos) (current key buf bytes : ℕ)
    → is_open_fifo s current key ≡ some true
    → 0 < bytes
    → IsValid (fifo_at s key).c_buffer
    → (fifo_at s key).c_buffer.buf_fill < buf_size
    → (fifo_at s key).c_buffer.buf_fill + bytes < 2 ^ 31
    → ((a : ℕ) → tally a (fifo_at s key).read_queue ≤ 1)
    → ((a : ℕ) → 0 < tally a (fifo_at s key).read_queue → 0 < (s.requests a).bytes)
    → Disjoint s.requests (fifo_at s key).read_queue
    → FifoWrites s key buf bytes (fifo_write s current key buf (pos bytes))
unfolding write_open
fifo_write_lem s current key buf bytes o positive valid room small u b apart =
    let c = (fifo_at s key).c_buffer in
    let wrote =
      Appends-FifoWrites s key buf bytes _
        (write_refines c s.memory buf bytes valid room positive small) u b apart in
    subst (FifoWrites s key buf bytes) (sym (fifo_write-open s current key buf bytes o positive))
      wrote

-- On a pipe that the process has not open, `fifo_write` of at least one byte returns
-- FIFO_NOT_OPEN_ERROR and `fifo_read` returns 0, and both leave everything as it was, while
-- `fifo_close` returns FIFO_NOT_OPEN_ERROR and has only taken and given back the lock of the
-- table. A reader that wakes up and finds the pipe closed gets FIFO_NOT_OPEN_ERROR, and the page
-- of its request is not given back.
pub not_open_fifo_lem :
    (s : Fifos) (current key buf bytes a : ℕ)
    → is_open_fifo s current key ≡ some false
    → 0 < bytes
    → (fifo_write s current key buf (pos bytes) ≡ some (fifo_not_open_error, s))
      × (begin_read s current key buf (pos bytes) ≡ some (value (pos 0), s))
      × (fifo_close s current key
          ≡ some (
            fifo_not_open_error,
            unlocked_key (locked_key s s.fifo_array_lock) s.fifo_array_lock,
          ))
      × (finish_read s current key a ≡ some (fifo_not_open_error, s))
unfolding fifo_write begin_read fifo_close finish_read is_open_fifo
not_open_fifo_lem s current key buf bytes a o positive = ground (arith, o, positive)

-- What a finished `fifo_close` has done.
pub record DidClose (s : Fifos) (key : ℕ) (result : ℤ) (t : Fifos) : Type 0 where
  pub success : result ≡ pos 1
  pub pipes :
      t.open_fifos
      ≡ set s.open_fifos key
          (let f = fifo_at s key in record f { is_open = false; read_queue = [] })
  pub woken :
      (a : ℕ)
      → 0 < tally a (fifo_at s key).read_queue
      → (s.requests a).reader_p ≢ null
      → is_delete_process s.mutexes.heap (s.requests a).reader_p ≡ false
      → (t.mutexes.heap (s.requests a).reader_p).st ≡ ready
  pub requests : t.requests ≡ s.requests
  pub calls :
      t.key_calls ≡ unlocks_key s.fifo_array_lock ∷ locks_key s.fifo_array_lock ∷ s.key_calls

abbrev pub FifoCloses : Fifos → ℕ → Option (ℤ × Fifos) → Type 0
FifoCloses s key none = ⊥
FifoCloses s key (some (result, t)) = DidClose s key result t

abbrev closed_fifos : Fifos → ℕ → Fifos
closed_fifos s key =
    let t = locked_key s s.fifo_array_lock in
    let f = fifo_at s key in
    let woken = set_heap t (release_readers s.requests s.mutexes.heap f.read_queue) in
    unlocked_key (put_fifo woken key (record f { read_queue = []; is_open = false }))
      s.fifo_array_lock

fifo_close-open :
    (s : Fifos) (current key : ℕ)
    → is_open_fifo s current key ≡ some true
    → fifo_close s current key ≡ some (pos 1, closed_fifos s key)
unfolding fifo_close is_open_fifo
fifo_close-open s current key o = ground (arith, o)

-- `fifo_close` of a pipe that the process has open: the pipe is closed, with no reader waiting, and
-- every reader that waited is ready to run, unless it is marked for deletion. The other pipes and
-- the requests stay as they were.
pub fifo_close_lem :
    (s : Fifos) (current key : ℕ)
    → is_open_fifo s current key ≡ some true
    → FifoCloses s key (fifo_close s current key)
fifo_close_lem s current key o =
    subst (FifoCloses s key) (sym (fifo_close-open s current key o)) (record {
      success = refl;
      pipes = refl;
      woken = λ a h n l.
          release_readers_lem s.requests s.mutexes.heap (fifo_at s key).read_queue a h n l;
      requests = refl;
      calls = refl;
    })
