-- ===== src/Fifo/Ops/Reads/Asking.antt =====
-- The steps of `fifo_read` in nanOS/Kernel/fifo.c, as equations.
use tpe_arqui.Prelude.{
  ℕ, ◌≡◌, refl, arith, ltb, Bool, true, false, ◌==◌, if◌then◌else◌, Option, none, some, List, [],
  ◌∷◌, ◌++◌,
}
use tpe_arqui.Libc.Copy.{Memory}
use tpe_arqui.Allocator.Pages.{get_page}
use tpe_arqui.Process.Status.{block_process}
use tpe_arqui.Fifo.Buffer.{CircularBuffer}
use tpe_arqui.Fifo.Ops.{
  Fifo, Fifos, ReadRequest, Asked, waits, has_read, fifo_at, try_read, create_read_request,
  read_first, ask_to_read, put_request, locked_key, unlocked_key, put_fifo, set_heap,
}

-- The page of the new request, and the request.
abbrev pub address : Fifos → ℕ
address s = (get_page s.pages).0

abbrev pub request : Fifos → ℕ → ℕ → ℕ → ℕ → ReadRequest
request s current key buf bytes =
    let old = s.requests (address s) in
    record old { bytes = bytes; buffer = buf; fifo = key; reader_p = current }

-- The state in which the reader looks at the pipe.
abbrev pub asking : Fifos → ℕ → ℕ → ℕ → ℕ → Fifos
asking s current key buf bytes =
    locked_key
      (record s {
        pages = (get_page s.pages).1;
        requests = put_request s.requests (address s) (request s current key buf bytes);
      })
      (fifo_at s key).fifo_mutex_key

pub same : (a : ℕ) → (a == a) ≡ true
same a = ground arith

pub try_empty :
    (c : CircularBuffer) (r : ReadRequest) (m : Memory)
    → ltb 0 c.buf_fill ≡ false
    → try_read c r m ≡ some (false, c, r, m)
unfolding try_read
try_empty c r m e = rw (try_read, e) refl

-- The request is where it was put.
pub request_put :
    (s : Fifos) (current key buf bytes : ℕ)
    → (asking s current key buf bytes).requests (address s) ≡ request s current key buf bytes
request_put s current key buf bytes = rw (same (address s)) refl

abbrev pub got : ℕ → ReadRequest → ReadRequest
got n r = record r { bytes_read = n }

-- `ask_to_read` by what `read_first` gives.
abbrev pub outcome :
    Fifos → ℕ → ℕ → Option (Bool × CircularBuffer × ReadRequest × Memory) → Option (Asked × Fifos)
outcome u key a out = elim out [
  | none ↦ none
  | some (could_read, c, r, m) ↦
      let f = fifo_at u key in
      let v = put_fifo (record u { requests = put_request u.requests a r; memory = m }) key in
      some (
        if could_read
        then (has_read a, unlocked_key (v (record f { c_buffer = c })) f.fifo_mutex_key)
        else (
          waits a,
          let queued =
                unlocked_key (v (record f { read_queue = f.read_queue ++ a ∷ [] }))
                  f.fifo_mutex_key in
              set_heap queued (block_process queued.mutexes.heap r.reader_p),
        ))
]

pub ask-outcome :
    (s : Fifos) (current key buf bytes : ℕ)
    → let u = asking s current key buf bytes in
      ask_to_read s current key buf bytes
      ≡ outcome u key (address s) (read_first u (fifo_at s key) (address s))
unfolding ask_to_read create_read_request
ask-outcome s current key buf bytes = refl

pub first_alone :
    (u : Fifos) (f : Fifo) (a : ℕ) (r : ReadRequest)
    → f.read_queue ≡ []
    → u.requests a ≡ r
    → read_first u f a ≡ try_read f.c_buffer r u.memory
first_alone u f a r q e = rw (q, e) refl

pub first_behind :
    (u : Fifos) (f : Fifo) (a b : ℕ) (rest : List ℕ) (r : ReadRequest)
    → f.read_queue ≡ b ∷ rest
    → u.requests a ≡ r
    → read_first u f a ≡ some (false, f.c_buffer, r, u.memory)
first_behind u f a b rest r q e = rw (q, e) refl
