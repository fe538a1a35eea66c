-- ===== src/Fifo/Ops/Trying.antt =====
-- `try_read` of nanOS/Kernel/fifo.c: what one reader gets.
use tpe_arqui.Prelude.{
  ℕ, ◌+◌, ◌≤◌, ◌<◌, ◌≡◌, refl, sym, arith, ltb, Bool, true, false, Option, none, some, ◌++◌,
}
use tpe_arqui.Libc.Copy.{Memory}
use tpe_arqui.Fifo.Buffer.{CircularBuffer}
use tpe_arqui.Fifo.Buffer.Write.{IsValid}
use tpe_arqui.Fifo.Buffer.Stream.{contents, bytes_at, DidRead-contents}
use tpe_arqui.Fifo.Ops.Delivery.{Beyond}
use tpe_arqui.Fifo.Buffer.Read.{Reads, read_circular_buffer_lem}
use tpe_arqui.Fifo.Ops.{ReadRequest, try_read}

-- What one call of `try_read` by the first reader does.
pub record Tried (c : CircularBuffer) (r : ReadRequest) (done : Bool) (c' : CircularBuffer)
    (r' : ReadRequest) (m m' : Memory) : Type 0 where
  pub valid : IsValid c'
  pub reads_if_held : done ≡ ltb 0 c.buf_fill
  pub conserved : done ≡ true → c.buf_fill ≡ r'.bytes_read + c'.buf_fill
  pub got : done ≡ true → 0 < r'.bytes_read
  pub not_done : done ≡ false → (c' ≡ c)
  pub same_reader : r'.reader_p ≡ r.reader_p
  pub same_buffer : r'.buffer ≡ r.buffer
  pub small : done ≡ true → r'.bytes_read ≤ r.bytes
  pub moved : done ≡ true → contents c ≡ bytes_at m' r'.buffer r'.bytes_read ++ contents c'
  pub outside : (x : ℕ) → Beyond r x → m' x ≡ m x

abbrev pub Tries :
    CircularBuffer
    → ReadRequest
    → Memory
    → Option (Bool × CircularBuffer × ReadRequest × Memory)
    → Type 0
Tries c r m none = ⊥
Tries c r m (some (done, c', r', m')) = Tried c r done c' r' m m'

Reads-Tries :
    (c : CircularBuffer) (r : ReadRequest) (m : Memory) (out : Option (ℕ × CircularBuffer × Memory))
    → Reads c m r.buffer r.bytes out
    → 0 < r.bytes
    → ltb 0 c.buf_fill ≡ true
    → Tries c r m (elim out [
      | none ↦ none
      | some (n, c', m') ↦ some (true, c', record r { bytes_read = n }, m')
    ])
Reads-Tries c r m none d b h = absurd d
Reads-Tries c r m (some (n, c', m')) d b h = record {
  valid = d.valid;
  reads_if_held = sym h;
  conserved = λ e. omega (arith, d.fill);
  got = λ e. ground (arith, d.count, b, h);
  not_done = λ e. ground arith;
  same_reader = refl;
  same_buffer = refl;
  small = λ e. ground (arith, d.count);
  moved = λ e. DidRead-contents c m r.buffer r.bytes n c' m' d;
  outside = λ x b'. d.outside x (ground (arith, b', d.count));
}

try_read_either :
    (c : CircularBuffer) (r : ReadRequest) (m : Memory) (b : Bool)
    → IsValid c
    → 0 < r.bytes
    → ltb 0 c.buf_fill ≡ b
    → Tries c r m (try_read c r m)
unfolding try_read
try_read_either c r m true v b e = rw e (
    Reads-Tries c r m _ (read_circular_buffer_lem c m r.buffer r.bytes v (ground (arith, e)) b) b e)
try_read_either c r m false v b e = rw e (record {
  valid = v;
  reads_if_held = sym e;
  conserved = λ x. ground arith;
  got = λ x. ground arith;
  not_done = λ x. refl;
  same_reader = refl;
  same_buffer = refl;
  small = λ x. ground arith;
  moved = λ x. ground arith;
  outside = λ x b'. refl;
})

-- `try_read` of a request for at least one byte, on a valid buffer, reads exactly when the buffer
-- holds something, and then gives the request what it takes from the buffer.
pub try_read_lem :
    (c : CircularBuffer) (r : ReadRequest) (m : Memory)
    → IsValid c
    → 0 < r.bytes
    → Tries c r m (try_read c r m)
try_read_lem c r m v b = try_read_either c r m (ltb 0 c.buf_fill) v b refl
