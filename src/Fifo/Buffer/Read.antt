-- ===== src/Fifo/Buffer/Read.antt =====
-- `read_circular_buffer` of nanOS/Kernel/fifo.c: what a read takes and where it puts it.
use tpe_arqui.Prelude.{ℕ, ◌+◌, ◌≤◌, ◌<◌, ◌≡◌, ◌⊎◌, arith, Option, none, some}
use tpe_arqui.Libc.Copy.{Memory}
use tpe_arqui.Fifo.Buffer.{CircularBuffer, read_count, read_circular_buffer}
use tpe_arqui.Fifo.Buffer.Write.{IsValid, byte}

-- What a finished read of `bytes` bytes has done.
pub record DidRead (c : CircularBuffer) (m : Memory) (dest bytes n : ℕ) (c' : CircularBuffer)
    (m' : Memory) : Type 0 where
  pub count : n ≡ read_count c bytes
  pub valid : IsValid c'
  pub fill : c'.buf_fill + n ≡ c.buf_fill
  pub rest : (k : ℕ) → k < c'.buf_fill → byte c' k ≡ byte c (n + k)
  pub taken : (k : ℕ) → k < n → m' (dest + k) ≡ byte c k
  pub outside : (a : ℕ) → (a < dest) ⊎ (dest + n ≤ a) → m' a ≡ m a

abbrev pub Reads : CircularBuffer → Memory → ℕ → ℕ → Option (ℕ × CircularBuffer × Memory) → Type 0
Reads c m dest bytes none = ⊥
Reads c m dest bytes (some (n, c', m')) = DidRead c m dest bytes n c' m'

-- On a valid buffer that holds something, a read of at least one byte always finishes: it moves
-- the oldest bytes, as many as are asked for and held, to `dest` in order, writes nowhere else,
-- leaves the younger ones, and keeps the invariant.
pub read_circular_buffer_lem :
    (c : CircularBuffer) (m : Memory) (dest bytes : ℕ)
    → IsValid c
    → 0 < c.buf_fill
    → 0 < bytes
    → Reads c m dest bytes (read_circular_buffer c m dest bytes)
unfolding read_circular_buffer
read_circular_buffer_lem c m dest bytes v held some_bytes = ground arith
