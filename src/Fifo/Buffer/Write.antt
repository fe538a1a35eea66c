-- ===== src/Fifo/Buffer/Write.antt =====
-- `write_circular_buffer` of nanOS/Kernel/fifo.c: what a write does to the bytes held.
use tpe_arqui.Prelude.{ℕ, ◌+◌, ◌%◌, ◌^◌, ◌≤◌, ◌<◌, ◌≡◌, arith, Option, none, some}
use tpe_arqui.Libc.Copy.{Memory}
use tpe_arqui.Fifo.Buffer.{
  CircularBuffer, buf_size, write_count, write_circular_buffer, create_circular_buffer,
}

pub record IsValid (c : CircularBuffer) : Type 0 where
  pub current_in : c.current < buf_size
  pub fill_in : c.buf_fill ≤ buf_size
  pub free_after : c.free_slot ≡ (c.current + c.buf_fill) % buf_size

-- The `k`-th byte held, the oldest first.
abbrev pub byte : CircularBuffer → ℕ → ℕ
byte c k = c.buffer ((c.current + k) % buf_size)

-- What a finished write of `bytes` bytes has done.
pub record Wrote (c : CircularBuffer) (m : Memory) (source bytes : ℕ) (n : ℕ) (c' : CircularBuffer)
    : Type 0 where
  pub count : n ≡ write_count c bytes
  pub valid : IsValid c'
  pub fill : c'.buf_fill ≡ c.buf_fill + n
  pub kept : (k : ℕ) → k < c.buf_fill → byte c' k ≡ byte c k
  pub added : (k : ℕ) → k < n → byte c' (c.buf_fill + k) ≡ m (source + k)

abbrev pub Writes : CircularBuffer → Memory → ℕ → ℕ → Option (ℕ × CircularBuffer) → Type 0
Writes c m source bytes none = ⊥
Writes c m source bytes (some (n, c')) = Wrote c m source bytes n c'

-- On a valid buffer with room, a write of at least one byte always finishes: it takes as many of
-- the bytes as there is room for, puts them behind those held, in order, leaves those held as they
-- were, and keeps the invariant. (The request must be so small that `buf_fill + bytes` is an `int`.)
pub write_circular_buffer_lem :
    (c : CircularBuffer) (m : Memory) (source bytes : ℕ)
    → IsValid c
    → c.buf_fill < buf_size
    → 0 < bytes
    → c.buf_fill + bytes < 2 ^ 31
    → Writes c m source bytes (write_circular_buffer c m source bytes)
unfolding write_circular_buffer
write_circular_buffer_lem c m source bytes v room some_bytes small = ground arith

-- On a full buffer any write of at least one byte is undefined behaviour: the code takes the
-- two-part copy with nothing to write, and hands `memcpy` a negative length.
pub write_circular_buffer_full :
    (c : CircularBuffer) (m : Memory) (source bytes : ℕ)
    → IsValid c
    → c.buf_fill ≡ buf_size
    → 0 < bytes
    → write_circular_buffer c m source bytes ≡ none
unfolding write_circular_buffer
write_circular_buffer_full c m source bytes v full some_bytes = ground arith

-- A new buffer is valid and holds nothing.
pub create_circular_buffer-IsValid :
    (m : Memory) → IsValid (create_circular_buffer m) × ((create_circular_buffer m).buf_fill ≡ 0)
unfolding create_circular_buffer
create_circular_buffer-IsValid m = ground arith
