-- ===== src/Fifo/Buffer.antt =====
-- The circular buffer of nanOS/Kernel/fifo.c: `circular_buffer` and its two operations.
pub mod Write
pub mod Read
pub mod Stream
use tpe_arqui.Prelude.{ℕ, ◌+◌, ◌-◌, ◌%◌, ◌^◌, ltb, leb, if◌then◌else◌, Option, none, some}
use tpe_arqui.Libc.Copy.{Memory, blit}

-- `BUF_SIZE`
abbrev pub buf_size : ℕ
buf_size = 1024

-- Indices are `int`s that the code never makes negative.
pub record CircularBuffer : Type 0 where
  pub buffer : Memory
  pub free_slot : ℕ
  pub current : ℕ
  pub buf_fill : ℕ

unfoldable pub create_circular_buffer : Memory → CircularBuffer
create_circular_buffer m = record { buffer = m; free_slot = 0; current = 0; buf_fill = 0 }

-- `memcpy` into the array of `BUF_SIZE` bytes. A copy that leaves the array is undefined
-- behaviour, `none`; `n` is the `uint64_t` that `memcpy` is given.
abbrev pub copy_in : Memory → ℕ → Memory → ℕ → ℕ → Option Memory
copy_in buffer at_ source s n =
    if leb (at_ + n) buf_size then some (blit buffer at_ source s n) else none

-- `memcpy` out of that array, likewise.
abbrev pub copy_out : Memory → ℕ → Memory → ℕ → ℕ → Option Memory
copy_out dest d buffer at_ n =
    if leb (at_ + n) buf_size then some (blit dest d buffer at_ n) else none

-- The `int` difference `a - b` as `memcpy`'s `uint64_t` length.
abbrev pub length_of_sub : ℕ → ℕ → ℕ
length_of_sub a b = (a + 2 ^ 64 - b) % 2 ^ 64

-- The two halves of a copy that goes round the end of the array.
abbrev pub copy_in_twice : Memory → ℕ → Memory → ℕ → ℕ → Option Memory
copy_in_twice buffer aux memory source write_bytes =
    let first_bytes = buf_size - aux in
    elim (copy_in buffer aux memory source first_bytes) [
      | none ↦ none
      | some b ↦ copy_in b 0 memory (source + first_bytes) (length_of_sub write_bytes first_bytes)
    ]

abbrev pub copy_out_twice : Memory → ℕ → Memory → ℕ → ℕ → Option Memory
copy_out_twice memory dest buffer aux read_bytes =
    let first_bytes = buf_size - aux in
    elim (copy_out memory dest buffer aux first_bytes) [
      | none ↦ none
      | some m ↦ copy_out m (dest + first_bytes) buffer 0 (length_of_sub read_bytes first_bytes)
    ]

-- The sum `buf_fill + bytes` is on `int`: its overflow is undefined behaviour, `none`.
abbrev pub write_count : CircularBuffer → ℕ → ℕ
write_count c bytes = if ltb buf_size (c.buf_fill + bytes) then buf_size - c.buf_fill else bytes

unfoldable pub write_circular_buffer : CircularBuffer → Memory → ℕ → ℕ → Option (ℕ × CircularBuffer)
write_circular_buffer c memory source bytes =
    let write_bytes = write_count c bytes in
    let aux = c.free_slot in
    let free_slot = (c.free_slot + write_bytes) % buf_size in
    let copied =
      if ltb aux free_slot
      then copy_in c.buffer aux memory source write_bytes
      else copy_in_twice c.buffer aux memory source write_bytes in
    if leb (2 ^ 31) (c.buf_fill + bytes) then none else elim copied [
      | none ↦ none
      | some b ↦ some (
        write_bytes,
        record c { buffer = b; free_slot = free_slot; buf_fill = c.buf_fill + write_bytes },
      )
    ]

abbrev pub read_count : CircularBuffer → ℕ → ℕ
read_count c bytes = if ltb c.buf_fill bytes then c.buf_fill else bytes

-- The third part of the result is the memory that holds `dest`.
unfoldable pub read_circular_buffer :
    CircularBuffer → Memory → ℕ → ℕ → Option (ℕ × CircularBuffer × Memory)
read_circular_buffer c memory dest bytes =
    let read_bytes = read_count c bytes in
    let aux = c.current in
    let current = (c.current + read_bytes) % buf_size in
    let copied =
      if ltb aux current
      then copy_out memory dest c.buffer aux read_bytes
      else copy_out_twice memory dest c.buffer aux read_bytes in
    elim copied [
      | none ↦ none
      | some m ↦
          some (read_bytes, record c { current = current; buf_fill = c.buf_fill - read_bytes }, m)
    ]
