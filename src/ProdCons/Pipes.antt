-- ===== src/ProdCons/Pipes.antt =====
-- The producer and the consumer over two pipes: nanOS/Userland/SampleCodeModule/producerConsumer.c. A
-- pipe is the queue of bytes that the circular buffer of fifo.c refines.
pub mod Order
pub mod Buffers
use tpe_arqui.Prelude.{
  ℕ, zero, suc, ◌+◌, ◌-◌, ◌*◌, ◌/◌, ◌%◌, Option, none, some, List, [], ◌∷◌, ◌++◌, length, take,
  drop,
}
use Prim.Native.Nat.{min}
use tpe_arqui.Fifo.Buffer.{buf_size}

-- The two pipes, and the bytes of the consumer's variable `item`.
pub record Pipes : Type 0 where
  pub empty_fifo : List ℕ
  pub full_fifo : List ℕ
  pub item : List ℕ

-- `write` to a pipe takes what there is room for.
abbrev pub pipe_write : List ℕ → List ℕ → List ℕ
pipe_write pipe bytes = pipe ++ take (min (length bytes) (buf_size - length pipe)) bytes

abbrev pub empty_slot : ℕ
empty_slot = b'E'

-- The loop that fills the pipe of empty slots.
unfoldable pub fill_slots : ℕ → List ℕ → List ℕ
fill_slots zero pipe = pipe
fill_slots (suc n) pipe = fill_slots n (pipe_write pipe (empty_slot ∷ []))

unfoldable pub opened_pipes : ℕ → List ℕ → Pipes
unfolding fill_slots
opened_pipes size item = record { empty_fifo = fill_slots size []; full_fifo = []; item = item }

-- The bytes of an `int`, and back.
abbrev pub int_bytes : ℕ → List ℕ
int_bytes v = (v % 256) ∷ (v / 256 % 256) ∷ (v / 65536 % 256) ∷ (v / 16777216 % 256) ∷ []

abbrev pub int_of : List ℕ → ℕ
int_of [] = 0
int_of (b ∷ bs) = b + 256 * int_of bs

-- `none` while the reader waits.
unfoldable pub producer_reads : Pipes → Option Pipes
producer_reads s = elim s.empty_fifo [
  | [] ↦ none
  | slot ∷ rest ↦ some (record s { empty_fifo = rest })
]

unfoldable pub producer_writes : ℕ → Pipes → Pipes
producer_writes item s = record s { full_fifo = pipe_write s.full_fifo (int_bytes item) }

-- Four bytes, or what there is; the others of `item` stay.
unfoldable pub consumer_reads : Pipes → Option Pipes
consumer_reads s = elim s.full_fifo [
  | [] ↦ none
  | b ∷ bs ↦
      let got = take 4 (b ∷ bs) in
      some (record s { full_fifo = drop 4 (b ∷ bs); item = got ++ drop (length got) s.item })
]

unfoldable pub consumer_writes : Pipes → Pipes
consumer_writes s = record s { empty_fifo = pipe_write s.empty_fifo (empty_slot ∷ []) }
