-- ===== src/Fifo/Buffer/Stream.antt =====
-- The circular buffer of nanOS/Kernel/fifo.c as a queue of bytes.
use tpe_arqui.Prelude.{
  ℕ, zero, suc, ◌+◌, ◌-◌, ◌^◌, ◌<◌, ◌≡◌, refl, sym, ap, ap₂, ◌∙◌, arith, Option, none, some, List,
  [], ◌∷◌, ◌++◌,
}
use Prim.Native.Nat.{min}
use native.Mathlib.Nat.{zero-add, suc-add}
use tpe_arqui.Libc.Copy.{Memory}
use tpe_arqui.Fifo.Buffer.{CircularBuffer, buf_size, write_circular_buffer, read_circular_buffer}
use tpe_arqui.Fifo.Buffer.Write.{IsValid, byte, Wrote, Writes, write_circular_buffer_lem}
use tpe_arqui.Fifo.Buffer.Read.{DidRead, Reads, read_circular_buffer_lem}

-- `f 0`, `f 1`, …: `n` of them.
abbrev pub to_list : ℕ → (ℕ → ℕ) → List ℕ
to_list zero f = []
to_list (suc n) f = f 0 ∷ to_list n (λ k. f (suc k))

pub to_list_ext : (n : ℕ) (f g : ℕ → ℕ) → ((k : ℕ) → k < n → f k ≡ g k) → to_list n f ≡ to_list n g
to_list_ext zero f g h = refl
to_list_ext (suc n) f g h =
    ap₂ ◌∷◌ (h 0 (omega arith)) (to_list_ext n _ _ (λ k l. h (suc k) (omega arith)))

to_list-add : (a b : ℕ) (f : ℕ → ℕ) → to_list (a + b) f ≡ to_list a f ++ to_list b (λ k. f (a + k))
to_list-add zero b f = simp zero-add
to_list-add (suc a) b f = simp suc-add (ap (◌∷◌ (f 0)) (to_list-add a b (λ k. f (suc k))))

-- The bytes held, the oldest first.
abbrev pub contents : CircularBuffer → List ℕ
contents c = to_list c.buf_fill (byte c)

-- `n` bytes of memory from `p` on.
abbrev pub bytes_at : Memory → ℕ → ℕ → List ℕ
bytes_at m p n = to_list n (λ k. m (p + k))

Wrote-contents :
    (c : CircularBuffer) (m : Memory) (source bytes n : ℕ) (c' : CircularBuffer)
    → Wrote c m source bytes n c'
    → contents c' ≡ contents c ++ bytes_at m source n
Wrote-contents c m source bytes n c' w =
    ap (λ k. to_list k (byte c')) w.fill
    ∙ to_list-add c.buf_fill n (byte c')
    ∙ ap₂ ◌++◌ (to_list_ext c.buf_fill _ _ w.kept) (to_list_ext n _ _ w.added)

pub DidRead-contents :
    (c : CircularBuffer) (m : Memory) (dest bytes n : ℕ) (c' : CircularBuffer) (m' : Memory)
    → DidRead c m dest bytes n c' m'
    → contents c ≡ bytes_at m' dest n ++ contents c'
DidRead-contents c m dest bytes n c' m' r =
    ap (λ k. to_list k (byte c)) {x = c.buf_fill} {y = n + c'.buf_fill} (omega (arith, r.fill))
    ∙ to_list-add n c'.buf_fill (byte c)
    ∙ ap₂ ◌++◌ (to_list_ext n _ _ (λ k l. sym (r.taken k l)))
        (to_list_ext c'.buf_fill _ _ (λ k l. sym (r.rest k l)))

-- What a write has done to the queue: the bytes it took stand behind those held.
abbrev pub Appends : CircularBuffer → Memory → ℕ → ℕ → Option (ℕ × CircularBuffer) → Type 0
Appends c m source bytes none = ⊥
Appends c m source bytes (some (n, c')) =
    IsValid c'
    × (n ≡ min bytes (buf_size - c.buf_fill))
    × (contents c' ≡ contents c ++ bytes_at m source n)

-- What a read has done to the queue: the bytes it moved to `dest` stood before those left.
abbrev pub Removes : CircularBuffer → ℕ → ℕ → Option (ℕ × CircularBuffer × Memory) → Type 0
Removes c dest bytes none = ⊥
Removes c dest bytes (some (n, c', m')) =
    IsValid c' × (n ≡ min bytes c.buf_fill) × (contents c ≡ bytes_at m' dest n ++ contents c')

Writes-Appends :
    (c : CircularBuffer) (m : Memory) (source bytes : ℕ) (out : Option (ℕ × CircularBuffer))
    → IsValid c
    → Writes c m source bytes out
    → Appends c m source bytes out
Writes-Appends c m source bytes none v w = w
Writes-Appends c m source bytes (some (n, c')) v w =
    (w.valid, ground (arith, w.count, v), Wrote-contents c m source bytes n c' w)

Reads-Removes :
    (c : CircularBuffer) (m : Memory) (dest bytes : ℕ) (out : Option (ℕ × CircularBuffer × Memory))
    → Reads c m dest bytes out
    → Removes c dest bytes out
Reads-Removes c m dest bytes none r = r
Reads-Removes c m dest bytes (some (n, c', m')) r =
    (r.valid, ground (arith, r.count), DidRead-contents c m dest bytes n c' m' r)

-- A write of at least one byte to a valid buffer with room finishes, keeps the invariant and
-- refines the bounded queue of bytes: it appends the first `min bytes room` bytes of the source,
-- and returns their number. (`buf_fill + bytes` must be an `int`.)
pub write_refines :
    (c : CircularBuffer) (m : Memory) (source bytes : ℕ)
    → IsValid c
    → c.buf_fill < buf_size
    → 0 < bytes
    → c.buf_fill + bytes < 2 ^ 31
    → Appends c m source bytes (write_circular_buffer c m source bytes)
write_refines c m source bytes v room some_bytes small =
    Writes-Appends c m source bytes _ v
      (write_circular_buffer_lem c m source bytes v room some_bytes small)

-- A read of at least one byte from a valid buffer that is not empty finishes, keeps the invariant
-- and refines the queue of bytes: the oldest `min bytes fill` of them are now at `dest`, in order,
-- the others are what is left, and their number is the result.
pub read_refines :
    (c : CircularBuffer) (m : Memory) (dest bytes : ℕ)
    → IsValid c
    → 0 < c.buf_fill
    → 0 < bytes
    → Removes c dest bytes (read_circular_buffer c m dest bytes)
read_refines c m dest bytes v held some_bytes =
    Reads-Removes c m dest bytes _ (read_circular_buffer_lem c m dest bytes v held some_bytes)
