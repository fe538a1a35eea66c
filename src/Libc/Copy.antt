-- ===== src/Libc/Copy.antt =====
-- `memset` and `memcpy` of nanOS/Kernel/lib.c, over a flat memory of bytes.
use tpe_arqui.Prelude.{
  ℕ, zero, suc, ◌+◌, ◌-◌, ◌*◌, ◌/◌, ◌%◌, ◌≤◌, ◌≡◌, ◌⊎◌, arith, ltb, leb, ◌==◌, if◌then◌else◌, ◌&&◌,
}

-- What stands at each address.
abbrev pub Memory : Type 0
Memory = ℕ → ℕ

-- A store of one byte.
abbrev pub store : Memory → ℕ → ℕ → Memory
store m p v a = if p == a then v else m a

-- `while(length--) dst[length] = chr;` with `chr = (uint8_t)c`.
unfoldable pub memset : Memory → ℕ → ℕ → ℕ → Memory
memset m dst c zero = m
memset m dst c (suc length) = memset (store m (dst + length) (c % 256)) dst c length

-- The loop of the `else` branch, at index `i` with `k` rounds left.
unfoldable pub copy_bytes : Memory → ℕ → ℕ → ℕ → ℕ → Memory
copy_bytes m d s i zero = m
copy_bytes m d s i (suc k) = copy_bytes (store m (d + i) (m (s + i))) d s (i + 1) k

-- One `d[i] = s[i]` on `uint32_t`: four bytes are read, then four are written.
abbrev pub store_word : Memory → ℕ → ℕ → Memory
store_word m p q =
    store (store (store (store m p (m q)) (p + 1) (m (q + 1))) (p + 2) (m (q + 2))) (p + 3)
      (m (q + 3))

-- The loop of the aligned branch, at index `i` with `k` rounds left.
unfoldable pub copy_words : Memory → ℕ → ℕ → ℕ → ℕ → Memory
copy_words m d s i zero = m
copy_words m d s i (suc k) = copy_words (store_word m (d + 4 * i) (s + 4 * i)) d s (i + 1) k

unfoldable pub memcpy : Memory → ℕ → ℕ → ℕ → Memory
memcpy m d s n =
    if (d % 4 == 0) && ((s % 4 == 0) && (n % 4 == 0))
    then copy_words m d s 0 (n / 4)
    else copy_bytes m d s 0 n

-- `n` bytes of the object `src` from `s` on, put into the object `dst` from `d` on.
abbrev pub blit : Memory → ℕ → Memory → ℕ → ℕ → Memory
blit dst d src s n a = if leb d a && ltb a (d + n) then src (s + (a - d)) else dst a

-- The two regions have no byte in common.
abbrev pub Apart : ℕ → ℕ → ℕ → Type 0
Apart d s n = (d + n ≤ s) ⊎ (s + n ≤ d)

copy_bytes_lem :
    (m : Memory) (d s i k a : ℕ)
    → Apart d s (i + k)
    → copy_bytes m d s i k a ≡ blit m (d + i) m (s + i) k a
unfolding copy_bytes
copy_bytes_lem m d s i zero a h = ground arith
copy_bytes_lem m d s i (suc k) a h =
    ground (arith, copy_bytes_lem (store m (d + i) (m (s + i))) d s (i + 1) k a)

copy_words_lem :
    (m : Memory) (d s i k a : ℕ)
    → Apart d s (4 * (i + k))
    → copy_words m d s i k a ≡ blit m (d + 4 * i) m (s + 4 * i) (4 * k) a
unfolding copy_words
copy_words_lem m d s i zero a h = ground arith
copy_words_lem m d s i (suc k) a h =
    ground (arith, copy_words_lem (store_word m (d + 4 * i) (s + 4 * i)) d s (i + 1) k a)

-- `memcpy` between regions with no byte in common puts each byte of the source in its place and
-- leaves the rest of the memory as it was, word by word and byte by byte alike.
pub memcpy-eq-blit : (m : Memory) (d s n a : ℕ) → Apart d s n → memcpy m d s n a ≡ blit m d m s n a
unfolding memcpy
memcpy-eq-blit m d s n a h =
    ground (arith, copy_words_lem m d s 0 (n / 4) a, copy_bytes_lem m d s 0 n a)

-- `memset` writes the low byte of `c` at each of the `length` addresses, and nowhere else.
pub memset_lem :
    (m : Memory) (dst c length a : ℕ)
    → memset m dst c length a ≡ (if leb dst a && ltb a (dst + length) then c % 256 else m a)
unfolding memset
memset_lem m dst c zero a = ground arith
memset_lem m dst c (suc length) a =
    ground (arith, memset_lem (store m (dst + length) (c % 256)) dst c length a)
