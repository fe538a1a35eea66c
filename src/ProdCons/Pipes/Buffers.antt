-- ===== src/ProdCons/Pipes/Buffers.antt =====
-- The circular buffer of nanOS/Kernel/fifo.c as the pipe of producerConsumer.c.
use tpe_arqui.Prelude.{
  ℕ, zero, suc, ◌+◌, ◌-◌, ◌≤◌, ◌<◌, ◌≡◌, refl, sym, ap, ap₂, ◌∙◌, arith, Option, none, some, List,
  [], ◌∷◌, ◌++◌, length, take, drop,
}
use Prim.Native.Nat.{min}
use tpe_arqui.Libc.Copy.{Memory}
use tpe_arqui.Fifo.Buffer.{CircularBuffer, buf_size, write_circular_buffer, read_circular_buffer}
use tpe_arqui.Fifo.Buffer.Write.{IsValid}
use tpe_arqui.Fifo.Buffer.Stream.{
  to_list, contents, bytes_at, Appends, Removes, write_refines, read_refines,
}
use tpe_arqui.ProdCons.Pipes.{pipe_write}

length-to_list : (n : ℕ) (f : ℕ → ℕ) → length (to_list n f) ≡ n
length-to_list zero f = refl
length-to_list (suc n) f = ap suc (length-to_list n (λ k. f (suc k)))

take-to_list : (n k : ℕ) (f : ℕ → ℕ) → k ≤ n → take k (to_list n f) ≡ to_list k f
take-to_list zero zero f l = refl
take-to_list (suc n) zero f l = refl
take-to_list zero (suc k) f l = absurd (omega (arith, l))
take-to_list (suc n) (suc k) f l =
    ap (λ r. f 0 ∷ r) (take-to_list n k (λ i. f (suc i)) (omega (arith, l)))

-- A list split where its first part ends, or behind its end.
take-append : (n : ℕ) (xs ys : List ℕ) → length xs ≡ n → take n (xs ++ ys) ≡ xs
take-append zero [] ys e = refl
take-append zero (x ∷ xs) ys e = absurd (omega (arith, e))
take-append (suc n) [] ys e = absurd (omega (arith, e))
take-append (suc n) (x ∷ xs) ys e = ap (λ r. x ∷ r) (take-append n xs ys (omega (arith, e)))

drop-append : (n : ℕ) (xs ys : List ℕ) → length xs ≡ n → drop n (xs ++ ys) ≡ ys
drop-append zero [] ys e = refl
drop-append zero (x ∷ xs) ys e = absurd (omega (arith, e))
drop-append (suc n) [] ys e = absurd (omega (arith, e))
drop-append (suc n) (x ∷ xs) ys e = drop-append n xs ys (omega (arith, e))

-- What `write` does to the bytes of the pipe.
abbrev pub WritesPipe : CircularBuffer → Memory → ℕ → ℕ → Option (ℕ × CircularBuffer) → Type 0
WritesPipe c m source bytes none = ⊥
WritesPipe c m source bytes (some (n, d)) =
    contents d ≡ pipe_write (contents c) (bytes_at m source bytes)

Appends-WritesPipe :
    (c : CircularBuffer) (m : Memory) (source bytes : ℕ) (out : Option (ℕ × CircularBuffer))
    → Appends c m source bytes out
    → WritesPipe c m source bytes out
Appends-WritesPipe c m source bytes none a = a
Appends-WritesPipe c m source bytes (some (n, d)) (valid, count, appended) =
    let held : length (contents c) ≡ c.buf_fill = length-to_list c.buf_fill _ in
    let given : length (bytes_at m source bytes) ≡ bytes = length-to_list bytes _ in
    let some_of : n ≡ min (length (bytes_at m source bytes)) (buf_size - length (contents c)) =
      count ∙ ap₂ (λ i j. min i (buf_size - j)) (sym given) (sym held) in
    appended
    ∙ ap (λ r. contents c ++ r)
        (sym (take-to_list bytes n (λ k. m (source + k)) (omega (arith, count)))
          ∙ ap (λ k. take k (bytes_at m source bytes)) some_of)

-- What `read` does to them: the first bytes, as many as are asked for and held.
abbrev pub ReadsPipe : CircularBuffer → ℕ → ℕ → Option (ℕ × CircularBuffer × Memory) → Type 0
ReadsPipe c dest bytes none = ⊥
ReadsPipe c dest bytes (some (n, d, k)) =
    (bytes_at k dest n ≡ take (min bytes (length (contents c))) (contents c))
    × (contents d ≡ drop (min bytes (length (contents c))) (contents c))

Removes-ReadsPipe :
    (c : CircularBuffer) (dest bytes : ℕ) (out : Option (ℕ × CircularBuffer × Memory))
    → Removes c dest bytes out
    → ReadsPipe c dest bytes out
Removes-ReadsPipe c dest bytes none r = r
Removes-ReadsPipe c dest bytes (some (n, d, k)) (valid, count, moved) =
    let held : length (contents c) ≡ c.buf_fill = length-to_list c.buf_fill _ in
    let taken : length (bytes_at k dest n) ≡ min bytes (length (contents c)) =
      length-to_list n _ ∙ count ∙ ap (min bytes) (sym held) in
    (
      sym (
          ap (take (min bytes (length (contents c)))) moved
          ∙ take-append _ (bytes_at k dest n) (contents d) taken),
      sym (
          ap (drop (min bytes (length (contents c)))) moved
          ∙ drop-append _ (bytes_at k dest n) (contents d) taken),
    )

-- Where the buffer is valid, has room for a write and holds something for a read, writing and reading
-- at least one byte are those of the pipe: a write adds what there is room for behind the others, and a
-- read takes the first bytes, as many as are asked for and held.
pub pipe_refines :
    (c : CircularBuffer) (m : Memory) (at bytes : ℕ)
    → IsValid c
    → 0 < bytes
    → c.buf_fill + bytes < 2147483648
    → (c.buf_fill < buf_size → WritesPipe c m at bytes (write_circular_buffer c m at bytes))
      × (0 < c.buf_fill → ReadsPipe c at bytes (read_circular_buffer c m at bytes))
pipe_refines c m at bytes valid positive small = (
  λ room. Appends-WritesPipe c m at bytes _ (write_refines c m at bytes valid room positive small),
  λ held. Removes-ReadsPipe c at bytes _ (read_refines c m at bytes valid held positive),
)
