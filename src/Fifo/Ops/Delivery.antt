-- ===== src/Fifo/Ops/Delivery.antt =====
-- The bytes that the waiting readers of nanOS/Kernel/fifo.c find in their buffers.
use tpe_arqui.Prelude.{
  ℕ, ◌+◌, ◌≤◌, ◌<◌, ◌≡◌, ◌≢◌, ◌⊎◌, sym, ap, ◌∙◌, arith, List, [], ◌∷◌, ◌++◌, tally,
}
use mathlib.Core.List.{append_assoc}
use tpe_arqui.Libc.Copy.{Memory}
use tpe_arqui.Fifo.Buffer.Stream.{bytes_at, to_list_ext}
use tpe_arqui.Fifo.Ops.{ReadRequest, put_request}

-- What these requests have got, one after the other.
abbrev pub got_bytes : Memory → (ℕ → ReadRequest) → List ℕ → List ℕ
got_bytes m rs [] = []
got_bytes m rs (a ∷ as_) = let r = rs a in bytes_at m r.buffer r.bytes_read ++ got_bytes m rs as_

-- The address is not in the buffer of the request.
abbrev pub Beyond : ReadRequest → ℕ → Type 0
Beyond r x = (x < r.buffer) ⊎ (r.buffer + r.bytes ≤ x)

-- The buffers of two requests do not overlap.
abbrev pub Disjoint : (ℕ → ReadRequest) → List ℕ → Type 0
Disjoint rs q =
    (a b : ℕ)
    → 0 < tally a q
    → 0 < tally b q
    → a ≢ b
    → ((rs a).buffer + (rs a).bytes ≤ (rs b).buffer)
      ⊎ ((rs b).buffer + (rs b).bytes ≤ (rs a).buffer)

-- From one memory to a later one, only the buffers of these requests have changed.
abbrev pub Within : (ℕ → ReadRequest) → List ℕ → Memory → Memory → Type 0
Within rs done m k = (x : ℕ) → ((b : ℕ) → 0 < tally b done → Beyond (rs b) x) → k x ≡ m x

-- What the first reader has got is still there when the others have got theirs.
pub still_there :
    (rs : ℕ → ReadRequest) (a : ℕ) (r : ReadRequest) (done : List ℕ) (m k : Memory)
    → Disjoint rs (a ∷ done)
    → tally a done ≡ 0
    → r.buffer ≡ (rs a).buffer
    → r.bytes_read ≤ (rs a).bytes
    → Within (put_request rs a r) done m k
    → bytes_at k r.buffer r.bytes_read ≡ bytes_at m r.buffer r.bytes_read
still_there rs a r done m k d absent same small within = to_list_ext r.bytes_read _ _ (λ i l.
    within (r.buffer + i)
      (λ b h. let apart = d a b in ground (arith, apart, absent, h, same, small, l)))

-- The first reader's bytes, then the others'.
pub got_bytes-put :
    (rs v : ℕ → ReadRequest) (a : ℕ) (r : ReadRequest) (done : List ℕ) (m k : Memory)
    (held rest left : List ℕ)
    → v a ≡ r
    → bytes_at k r.buffer r.bytes_read ≡ bytes_at m r.buffer r.bytes_read
    → held ≡ bytes_at m r.buffer r.bytes_read ++ rest
    → rest ≡ got_bytes k v done ++ left
    → held ≡ got_bytes k v (a ∷ done) ++ left
got_bytes-put rs v a r done m k held rest left here kept first others =
    first
    ∙ ap (λ xs. xs ++ rest) (sym kept)
    ∙ ap (λ xs. bytes_at k r.buffer r.bytes_read ++ xs) others
    ∙ sym (append_assoc (bytes_at k r.buffer r.bytes_read) (got_bytes k v done) left)
    ∙ ap (λ (x : ReadRequest). (bytes_at k x.buffer x.bytes_read ++ got_bytes k v done) ++ left)
        (sym here)
