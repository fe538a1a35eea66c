-- ===== src/Fifo/Ops/Readers.antt =====
-- `send_to_readers` and `release_readers` of nanOS/Kernel/fifo.c: whom they wake, with what.
use tpe_arqui.Prelude.{
  ℕ, ◌+◌, ◌≤◌, ◌<◌, ◌≡◌, ◌≢◌, ◌∙◌, ◌⊎◌, inl, inr, refl, ap, arith, Bool, true, false, Option, none,
  some, List, [], ◌∷◌, ◌++◌, tally, tally-append,
}
use tpe_arqui.Libc.Copy.{Memory}
use tpe_arqui.Process.Defs.{Heap, null, ready}
use tpe_arqui.Process.Status.{unblock_process, is_delete_process}
use tpe_arqui.Fifo.Buffer.{CircularBuffer}
use tpe_arqui.Fifo.Buffer.Write.{IsValid}
use tpe_arqui.Fifo.Buffer.Stream.{contents}
use tpe_arqui.Fifo.Ops.Delivery.{got_bytes, Disjoint, Within, still_there, got_bytes-put}
use tpe_arqui.Fifo.Ops.{ReadRequest, Serving, serve, send_to_readers, release_readers}
use tpe_arqui.Fifo.Ops.Trying.{Tried, Tries, try_read_lem}

-- The bytes that these requests have got.
abbrev pub total_read : (ℕ → ReadRequest) → List ℕ → ℕ
total_read rs [] = 0
total_read rs (a ∷ as_) = (rs a).bytes_read + total_read rs as_

-- From one heap to a later one, processes that are not marked for deletion stay so, and those that
-- are ready stay ready.
pub record Later (h k : Heap) : Type 0 where
  pub live : (p : ℕ) → is_delete_process h p ≡ false → is_delete_process k p ≡ false
  pub still_ready : (p : ℕ) → (h p).st ≡ ready → (k p).st ≡ ready

-- What `send_to_readers` has done to the queue `q` of waiting requests.
pub record Flushed (s : Serving) (q : List ℕ) (v : Serving) : Type 0 where
  pub done : List ℕ
  pub order : q ≡ done ++ v.read_queue
  pub valid : IsValid v.c_buffer
  pub drained : (v.c_buffer.buf_fill ≡ 0) ⊎ (v.read_queue ≡ [])
  pub others : (a : ℕ) → tally a done ≡ 0 → v.requests a ≡ s.requests a
  pub readers : (a : ℕ) → (v.requests a).reader_p ≡ (s.requests a).reader_p
  pub buffers : (a : ℕ) → (v.requests a).buffer ≡ (s.requests a).buffer
  pub delivered : contents s.c_buffer ≡ got_bytes v.memory v.requests done ++ contents v.c_buffer
  pub within : Within s.requests done s.memory v.memory
  pub got : (a : ℕ) → 0 < tally a done → 0 < (v.requests a).bytes_read
  pub conserved : s.c_buffer.buf_fill ≡ total_read v.requests done + v.c_buffer.buf_fill
  pub later : Later s.heap v.heap
  pub woken :
      (a : ℕ)
      → 0 < tally a done
      → (s.requests a).reader_p ≢ null
      → is_delete_process s.heap (s.requests a).reader_p ≡ false
      → (v.heap (s.requests a).reader_p).st ≡ ready

abbrev pub Flushes : Serving → List ℕ → Option Serving → Type 0
Flushes s q none = ⊥
Flushes s q (some v) = Flushed s q v

unblock_process-Later : (h : Heap) (p : ℕ) → Later h (unblock_process h p)
unfolding unblock_process is_delete_process
unblock_process-Later h p = record {
  live = λ q l. ground (arith, l);
  still_ready = λ q r. ground (arith, r);
}

unblock_process-woken :
    (h : Heap) (p : ℕ)
    → p ≢ null
    → is_delete_process h p ≡ false
    → (unblock_process h p p).st ≡ ready
unfolding unblock_process is_delete_process
unblock_process-woken h p n l = ground (arith, l)

Flushed-drained :
    (s : Serving) (q : List ℕ)
    → IsValid s.c_buffer
    → (s.c_buffer.buf_fill ≡ 0) ⊎ (q ≡ [])
    → Flushed s q (record s { read_queue = q })
Flushed-drained s q v d = record {
  done = [];
  order = refl;
  valid = v;
  drained = d;
  others = λ a h. refl;
  readers = λ a. refl;
  buffers = λ a. refl;
  delivered = refl;
  within = λ x h. refl;
  got = λ a h. absurd (omega arith);
  conserved = omega arith;
  later = record { live = λ p l. l; still_ready = λ p r. r };
  woken = λ a h. absurd (omega arith);
}

total_read_same :
    (f g : ℕ → ReadRequest) (as_ : List ℕ)
    → ((a : ℕ) → 0 < tally a as_ → f a ≡ g a)
    → total_read f as_ ≡ total_read g as_
total_read_same f g [] h = refl
total_read_same f g (a ∷ as_) h =
    ground (arith, h a, total_read_same f g as_ (λ b m. h b (omega arith)))

Later-Later : {h k l : Heap} → Later h k → Later k l → Later h l
Later-Later f g = record {
  live = λ p x. g.live p (f.live p x);
  still_ready = λ p x. g.still_ready p (f.still_ready p x);
}

served_woken :
    (s : Serving) (a : ℕ) (rest : List ℕ) (c : CircularBuffer) (r : ReadRequest) (m : Memory)
    (v : Serving)
    → r.reader_p ≡ (s.requests a).reader_p
    → (f : Flushed (serve s a rest c r m) rest v) → (b : ℕ) → 0 < tally b (a ∷ f.done)
    → (s.requests b).reader_p ≢ null
    → is_delete_process s.heap (s.requests b).reader_p ≡ false
    → (v.heap (s.requests b).reader_p).st ≡ ready
served_woken s a rest c r m v reader f b h n l =
    let woken_now = unblock_process-woken s.heap (s.requests b).reader_p n l in
    let stays = f.later.still_ready (s.requests b).reader_p in
    let woken_later = f.woken b in
    let live = (unblock_process-Later s.heap r.reader_p).live (s.requests b).reader_p l in
    ground (arith, h, woken_now, stays, woken_later, reader, live, n)

-- Who has been served was in the queue.
counted :
    (a b : ℕ) (done left rest : List ℕ)
    → rest ≡ done ++ left
    → 0 < tally b (a ∷ done)
    → 0 < tally b (a ∷ rest)
counted a b done left rest e h =
    let all = ap (tally b) e in let split = tally-append b done left in omega (arith, all, split, h)

-- The first reader served, then the others.
Flushed-serve :
    (s : Serving) (a : ℕ) (rest : List ℕ) (c : CircularBuffer) (r : ReadRequest) (m : Memory)
    (v : Serving)
    → tally a rest ≡ 0
    → Tried s.c_buffer (s.requests a) true c r s.memory m
    → Disjoint s.requests (a ∷ rest)
    → Flushed (serve s a rest c r m) rest v
    → Flushed s (a ∷ rest) v
Flushed-serve s a rest c r m v new tried apart f =
    let reader = tried.same_reader in
    let some_bytes = tried.got refl in
    let fill = tried.conserved refl in
    let absent : tally a f.done ≡ 0 =
      omega (arith, tally-append a f.done v.read_queue, ap (tally a) f.order, new) in
    let served = serve s a rest c r m in
    let here : v.requests a ≡ r = ground (arith, f.others a absent) in
    let apart' : Disjoint s.requests (a ∷ f.done) = λ b d x y n.
      apart b d (counted a b f.done v.read_queue rest f.order x)
        (counted a d f.done v.read_queue rest f.order y) n in
    let kept =
      still_there s.requests a r f.done m v.memory apart' absent tried.same_buffer
        (tried.small refl) f.within in
    record {
      done = a ∷ f.done;
      order = ap (◌∷◌ a) f.order;
      valid = f.valid;
      drained = f.drained;
      others = λ b h. ground (arith, h, f.others b);
      readers = λ b. ground (arith, f.readers b, reader);
      buffers = λ b. ground (arith, f.buffers b, tried.same_buffer);
      delivered =
          got_bytes-put s.requests v.requests a r f.done m v.memory (contents s.c_buffer)
            (contents c) (contents v.c_buffer) here kept (tried.moved refl) f.delivered;
      within = λ x h.
          f.within x (λ b k.
            let far = h b (ground (arith, k)) in
            let ne : b ≢ a = λ e. absurd (omega (arith, k, absent, ap (λ z. tally z f.done) e)) in
            ground (arith, far, ne))
          ∙ tried.outside x (h a (ground arith));
      got = λ b h. ground (arith, h, f.got b, f.others a, absent, some_bytes);
      conserved = ground (arith, f.conserved, f.others a, absent, fill);
      later = Later-Later (unblock_process-Later s.heap r.reader_p) f.later;
      woken = λ b h n l. served_woken s a rest c r m v reader f b h n l;
    }

Flushes-serve :
    (s : Serving) (a : ℕ) (rest : List ℕ) (c : CircularBuffer) (r : ReadRequest) (m : Memory)
    (out : Option Serving)
    → tally a rest ≡ 0
    → Tried s.c_buffer (s.requests a) true c r s.memory m
    → Disjoint s.requests (a ∷ rest)
    → Flushes (serve s a rest c r m) rest out
    → Flushes s (a ∷ rest) out
Flushes-serve s a rest c r m none new tried apart f = f
Flushes-serve s a rest c r m (some v) new tried apart f =
    Flushed-serve s a rest c r m v new tried apart f

Flushes-Tries :
    (s : Serving) (a : ℕ) (rest : List ℕ)
    (out : Option (Bool × CircularBuffer × ReadRequest × Memory))
    → Tries s.c_buffer (s.requests a) s.memory out
    → IsValid s.c_buffer
    → ((b : ℕ) → tally b (a ∷ rest) ≤ 1)
    → ((b : ℕ) → 0 < tally b (a ∷ rest) → 0 < (s.requests b).bytes)
    → Disjoint s.requests (a ∷ rest)
    → ((t : Serving)
        → IsValid t.c_buffer
        → ((b : ℕ) → tally b rest ≤ 1)
        → ((b : ℕ) → 0 < tally b rest → 0 < (t.requests b).bytes)
        → Disjoint t.requests rest
        → Flushes t rest (send_to_readers t rest))
    → Flushes s (a ∷ rest) (elim out [
      | none ↦ none
      | some (done, c, r, m) ↦ elim done [
        | true ↦ send_to_readers (serve s a rest c r m) rest
        | false ↦ some (record s { read_queue = a ∷ rest })
      ]
    ])
Flushes-Tries s a rest none t v u b x ih = absurd t
Flushes-Tries s a rest (some (true, c, r, m)) t v u b x ih =
    let new : tally a rest ≡ 0 = ground (arith, u a) in
    Flushes-serve s a rest c r m _ new t x (
      ih (serve s a rest c r m) t.valid (λ d. omega (arith, u d))
        (λ d k. ground (arith, k, new, b d)) (λ d e k l n. ground (arith, k, l, new, n, x d e)))
Flushes-Tries s a rest (some (false, c, r, m)) t v u b x ih =
    Flushed-drained s (a ∷ rest) v (inl (ground (arith, t.reads_if_held)))

-- Draining a valid buffer into the queue of readers always finishes. It serves the first readers of
-- the queue, in order, until the buffer is empty or no reader is left. The bytes that now stand in
-- their buffers, one reader after the other, and then those left in the pipe, are the bytes that the
-- pipe held; each reader served has got at least one and, unless it is marked for deletion, is
-- ready to run. No memory outside their buffers and no other request has changed. (The requests are
-- distinct, their buffers do not overlap, and each asks for at least one byte, which `fifo_read`
-- tests.)
pub send_to_readers_lem :
    (s : Serving) (q : List ℕ)
    → IsValid s.c_buffer
    → ((a : ℕ) → tally a q ≤ 1)
    → ((a : ℕ) → 0 < tally a q → 0 < (s.requests a).bytes)
    → Disjoint s.requests q
    → Flushes s q (send_to_readers s q)
unfolding send_to_readers
send_to_readers_lem s [] v u b x = Flushed-drained s [] v (inr refl)
send_to_readers_lem s (a ∷ rest) v u b apart =
    Flushes-Tries s a rest _
      (try_read_lem s.c_buffer (s.requests a) s.memory v (b a (ground arith))) v u b apart
      (λ t x y z w. send_to_readers_lem t rest x y z w)

release_readers-Later :
    (rs : ℕ → ReadRequest) (h : Heap) (q : List ℕ) → Later h (release_readers rs h q)
unfolding release_readers
release_readers-Later rs h [] = record { live = λ p l. l; still_ready = λ p r. r }
release_readers-Later rs h (a ∷ q) =
    Later-Later (unblock_process-Later h (rs a).reader_p)
      (release_readers-Later rs (unblock_process h (rs a).reader_p) q)

-- `release_readers`, which `fifo_close` calls, leaves every waiting reader ready to run, unless it
-- is marked for deletion.
pub release_readers_lem :
    (rs : ℕ → ReadRequest) (h : Heap) (q : List ℕ) (a : ℕ)
    → 0 < tally a q
    → (rs a).reader_p ≢ null
    → is_delete_process h (rs a).reader_p ≡ false
    → (release_readers rs h q (rs a).reader_p).st ≡ ready
unfolding release_readers
release_readers_lem rs h [] a m n l = absurd (omega arith)
release_readers_lem rs h (b ∷ q) a m n l =
    let woken_now = unblock_process-woken h (rs a).reader_p n l in
    let live = (unblock_process-Later h (rs b).reader_p).live (rs a).reader_p l in
    let stays =
      (release_readers-Later rs (unblock_process h (rs b).reader_p) q).still_ready
        (rs a).reader_p in
    let later = release_readers_lem rs (unblock_process h (rs b).reader_p) q a in
    ground (arith, m, woken_now, stays, later, live, n)
