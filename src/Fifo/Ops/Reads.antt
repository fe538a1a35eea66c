-- ===== src/Fifo/Ops/Reads.antt =====
-- `fifo_read` of nanOS/Kernel/fifo.c: what a reader gets at once, and when it waits.
pub mod Asking
use tpe_arqui.Prelude.{
  ℕ, zero, suc, ◌<◌, ◌≡◌, ◌≢◌, ◌⊎◌, inl, inr, refl, sym, ap, subst, ◌∙◌, arith, ltb, Bool, true,
  false, Option, none, some, List, [], ◌∷◌, ◌++◌, length, get_or, set, get_or-set_self, pos,
}
use Prim.Native.Nat.{min}
use tpe_arqui.Libc.Copy.{Memory}
use tpe_arqui.Allocator.Pages.{stack_size, store_page}
use tpe_arqui.Process.Status.{block_process}
use tpe_arqui.Process.Files.{file_is_open}
use tpe_arqui.Mutex.KeyCalls.{locks_key, unlocks_key}
use tpe_arqui.Fifo.Buffer.{CircularBuffer, read_circular_buffer}
use tpe_arqui.Fifo.Buffer.Write.{IsValid}
use tpe_arqui.Fifo.Buffer.Stream.{contents, bytes_at, Removes, read_refines}
use tpe_arqui.Fifo.Ops.{
  Fifo, Fifos, ReadRequest, Asked, waits, has_read, Begun, value, asked, fifo_at, no_fifo,
  max_fifos, is_open_fifo, try_read, read_first, ask_to_read, begin_read, finish_read, put_request,
  unlocked_key, put_fifo,
}
use tpe_arqui.Fifo.Ops.Reads.Asking.{
  address, request, asking, same, try_empty, request_put, got, outcome, ask-outcome, first_alone,
  first_behind,
}

-- The reader has its bytes.
pub record HasRead (s : Fifos) (key buf bytes a : ℕ) (t : Fifos) : Type 0 where
  pub c : CircularBuffer
  pub alone : (fifo_at s key).read_queue ≡ []
  pub count : (t.requests a).bytes_read ≡ min bytes (fifo_at s key).c_buffer.buf_fill
  pub some_read : 0 < (t.requests a).bytes_read
  pub valid : IsValid c
  pub moved :
      contents (fifo_at s key).c_buffer
      ≡ bytes_at t.memory buf (t.requests a).bytes_read ++ contents c
  pub pipes :
      t.open_fifos ≡ set s.open_fifos key (let f = fifo_at s key in record f { c_buffer = c })
  pub mutexes : t.mutexes ≡ s.mutexes
  pub calls :
      t.key_calls
      ≡ unlocks_key (fifo_at s key).fifo_mutex_key
        ∷ locks_key (fifo_at s key).fifo_mutex_key
        ∷ s.key_calls

-- The reader waits behind the others.
pub record Waiting (s : Fifos) (current key buf bytes a : ℕ) (t : Fifos) : Type 0 where
  pub cause : ((fifo_at s key).c_buffer.buf_fill ≡ 0) ⊎ ((fifo_at s key).read_queue ≢ [])
  pub wants : ((t.requests a).buffer ≡ buf) × ((t.requests a).bytes ≡ bytes)
  pub reader : (t.requests a).reader_p ≡ current
  pub pipes :
      t.open_fifos
      ≡ set s.open_fifos key
          (let f = fifo_at s key in record f { read_queue = f.read_queue ++ a ∷ [] })
  pub memory : t.memory ≡ s.memory
  pub asleep : t.mutexes.heap ≡ block_process s.mutexes.heap current
  pub calls :
      t.key_calls
      ≡ unlocks_key (fifo_at s key).fifo_mutex_key
        ∷ locks_key (fifo_at s key).fifo_mutex_key
        ∷ s.key_calls

abbrev pub Began : Fifos → ℕ → ℕ → ℕ → ℕ → Option (Begun × Fifos) → Type 0
Began s current key buf bytes none = ⊥
Began s current key buf bytes (some (value v, t)) = ⊥
Began s current key buf bytes (some (asked (has_read a), t)) =
    HasRead s key buf bytes a t
    × (finish_read t current key a
        ≡ some (
          pos (min bytes (fifo_at s key).c_buffer.buf_fill),
          record t { pages = (store_page t.pages a).1 },
        ))
Began s current key buf bytes (some (asked (waits a), t)) = Waiting s current key buf bytes a t

-- An entry that is open is in the table.
in_table : (fs : List Fifo) (k : ℕ) → (get_or fs k no_fifo).is_open ≡ true → k < length fs
in_table [] k o = absurd (ground (arith, o))
in_table (f ∷ fs) zero o = omega arith
in_table (f ∷ fs) (suc k) o = let rest = in_table fs k o in omega (arith, rest)

open_parts :
    (s : Fifos) (current key : ℕ)
    → is_open_fifo s current key ≡ some true
    → (ltb key max_fifos ≡ true)
      × ((fifo_at s key).is_open ≡ true)
      × (file_is_open s.mutexes.heap current key ≡ some true)
unfolding is_open_fifo
open_parts s current key o = ground (arith, o)

-- The pipe stays open where its buffer changes.
stays_open :
    (s t : Fifos) (current key : ℕ) (c : CircularBuffer)
    → is_open_fifo s current key ≡ some true
    → t.mutexes ≡ s.mutexes
    → t.open_fifos ≡ set s.open_fifos key (let f = fifo_at s key in record f { c_buffer = c })
    → is_open_fifo t current key ≡ some true
unfolding is_open_fifo
stays_open s t current key c o m e =
    let (l, is_open, file) = open_parts s current key o in
    let f : Fifo = (let f = fifo_at s key in record f { c_buffer = c }) in
    let here : fifo_at t key ≡ f =
      ap (λ fs. get_or fs key no_fifo) e
      ∙ get_or-set_self s.open_fifos key f no_fifo (in_table s.open_fifos key is_open) in
    let open_here : (fifo_at t key).is_open ≡ true = ap Fifo.is_open here ∙ is_open in
    let file_here : file_is_open t.mutexes.heap current key ≡ some true =
      ap (λ x. file_is_open x.heap current key) m ∙ file in
    rw (is_open_fifo, l, open_here) file_here

finishes :
    (t : Fifos) (current key a n : ℕ)
    → is_open_fifo t current key ≡ some true
    → (t.requests a).bytes_read ≡ n
    → finish_read t current key a ≡ some (pos n, record t { pages = (store_page t.pages a).1 })
unfolding finish_read
finishes t current key a n o e =
    rw (finish_read, o) (ap (λ k. some (pos k, record t { pages = (store_page t.pages a).1 })) e)

abbrev asks : Option (Asked × Fifos) → Option (Begun × Fifos)
asks out = elim out [ none ↦ none | some (a, t) ↦ some (asked a, t) ]

begin_read-open :
    (s : Fifos) (current key buf bytes : ℕ)
    → is_open_fifo s current key ≡ some true
    → 0 < bytes
    → begin_read s current key buf (pos bytes) ≡ asks (ask_to_read s current key buf bytes)
unfolding begin_read is_open_fifo
begin_read-open s current key buf bytes o positive =
    let b : ltb 0 bytes ≡ true = ground (arith, positive) in rw (begin_read, o, b) refl

abbrev read_of :
    ReadRequest
    → Option (ℕ × CircularBuffer × Memory)
    → Option (Bool × CircularBuffer × ReadRequest × Memory)
read_of r out = elim out [ none ↦ none | some (n, d, k) ↦ some (true, d, got n r, k) ]

read-Began :
    (s : Fifos) (current key buf bytes : ℕ) (rd : Option (ℕ × CircularBuffer × Memory))
    → let u = asking s current key buf bytes in
      is_open_fifo s current key ≡ some true
      → 0 < bytes
      → 0 < (fifo_at s key).c_buffer.buf_fill
      → (fifo_at s key).read_queue ≡ []
      → Removes (fifo_at s key).c_buffer buf bytes rd
      → Began s current key buf bytes
          (asks (outcome u key (address s) (read_of (request s current key buf bytes) rd)))
read-Began s current key buf bytes none o positive held q r = r
read-Began s current key buf bytes (some (n, d, k)) o positive held q (valid, count, moved) =
    let a = address s in
    let u = asking s current key buf bytes in
    let f = fifo_at s key in
    let r = got n (request s current key buf bytes) in
    let t : Fifos =
      unlocked_key
        (put_fifo (record u { requests = put_request u.requests a r; memory = k }) key
          (record f { c_buffer = d }))
        f.fifo_mutex_key in
    let here : (t.requests a).bytes_read ≡ n = rw (same a) refl in
    (
      record {
        c = d;
        alone = q;
        count = here ∙ count;
        some_read = omega (arith, here, count, positive, held);
        valid = valid;
        moved = moved ∙ ap (λ i. bytes_at k buf i ++ contents d) (sym here);
        pipes = refl;
        mutexes = refl;
        calls = refl;
      },
      finishes t current key a _ (stays_open s t current key d o refl refl) (here ∙ count),
    )

wait-Began :
    (s : Fifos) (current key buf bytes : ℕ)
    → let u = asking s current key buf bytes in
      let f = fifo_at s key in
      (f.c_buffer.buf_fill ≡ 0) ⊎ (f.read_queue ≢ [])
      → Began s current key buf bytes (
          asks (
            outcome u key
              (address s)
              (some (false, f.c_buffer, request s current key buf bytes, s.memory))))
wait-Began s current key buf bytes cause =
    let a = address s in
    record {
      cause = cause;
      wants = (rw (same a) refl, rw (same a) refl);
      reader = rw (same a) refl;
      pipes = refl;
      memory = refl;
      asleep = refl;
      calls = refl;
    }

try-read_of :
    (c : CircularBuffer) (r : ReadRequest) (m : Memory)
    → ltb 0 c.buf_fill ≡ true
    → try_read c r m ≡ read_of r (read_circular_buffer c m r.buffer r.bytes)
unfolding try_read
try-read_of c r m e = rw (try_read, e) refl

-- The request that is behind no other.
alone-Began :
    (s : Fifos) (current key buf bytes : ℕ) (held : Bool)
    → let u = asking s current key buf bytes in
      let f = fifo_at s key in
      is_open_fifo s current key ≡ some true
      → 0 < bytes
      → IsValid f.c_buffer
      → f.read_queue ≡ []
      → ltb 0 f.c_buffer.buf_fill ≡ held
      → Began s current key buf bytes (
          asks (
            outcome u key
              (address s)
              (try_read f.c_buffer (request s current key buf bytes) s.memory)))
alone-Began s current key buf bytes true o positive valid q e =
    let c = (fifo_at s key).c_buffer in
    let some_held : 0 < c.buf_fill = ground (arith, e) in
    subst
      (λ out.
        Began s current key buf bytes
          (asks (outcome (asking s current key buf bytes) key (address s) out)))
      (sym (try-read_of c (request s current key buf bytes) s.memory e))
      (read-Began s current key buf bytes _ o positive some_held q
        (read_refines c s.memory buf bytes valid some_held positive))
alone-Began s current key buf bytes false o positive valid q e =
    subst
      (λ out.
        Began s current key buf bytes
          (asks (outcome (asking s current key buf bytes) key (address s) out)))
      (sym (try_empty (fifo_at s key).c_buffer (request s current key buf bytes) s.memory e))
      (wait-Began s current key buf bytes (inl (ground (arith, e))))

not_nil : (b : ℕ) (q : List ℕ) → (b ∷ q) ≢ []
not_nil b q = λ e. absurd cc

first-Began :
    (s : Fifos) (current key buf bytes : ℕ) (q : List ℕ)
    → let u = asking s current key buf bytes in
      let f = fifo_at s key in
      is_open_fifo s current key ≡ some true
      → 0 < bytes
      → IsValid f.c_buffer
      → f.read_queue ≡ q
      → Began s current key buf bytes
          (asks (outcome u key (address s) (read_first u f (address s))))
first-Began s current key buf bytes [] o positive valid q =
    let f = fifo_at s key in
    let u = asking s current key buf bytes in
    subst (λ out. Began s current key buf bytes (asks (outcome u key (address s) out)))
      (sym (first_alone u f (address s) _ q (request_put s current key buf bytes)))
      (alone-Began s current key buf bytes _ o positive valid q refl)
first-Began s current key buf bytes (b ∷ rest) o positive valid q =
    let f = fifo_at s key in
    let u = asking s current key buf bytes in
    subst (λ out. Began s current key buf bytes (asks (outcome u key (address s) out)))
      (sym (first_behind u f (address s) b rest _ q (request_put s current key buf bytes)))
      (wait-Began s current key buf bytes (inr (λ e. not_nil b rest (sym q ∙ e))))

-- `fifo_read` of at least one byte of a pipe that the process has open, whose buffer is valid, while a
-- page is free for the request: if no reader waits and the buffer holds something, the oldest bytes, as many as are asked for and held,
-- are moved to the reader, the others are left, and the call finishes with their number; otherwise
-- the request is put behind those that wait, with the buffer and the memory as they were, and
-- `block_process` is called for the process. Either way the mutex of the pipe has been taken and
-- given back.
pub fifo_read_lem :
    (s : Fifos) (current key buf bytes : ℕ)
    → is_open_fifo s current key ≡ some true
    → 0 < bytes
    → IsValid (fifo_at s key).c_buffer
    → s.pages.current_index < stack_size
    → Began s current key buf bytes (begin_read s current key buf (pos bytes))
fifo_read_lem s current key buf bytes o positive valid free =
    subst (Began s current key buf bytes)
      (sym (
        begin_read-open s current key buf bytes o positive
        ∙ ap asks (ask-outcome s current key buf bytes)))
      (first-Began s current key buf bytes _ o positive valid refl)
