-- ===== src/Fifo/Ops/Opens.antt =====
-- `fifo_open` of nanOS/Kernel/fifo.c: which pipe it finds or makes.
pub mod Search
use tpe_arqui.Prelude.{
  ℕ, ◌≤◌, ◌<◌, ◌≡◌, ◌≢◌, refl, sym, ap, subst, arith, Bool, true, false, Option, none, some, List,
  [], ◌∷◌, length, get_or, set, get_or-set_self, get_or-set_ne, ℤ, pos, negsuc,
}
use tpe_arqui.Libc.Copy.{Memory}
use tpe_arqui.Process.Defs.{Heap}
use tpe_arqui.Process.Files.{set_file_open, file_is_open, shiftable}
use tpe_arqui.Mutex.KeyCalls.{locks_key, unlocks_key}
use tpe_arqui.Mutex.{Mutexes, mutex_open, unlocked}
use tpe_arqui.Mutex.Keys.{OpenResult, mutex_open_lem}
use tpe_arqui.Fifo.Buffer.{create_circular_buffer}
use tpe_arqui.Fifo.Ops.{
  Fifo, Fifos, FifoSlot, named, closed, full, fifo_open, fifo_open_at, create_new_fifo, no_fifo,
  fifo_at, fifo_name_len, max_fifos_open_error, open_file, locked_key, unlocked_key, put_fifo,
  set_heap, return_key,
}
use tpe_arqui.Fifo.Ops.Opens.Search.{IsNamed, IsOther, Stops, FindsFifo, find_fifo-FindsFifo}

-- What `set_file_open` has done to the files of the process.
abbrev SetsFile : Heap → ℕ → ℕ → Option (Bool × Heap) → Type 0
SetsFile h p k none = shiftable ≤ k
SetsFile h p k (some (r, g)) =
    (k < shiftable → file_is_open g p k ≡ some true)
    × ((j : ℕ) → j ≢ k → file_is_open g p j ≡ file_is_open h p j)

set_file_open-SetsFile : (h : Heap) (p k : ℕ) → SetsFile h p k (set_file_open h p k)
unfolding set_file_open file_is_open
set_file_open-SetsFile h p k = ground arith

-- What `fifo_open` has done that returned the key `k`.
pub record DidOpen (s : Fifos) (current : ℕ) (name : List ℕ) (k : ℕ) (t : Fifos) : Type 0 where
  pub slot : Stops s.open_fifos name k
  pub holds : IsNamed t.open_fifos name k
  pub kept : IsNamed s.open_fifos name k → t.open_fifos ≡ s.open_fifos
  pub fresh :
      (fifo_at s k).is_open ≡ false
      → ((fifo_at t k).c_buffer.buf_fill ≡ 0) × ((fifo_at t k).read_queue ≡ [])
  pub others : (j : ℕ) → j ≢ k → fifo_at t j ≡ fifo_at s j
  pub file : k < shiftable → file_is_open t.mutexes.heap current k ≡ some true
  pub other_files :
      (j : ℕ)
      → j ≢ k
      → file_is_open t.mutexes.heap current j ≡ file_is_open s.mutexes.heap current j
  pub calls :
      t.key_calls ≡ unlocks_key s.fifo_array_lock ∷ locks_key s.fifo_array_lock ∷ s.key_calls

abbrev pub FifoOpens : Fifos → ℕ → List ℕ → Option (ℤ × Fifos) → Type 0
FifoOpens s current name none = (k : ℕ) × (shiftable ≤ k) × Stops s.open_fifos name k
FifoOpens s current name (some (pos k, t)) = DidOpen s current name k t
FifoOpens s current name (some (negsuc n, t)) =
    (negsuc n ≡ max_fifos_open_error)
    × (t.open_fifos ≡ s.open_fifos)
    × (t.mutexes ≡ s.mutexes)
    × ((j : ℕ) → j < length s.open_fifos → IsOther s.open_fifos name j)

-- `fifo_open` of a pipe that is open, by what `set_file_open` gives.
abbrev after_found : Fifos → ℕ → Option (Bool × Heap) → Option (ℤ × Fifos)
after_found t k none = none
after_found t k (some (r, h)) = some (pos k, unlocked_key (set_heap t h) t.fifo_array_lock)

found-FifoOpens :
    (s : Fifos) (current : ℕ) (name : List ℕ) (k : ℕ) (out : Option (Bool × Heap))
    → Stops s.open_fifos name k
    → IsNamed s.open_fifos name k
    → SetsFile s.mutexes.heap current k out
    → FifoOpens s current name (after_found (locked_key s s.fifo_array_lock) k out)
found-FifoOpens s current name k none stops here sets = (k, sets, stops)
found-FifoOpens s current name k (some (r, h)) stops here sets = record {
  slot = stops;
  holds = here;
  kept = λ x. refl;
  fresh = λ shut. ground (arith, shut, here.0);
  others = λ j d. refl;
  file = sets.0;
  other_files = sets.1;
  calls = refl;
}

-- A new pipe, by what `mutex_open` and `set_file_open` give.
abbrev new_fifo : List ℕ → Memory → ℤ → Fifo
new_fifo name garbage key = record {
  name = name;
  c_buffer = create_circular_buffer garbage;
  is_open = true;
  fifo_mutex_key = key;
  read_queue = [];
}

abbrev after_made : Fifos → ℕ → Fifo → Mutexes → Option (Bool × Heap) → Option (ℤ × Fifos)
after_made s k f mutexes none = none
after_made s k f mutexes (some (r, h)) = some (
  pos k,
  set_heap (unlocked_key (put_fifo (record s { mutexes = mutexes }) k f) s.fifo_array_lock) h,
)

made-FifoOpens :
    (s : Fifos) (current : ℕ) (name : List ℕ) (garbage : Memory) (k : ℕ) (key : ℤ) (ms : Mutexes)
    (out : Option (Bool × Heap))
    → Stops s.open_fifos name k
    → (fifo_at s k).is_open ≡ false
    → SetsFile s.mutexes.heap current k out
    → FifoOpens s current name
        (after_made (locked_key s s.fifo_array_lock) k (new_fifo name garbage key) ms out)
unfolding create_circular_buffer
made-FifoOpens s current name garbage k key ms none stops shut sets = (k, sets, stops)
made-FifoOpens s current name garbage k key ms (some (r, h)) stops shut sets =
    let f = new_fifo name garbage key in
    let here : get_or (set s.open_fifos k f) k no_fifo ≡ f =
      get_or-set_self s.open_fifos k f no_fifo stops.0 in
    record {
      slot = stops;
      holds = (ap Fifo.is_open here, ap Fifo.name here);
      kept = λ x. ground (arith, shut, x.0);
      fresh = λ x. (ap (λ g. g.c_buffer.buf_fill) here, ap Fifo.read_queue here);
      others = λ j d. get_or-set_ne s.open_fifos k j f no_fifo (λ e. d (sym e));
      file = sets.0;
      other_files = sets.1;
      calls = refl;
    }

abbrev after_mutex : Fifos → ℕ → List ℕ → Memory → ℕ → Option (ℤ × Mutexes) → Option (ℤ × Fifos)
after_mutex s current name garbage k none = none
after_mutex s current name garbage k (some (key, ms)) =
    after_made s k (new_fifo name garbage key) ms (set_file_open ms.heap current k)

-- `mutex_open` leaves the processes as they were.
same_heap :
    (s : Mutexes) (name : List ℕ) (key : ℤ) (t : Mutexes)
    → OpenResult s name (some (key, t))
    → t.heap ≡ s.heap
same_heap s name (pos k) t r = r.1.heap
same_heap s name (negsuc n) t r = ap Mutexes.heap r.1

mutex-FifoOpens :
    (s : Fifos) (current : ℕ) (name : List ℕ) (garbage : Memory) (k : ℕ)
    (out : Option (ℤ × Mutexes))
    → Stops s.open_fifos name k
    → (fifo_at s k).is_open ≡ false
    → OpenResult s.mutexes name out
    → FifoOpens s current name
        (after_mutex (locked_key s s.fifo_array_lock) current name garbage k out)
mutex-FifoOpens s current name garbage k none stops shut r = absurd r
mutex-FifoOpens s current name garbage k (some (key, ms)) stops shut r =
    made-FifoOpens s current name garbage k key ms (set_file_open ms.heap current k) stops shut (
      subst (λ h. SetsFile h current k (set_file_open ms.heap current k))
        (same_heap s.mutexes name key ms r) (set_file_open-SetsFile ms.heap current k))

-- `fifo_open_at` in those terms.
open_file_by :
    (t : Fifos) (k : ℕ) (out : Option (Bool × Heap))
    → (elim (elim out as (λ _. Option Fifos) [ none ↦ none | some (_, h) ↦ some (set_heap t h) ])
        as (λ _. Option (ℤ × Fifos)) [
          | none ↦ none
          | some u ↦ some (pos k, unlocked_key u u.fifo_array_lock)
        ])
      ≡ after_found t k out
open_file_by t k none = refl
open_file_by t k (some (r, h)) = refl

return_by :
    (s : Fifos) (k : ℕ) (f : Fifo) (ms : Mutexes) (out : Option (Bool × Heap))
    → let t = unlocked_key (put_fifo (record s { mutexes = ms }) k f) s.fifo_array_lock in
      return_key k
        (elim out as (λ _. Option Fifos) [ none ↦ none | some (_, h) ↦ some (set_heap t h) ])
      ≡ after_made s k f ms out
return_by s k f ms none = refl
return_by s k f ms (some (r, h)) = refl

mutex_by :
    (s : Fifos) (current : ℕ) (name : List ℕ) (garbage : Memory) (k : ℕ)
    (out : Option (ℤ × Mutexes))
    → (elim (elim out as (λ _. Option (Fifo × Fifos)) [
      | none ↦ none
      | some (key, ms) ↦ some (new_fifo name garbage key, record s { mutexes = ms })
    ])
        as (λ _. Option (ℤ × Fifos)) [
          | none ↦ none
          | some (f, t) ↦
              return_key k (open_file (unlocked_key (put_fifo t k f) t.fifo_array_lock) current k)
        ])
      ≡ after_mutex s current name garbage k out
mutex_by s current name garbage k none = refl
mutex_by s current name garbage k (some (key, ms)) =
    return_by s k (new_fifo name garbage key) ms (set_file_open ms.heap current k)

open_found :
    (s : Fifos) (current : ℕ) (name : List ℕ) (garbage : Memory) (k : ℕ)
    → fifo_open_at s current name garbage (named k)
      ≡ after_found s k (set_file_open s.mutexes.heap current k)
open_found s current name garbage k = open_file_by s k (set_file_open s.mutexes.heap current k)

open_made :
    (s : Fifos) (current : ℕ) (name : List ℕ) (garbage : Memory) (k : ℕ)
    → fifo_open_at s current name garbage (closed k)
      ≡ after_mutex s current name garbage k (mutex_open s.mutexes name)
unfolding create_new_fifo
open_made s current name garbage k = mutex_by s current name garbage k (mutex_open s.mutexes name)

slot-FifoOpens :
    (s : Fifos) (current : ℕ) (name : List ℕ) (garbage : Memory) (slot : FifoSlot)
    → length name < fifo_name_len
    → s.mutexes.array_mutex ≡ unlocked
    → FindsFifo s.open_fifos name slot
    → FifoOpens s current name
        (fifo_open_at (locked_key s s.fifo_array_lock) current name garbage slot)
slot-FifoOpens s current name garbage (named k) fits u (stops, here) =
    let t = locked_key s s.fifo_array_lock in
    subst (FifoOpens s current name) (sym (open_found t current name garbage k)) (
      found-FifoOpens s current name k _ stops here
        (set_file_open-SetsFile s.mutexes.heap current k))
slot-FifoOpens s current name garbage (closed k) fits u (stops, shut) =
    let t = locked_key s s.fifo_array_lock in
    subst (FifoOpens s current name) (sym (open_made t current name garbage k))
      (mutex-FifoOpens s current name garbage k _ stops shut (mutex_open_lem s.mutexes name fits u))
slot-FifoOpens s current name garbage full fits u others = (refl, refl, refl, others)

-- While the array of the mutexes is not locked, `fifo_open` comes back with the key of the first slot
-- that holds an open pipe of that name or no open pipe. A pipe that was open there is left as it was;
-- a new one has that name and is empty; the other pipes are as before, and for a key below 31 the
-- process has the file open. If all slots hold open pipes of other names, it returns -2 and changes
-- no pipe and no mutex. Only where that slot is 31 or later can it fail, by the shift of
-- `set_file_open`. (The name is shorter than the 64 bytes of its arrays.)
pub fifo_open_lem :
    (s : Fifos) (current : ℕ) (name : List ℕ) (garbage : Memory)
    → length name < fifo_name_len
    → s.mutexes.array_mutex ≡ unlocked
    → FifoOpens s current name (fifo_open s current name garbage)
unfolding fifo_open
fifo_open_lem s current name garbage fits u =
    slot-FifoOpens s current name garbage _ fits u (find_fifo-FindsFifo s.open_fifos name)
