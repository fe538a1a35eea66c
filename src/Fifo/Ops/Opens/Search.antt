-- ===== src/Fifo/Ops/Opens/Search.antt =====
-- The search of `fifo_open` in nanOS/Kernel/fifo.c.
use tpe_arqui.Prelude.{
  ℕ, zero, suc, ◌+◌, ◌<◌, ◌≡◌, ◌≢◌, refl, sym, ap, subst, ◌∙◌, arith, true, false, List, [], ◌∷◌,
  length, map, get_or,
}
use tpe_arqui.Mutex.{Mutex, Mutexes, Slot, find_slot, mutex_open, unlocked, locked, no_mutex}
use tpe_arqui.Mutex
use tpe_arqui.Mutex.Keys.{NamedElse, Finds, find_slot-Finds}
use tpe_arqui.Fifo.Ops.{Fifo, FifoSlot, named, closed, full, find_fifo, no_fifo}

-- The loop of `fifo_open` is that of `mutex_open`, over the names and the states.
abbrev as_mutex : Fifo → Mutex
as_mutex f = record { name = f.name; lock = locked; is_open = f.is_open; process_queue = [] }

abbrev as_slot : Slot → FifoSlot
as_slot (Mutex.named k) = named k
as_slot (Mutex.closed k) = closed k
as_slot Mutex.full = full

find_fifo-find_slot :
    (fs : List Fifo) (name : List ℕ) (k : ℕ)
    → find_fifo fs name k ≡ as_slot (find_slot (map as_mutex fs) name k)
unfolding find_fifo find_slot
find_fifo-find_slot [] name k = refl
find_fifo-find_slot (f ∷ fs) name k = ground (arith, find_fifo-find_slot fs name (k + 1))

get_or-as_mutex :
    (fs : List Fifo) (k : ℕ) → get_or (map as_mutex fs) k no_mutex ≡ as_mutex (get_or fs k no_fifo)
get_or-as_mutex [] k = refl
get_or-as_mutex (f ∷ fs) zero = refl
get_or-as_mutex (f ∷ fs) (suc k) = get_or-as_mutex fs k

length-as_mutex : (fs : List Fifo) → length (map as_mutex fs) ≡ length fs
length-as_mutex [] = refl
length-as_mutex (f ∷ fs) = ap suc (length-as_mutex fs)

-- Pipe `k` is open under that name, or under another one.
abbrev pub IsNamed : List Fifo → List ℕ → ℕ → Type 0
IsNamed fs name k = ((get_or fs k no_fifo).is_open ≡ true) × ((get_or fs k no_fifo).name ≡ name)

abbrev pub IsOther : List Fifo → List ℕ → ℕ → Type 0
IsOther fs name k = ((get_or fs k no_fifo).is_open ≡ true) × ((get_or fs k no_fifo).name ≢ name)

-- The slot at which the loop stops.
abbrev pub Stops : List Fifo → List ℕ → ℕ → Type 0
Stops fs name k = (k < length fs) × ((j : ℕ) → j < k → IsOther fs name j)

abbrev pub FindsFifo : List Fifo → List ℕ → FifoSlot → Type 0
FindsFifo fs name (named k) = Stops fs name k × IsNamed fs name k
FindsFifo fs name (closed k) = Stops fs name k × ((get_or fs k no_fifo).is_open ≡ false)
FindsFifo fs name full = (j : ℕ) → j < length fs → IsOther fs name j

NamedElse-IsOther :
    (fs : List Fifo) (name : List ℕ) (j : ℕ)
    → NamedElse (map as_mutex fs) name j
    → IsOther fs name j
NamedElse-IsOther fs name j (o, n) =
    let e = get_or-as_mutex fs j in (sym (ap Mutex.is_open e) ∙ o, λ q. n (ap Mutex.name e ∙ q))

Finds-FindsFifo :
    (fs : List Fifo) (name : List ℕ) (slot : Slot)
    → Finds (map as_mutex fs) name slot
    → FindsFifo fs name (as_slot slot)
Finds-FindsFifo fs name (Mutex.named k) (l, (o, n), f) =
    let e = get_or-as_mutex fs k in
    (
      (omega (arith, l, length-as_mutex fs), λ j h. NamedElse-IsOther fs name j (f j h)),
      (sym (ap Mutex.is_open e) ∙ o, sym (ap Mutex.name e) ∙ n),
    )
Finds-FindsFifo fs name (Mutex.closed k) (l, o, f) = (
  (omega (arith, l, length-as_mutex fs), λ j h. NamedElse-IsOther fs name j (f j h)),
  sym (ap Mutex.is_open (get_or-as_mutex fs k)) ∙ o,
)
Finds-FindsFifo fs name Mutex.full f =
    λ j h. NamedElse-IsOther fs name j (f j (omega (arith, h, length-as_mutex fs)))

-- The loop stops at the first slot that holds an open pipe of the name or no open pipe.
pub find_fifo-FindsFifo : (fs : List Fifo) (name : List ℕ) → FindsFifo fs name (find_fifo fs name 0)
find_fifo-FindsFifo fs name =
    subst (FindsFifo fs name) (sym (find_fifo-find_slot fs name 0))
      (Finds-FindsFifo fs name _ (find_slot-Finds (map as_mutex fs) name))
