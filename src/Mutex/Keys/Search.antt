-- ===== src/Mutex/Keys/Search.antt =====
-- The search of `mutex_open` in nanOS/Kernel/kernelMutex.c.
use tpe_arqui.Prelude.{
  ℕ, zero, suc, ◌+◌, ◌<◌, ◌≡◌, ◌≢◌, ◌↔◌, inl, inr, refl, sym, subst, ap, ◌∙◌, arith, true, false,
  List, [], ◌∷◌, length, get_or, Bool-cases,
}
use tpe_arqui.Mutex.{Mutex, no_mutex, same_name, Slot, named, closed, full, find_slot}

-- `strcmp` is 0 on equal names alone.
pub same_name_iff : (s t : List ℕ) → (same_name s t ≡ true) ↔ (s ≡ t)
unfolding same_name
same_name_iff [] [] = ground arith
same_name_iff [] (d ∷ t) = ground arith
same_name_iff (c ∷ s) [] = ground arith
same_name_iff (c ∷ s) (d ∷ t) = ground (arith, same_name_iff s t)

-- Slot `j` holds an open mutex of that name, or of another one.
abbrev pub Named : List Mutex → List ℕ → ℕ → Type 0
Named ms name j = ((get_or ms j no_mutex).is_open ≡ true) × ((get_or ms j no_mutex).name ≡ name)

abbrev pub NamedElse : List Mutex → List ℕ → ℕ → Type 0
NamedElse ms name j = ((get_or ms j no_mutex).is_open ≡ true) × ((get_or ms j no_mutex).name ≢ name)

-- What the loop of `mutex_open` has found, started at slot 0.
abbrev pub Finds : List Mutex → List ℕ → Slot → Type 0
Finds ms name (named j) =
    (j < length ms) × Named ms name j × ((i : ℕ) → i < j → NamedElse ms name i)
Finds ms name (closed j) =
    (j < length ms)
    × ((get_or ms j no_mutex).is_open ≡ false)
    × ((i : ℕ) → i < j → NamedElse ms name i)
Finds ms name full = (i : ℕ) → i < length ms → NamedElse ms name i

-- The same, one slot further.
abbrev shift : Slot → Slot
shift (named j) = named (suc j)
shift (closed j) = closed (suc j)
shift full = full

find_slot-shift :
    (ms : List Mutex) (name : List ℕ) (k : ℕ)
    → find_slot ms name (suc k) ≡ shift (find_slot ms name k)
unfolding find_slot
find_slot-shift [] name k = refl
find_slot-shift (m ∷ ms) name k = ground (arith, find_slot-shift ms name (k + 1))

not_same : (s t : List ℕ) → s ≢ t → same_name s t ≡ false
not_same s t n = elim (Bool-cases (same_name s t)) [
  | inl e ↦ absurd (n ((same_name_iff s t).0 e))
  | inr e ↦ e
]

else_below :
    (m : Mutex) (ms : List Mutex) (name : List ℕ) (j : ℕ)
    → m.is_open ≡ true
    → m.name ≢ name
    → ((i : ℕ) → i < j → NamedElse ms name i)
    → (i : ℕ) → i < suc j
    → NamedElse (m ∷ ms) name i
else_below m ms name j o n f zero h = (o, n)
else_below m ms name j o n f (suc i) h = f i (omega arith)

Finds-cons :
    (m : Mutex) (ms : List Mutex) (name : List ℕ) (slot : Slot)
    → m.is_open ≡ true
    → m.name ≢ name
    → Finds ms name slot
    → Finds (m ∷ ms) name (shift slot)
Finds-cons m ms name (named j) o n f = (omega (arith, f.0), f.1, else_below m ms name j o n f.2)
Finds-cons m ms name (closed j) o n f = (omega (arith, f.0), f.1, else_below m ms name j o n f.2)
Finds-cons m ms name full o n f = else_below m ms name (length ms) o n f

find_slot_closed :
    (m : Mutex) (ms : List Mutex) (name : List ℕ) (k : ℕ)
    → m.is_open ≡ false
    → find_slot (m ∷ ms) name k ≡ closed k
unfolding find_slot
find_slot_closed m ms name k shut = ground arith

find_slot_named :
    (m : Mutex) (ms : List Mutex) (name : List ℕ) (k : ℕ)
    → m.is_open ≡ true
    → same_name name m.name ≡ true
    → find_slot (m ∷ ms) name k ≡ named k
unfolding find_slot
find_slot_named m ms name k o e = ground arith

find_slot_later :
    (m : Mutex) (ms : List Mutex) (name : List ℕ)
    → m.is_open ≡ true
    → same_name name m.name ≡ false
    → find_slot (m ∷ ms) name 0 ≡ shift (find_slot ms name 0)
unfolding find_slot
find_slot_later m ms name o e = ground (arith, find_slot-shift ms name 0)

find_slot_nil : (name : List ℕ) → find_slot [] name 0 ≡ full
unfolding find_slot
find_slot_nil name = refl

-- The loop of `mutex_open` stops at the first slot that holds an open mutex of the name or that is
-- not open, whichever comes first.
pub find_slot-Finds : (ms : List Mutex) (name : List ℕ) → Finds ms name (find_slot ms name 0)
find_slot-Finds [] name = rw (find_slot_nil name) (λ i h. absurd (omega arith))
find_slot-Finds (m ∷ ms) name = elim (Bool-cases m.is_open) [
  | inr shut ↦
      subst (Finds (m ∷ ms) name) (sym (find_slot_closed m ms name 0 shut))
        (omega arith, shut, λ i h. absurd (omega arith))
  | inl open_ ↦ elim (Bool-cases (same_name name m.name)) [
    | inl same ↦ subst (Finds (m ∷ ms) name) (sym (find_slot_named m ms name 0 open_ same)) (
      omega arith,
      (open_, sym ((same_name_iff name m.name).0 same)),
      λ i h. absurd (omega arith),
    )
    | inr other ↦ subst (Finds (m ∷ ms) name) (sym (find_slot_later m ms name open_ other)) (
        Finds-cons m ms name (find_slot ms name 0) open_
          (λ e. ground (arith, (same_name_iff name m.name).1 (sym e), other))
          (find_slot-Finds ms name))
  ]
]

pub find_slot-closed_at :
    (ms : List Mutex) (name : List ℕ) (j : ℕ)
    → j < length ms
    → ((i : ℕ) → i < j → NamedElse ms name i)
    → (get_or ms j no_mutex).is_open ≡ false
    → find_slot ms name 0 ≡ closed j
find_slot-closed_at [] name j h below shut = absurd (omega arith)
find_slot-closed_at (m ∷ ms) name zero h below shut = find_slot_closed m ms name 0 shut
find_slot-closed_at (m ∷ ms) name (suc j) h below shut =
    let (o, n) = below 0 (omega arith) in
    find_slot_later m ms name o (not_same name m.name (λ e. n (sym e)))
    ∙ ap shift
        (find_slot-closed_at ms name j (omega arith) (λ i l. below (suc i) (omega arith)) shut)
