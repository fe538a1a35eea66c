-- ===== src/Fifo/Info.antt =====
-- The listing of the pipes: `get_fifos_info` and `fill_fifo_info` of nanOS/Kernel/fifo.c.
use tpe_arqui.Prelude.{
  ℕ, zero, suc, ◌+◌, ◌<◌, ◌≡◌, refl, sym, ap, subst, ◌∙◌, arith, true, false, ◌==◌, if◌then◌else◌,
  one_if, List, [], ◌∷◌, get_or, Bool-cases, inl, inr,
}
use tpe_arqui.Mutex.KeyCalls.{locks_key, unlocks_key}
use tpe_arqui.Syscalls.{file_descriptors}
use tpe_arqui.Fifo.Ops.{Fifo, Fifos, no_fifo, fifo_at, locked_key, unlocked_key}

-- `fifo_info`
pub record FifoInfo : Type 0 where
  pub name : List ℕ
  pub fds : ℕ

abbrev pub fill_fifo_info : Fifo → ℕ → FifoInfo
fill_fifo_info f key = record { name = f.name; fds = key + file_descriptors }

unfoldable pub open_fifos_info : List Fifo → ℕ → List FifoInfo
open_fifos_info [] i = []
open_fifos_info (f ∷ fs) i =
    let rest = open_fifos_info fs (i + 1) in if f.is_open then fill_fifo_info f i ∷ rest else rest

unfoldable pub get_fifos_info : Fifos → List FifoInfo × Fifos
unfolding open_fifos_info
get_fifos_info s =
    let t = locked_key s s.fifo_array_lock in
    (open_fifos_info t.open_fifos 0, unlocked_key t t.fifo_array_lock)

-- How often a file number is listed, and under that name only.
abbrev pub listed : ℕ → List FifoInfo → ℕ
listed fds [] = 0
listed fds (i ∷ is) = listed fds is + one_if (i.fds == fds)

abbrev pub Bears : ℕ → List ℕ → List FifoInfo → Type 0
Bears fds name [] = Unit {0}
Bears fds name (i ∷ is) = (i.fds ≡ fds → i.name ≡ name) × Bears fds name is

shows_open :
    (f : Fifo) (fs : List Fifo) (i : ℕ)
    → f.is_open ≡ true
    → open_fifos_info (f ∷ fs) i ≡ fill_fifo_info f i ∷ open_fifos_info fs (i + 1)
unfolding open_fifos_info
shows_open f fs i o = rw (open_fifos_info, o) refl

shows_shut :
    (f : Fifo) (fs : List Fifo) (i : ℕ)
    → f.is_open ≡ false
    → open_fifos_info (f ∷ fs) i ≡ open_fifos_info fs (i + 1)
unfolding open_fifos_info
shows_shut f fs i o = rw (open_fifos_info, o) refl

shows_nothing : (i : ℕ) → open_fifos_info [] i ≡ []
unfolding open_fifos_info
shows_nothing i = refl

-- Nothing is listed below the index from which the loop goes on.
not_before : (fs : List Fifo) (i j : ℕ) → j < i → listed (j + 3) (open_fifos_info fs i) ≡ 0
not_before [] i j l = ap (listed (j + 3)) (shows_nothing i)
not_before (f ∷ fs) i j l =
    let rest = not_before fs (i + 1) j (omega (arith, l)) in
    elim (Bool-cases f.is_open) [
      | inl o ↦ ap (listed (j + 3)) (shows_open f fs i o) ∙ ground (arith, rest, l)
      | inr o ↦ ap (listed (j + 3)) (shows_shut f fs i o) ∙ rest
    ]

listed_from :
    (fs : List Fifo) (i k : ℕ)
    → listed (i + k + 3) (open_fifos_info fs i) ≡ one_if (get_or fs k no_fifo).is_open
listed_from [] i k = ap (listed (i + k + 3)) (shows_nothing i)
listed_from (f ∷ fs) i zero =
    let rest = not_before fs (i + 1) (i + 0) (omega arith) in
    elim (Bool-cases f.is_open) [
      | inl o ↦ ap (listed (i + 0 + 3)) (shows_open f fs i o) ∙ ground (arith, rest, o)
      | inr o ↦ ap (listed (i + 0 + 3)) (shows_shut f fs i o) ∙ rest ∙ sym (ap one_if o)
    ]
listed_from (f ∷ fs) i (suc k) =
    let n = i + suc k + 3 in
    let rest : listed n (open_fifos_info fs (i + 1)) ≡ one_if (get_or fs k no_fifo).is_open =
      ap (λ m. listed m (open_fifos_info fs (i + 1))) {x = n} {y = i + 1 + k + 3} (omega arith)
      ∙ listed_from fs (i + 1) k in
    elim (Bool-cases f.is_open) [
      | inl o ↦ ap (listed n) (shows_open f fs i o) ∙ ground (arith, rest)
      | inr o ↦ ap (listed n) (shows_shut f fs i o) ∙ rest
    ]

unnamed_before :
    (fs : List Fifo) (i j : ℕ) (name : List ℕ) → j < i → Bears (j + 3) name (open_fifos_info fs i)
unnamed_before [] i j name l = subst (Bears (j + 3) name) (sym (shows_nothing i)) tt
unnamed_before (f ∷ fs) i j name l =
    let rest = unnamed_before fs (i + 1) j name (omega (arith, l)) in
    elim (Bool-cases f.is_open) [
      | inl o ↦
          subst (Bears (j + 3) name) (sym (shows_open f fs i o))
            (λ e. absurd (omega (arith, e, l)), rest)
      | inr o ↦ subst (Bears (j + 3) name) (sym (shows_shut f fs i o)) rest
    ]

named_from :
    (fs : List Fifo) (i k : ℕ) → Bears (i + k + 3) (get_or fs k no_fifo).name (open_fifos_info fs i)
named_from [] i k = subst (Bears (i + k + 3) []) (sym (shows_nothing i)) tt
named_from (f ∷ fs) i zero =
    let rest = unnamed_before fs (i + 1) (i + 0) f.name (omega arith) in
    elim (Bool-cases f.is_open) [
      | inl o ↦ subst (Bears (i + 0 + 3) f.name) (sym (shows_open f fs i o)) (λ e. refl, rest)
      | inr o ↦ subst (Bears (i + 0 + 3) f.name) (sym (shows_shut f fs i o)) rest
    ]
named_from (f ∷ fs) i (suc k) =
    let n = i + suc k + 3 in
    let name = (get_or fs k no_fifo).name in
    let rest : Bears n name (open_fifos_info fs (i + 1)) =
      subst (λ m. Bears m name (open_fifos_info fs (i + 1))) {x = i + 1 + k + 3} {y = n}
        (omega arith) (named_from fs (i + 1) k) in
    elim (Bool-cases f.is_open) [
      | inl o ↦
          subst (Bears n name) (sym (shows_open f fs i o)) (λ e. absurd (omega (arith, e)), rest)
      | inr o ↦ subst (Bears n name) (sym (shows_shut f fs i o)) rest
    ]

-- `get_fifos_info` lists each open pipe exactly once, under its name, by the file number that its key
-- has in a program, and nothing else; the pipes stay as they were, and the lock of the table is taken
-- and given back.
pub get_fifos_info_lem :
    (s : Fifos)
    → let (infos, t) = get_fifos_info s in
      ((k : ℕ)
        → (listed (k + file_descriptors) infos ≡ one_if (fifo_at s k).is_open)
          × Bears (k + file_descriptors) (fifo_at s k).name infos)
      × (t.open_fifos ≡ s.open_fifos)
      × (t.key_calls ≡ unlocks_key s.fifo_array_lock ∷ locks_key s.fifo_array_lock ∷ s.key_calls)
unfolding get_fifos_info
get_fifos_info_lem s = (
  λ k.
      subst
        (λ m.
          (listed m (open_fifos_info s.open_fifos 0) ≡ one_if (fifo_at s k).is_open)
          × Bears m (fifo_at s k).name (open_fifos_info s.open_fifos 0))
        {x = 0 + k + 3} {y = k + 3} (omega arith)
        (listed_from s.open_fifos 0 k, named_from s.open_fifos 0 k),
  refl,
  refl,
)
