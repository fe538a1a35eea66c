-- ===== src/Timer/Laws.antt =====
-- The timer of nanOS/Kernel/timer.c over any number of ticks: who sleeps on,
-- and who wakes.
use tpe_arqui.Prelude.{
  ℕ, zero, suc, ◌/◌, ◌^◌, ◌≤◌, ◌<◌, ◌≡◌, ◌≢◌, refl, sym, subst, ◌∙◌, arith, List, [], ◌∷◌, length,
  Option, none, some,
}
use tpe_arqui.Allocator.Pages.{stack_size, get_page}
use tpe_arqui.Allocator.Pages.Free.{get_page-ne_zero}
use tpe_arqui.Process.Defs.{null}
use tpe_arqui.Process.Status.{block_process}
use tpe_arqui.Timer.{
  SleepProcess, Timer, timer_handler, create_sleep_process, add_sleep_process, sleep,
}
use tpe_arqui.Timer.Chains.{
  Sleeper, Chain, Chain-same, Absent, Distinct, Waiting, after, woken, freed,
}
use tpe_arqui.Timer.Refine.{Ticks, tick_loop_lem}

-- These sleep, each with a struct of its own.
pub record Sleeps (t : Timer) (l : List Sleeper) : Type 0 where
  pub chain : Chain t.structs t.sleeping_processes l
  pub distinct : Distinct l
  pub waiting : Waiting l

-- `k` calls of the handler.
abbrev pub ticked : ℕ → ℕ → Timer → Option Timer
ticked fuel zero t = some t
ticked fuel (suc k) t = elim (ticked fuel k t) [ none ↦ none | some u ↦ timer_handler fuel u ]

Absent-after : (k a : ℕ) (l : List Sleeper) → Absent a l → Absent a (after k l)
Absent-after k a [] h = tt
Absent-after k a (s ∷ rest) h = ground (arith, h, Absent-after k a rest h.1)

Distinct-after : (k : ℕ) (l : List Sleeper) → Distinct l → Distinct (after k l)
Distinct-after k [] h = tt
Distinct-after k (s ∷ rest) h =
    ground (arith, h, Distinct-after k rest h.1, Absent-after k s.page rest h.0)

Waiting-after : (k : ℕ) (l : List Sleeper) → Waiting l → Waiting (after k l)
Waiting-after k [] w = tt
Waiting-after k (s ∷ rest) w = ground (arith, w, Waiting-after k rest w.2)

length-after : (k : ℕ) (l : List Sleeper) → length (after k l) ≤ length l
length-after k [] = omega arith
length-after k (s ∷ rest) = ground (arith, length-after k rest)

after-after : (k : ℕ) (l : List Sleeper) → after 1 (after k l) ≡ after (suc k) l
after-after k [] = refl
after-after k (s ∷ rest) = ground (arith, after-after k rest)

after_none : (l : List Sleeper) → Waiting l → after 0 l ≡ l
after_none [] w = refl
after_none (s ∷ rest) w = ground (arith, w, after_none rest w.2)

-- No struct is at the null pointer.
Absent-null : (f : ℕ → SleepProcess) (a : ℕ) (l : List Sleeper) → Chain f a l → Absent null l
Absent-null f a [] c = tt
Absent-null f a (s ∷ rest) c = (λ e. c.1 (c.0 ∙ sym e), Absent-null f (f a).next rest c.4)

-- What one call of the handler has done.
pub record Handled (t : Timer) (l : List Sleeper) (u : Timer) : Type 0 where
  pub left : Sleeps u (after 1 l)
  pub heap : u.heap ≡ woken t.heap l
  pub pages : u.pages ≡ freed t.pages l
  pub others : (b : ℕ) → Absent b l → b ≢ null → u.structs b ≡ t.structs b

abbrev pub Handles : Timer → List Sleeper → Option Timer → Type 0
Handles t l none = ⊥
Handles t l (some u) = Handled t l u

-- What calls of the handler have come to.
abbrev pub Leaves : List Sleeper → Option Timer → Type 0
Leaves l none = ⊥
Leaves l (some u) = Sleeps u l

Ticks-Handles :
    (t : Timer) (l : List Sleeper) (out : Option Timer)
    → Sleeps t l
    → Ticks t null l out
    → Handles t l out
Ticks-Handles t l none v k = k
Ticks-Handles t l (some u) v k = record {
  left = record {
    chain = k.chain;
    distinct = Distinct-after 1 l v.distinct;
    waiting = Waiting-after 1 l v.waiting;
  };
  heap = k.heap;
  pages = k.pages;
  others = k.outside;
}

-- A call of `timer_handler`, where the linked structs are those of `l`, each with a page of its own
-- and at least one tick to wait, comes back. It unlinks those who had one tick to wait, unblocks
-- their processes and gives back their pages, in order, takes a tick from each of the others, whose
-- order stays, and changes no struct elsewhere. (The loop has fuel for one struct more than the list
-- has, and a `uint64_t` holds the ticks.)
pub timer_handler_lem :
    (fuel : ℕ) (t : Timer) (l : List Sleeper)
    → length l < fuel
    → Sleeps t l
    → Handles t l (timer_handler fuel t)
unfolding timer_handler
timer_handler_lem fuel t l f v = Ticks-Handles t l _ v (
    tick_loop_lem fuel t null t.sleeping_processes l f v.chain refl
      (Absent-null t.structs t.sleeping_processes l v.chain) v.distinct v.waiting)

Handles-Leaves :
    (t : Timer) (l : List Sleeper) (out : Option Timer) → Handles t l out → Leaves (after 1 l) out
Handles-Leaves t l none h = h
Handles-Leaves t l (some u) h = h.left

once_more :
    (fuel : ℕ) (l : List Sleeper) (out : Option Timer)
    → length l < fuel
    → Leaves l out
    → Leaves
        (after 1 l)
        (elim out as (λ _. Option Timer) [ none ↦ none | some u ↦ timer_handler fuel u ])
once_more fuel l none f v = v
once_more fuel l (some u) f v = Handles-Leaves u l _ (timer_handler_lem fuel u l f v)

-- Where the linked structs are those of `l`, each with a page of its own and at least one tick to
-- wait, `k` ticks of the timer come back, and leave linked exactly those who had more than `k` ticks
-- to wait, in the same order, each with `k` ticks less. (The loop has fuel for one struct more than
-- the list has, and a `uint64_t` holds the ticks.)
pub ticked_lem :
    (fuel k : ℕ) (t : Timer) (l : List Sleeper)
    → length l < fuel
    → Sleeps t l
    → Leaves (after k l) (ticked fuel k t)
ticked_lem fuel zero t l f v = subst (Sleeps t) (sym (after_none l v.waiting)) v
ticked_lem fuel (suc k) t l f v =
    subst (λ r. Leaves r (ticked fuel (suc k) t)) (after-after k l)
      (once_more fuel (after k l) (ticked fuel k t) (omega (arith, f, length-after k l))
        (ticked_lem fuel k t l f v))

-- `sleep` of fewer than 55 milliseconds does nothing and returns 0.
pub sleep_short :
    (t : Timer) (current milliseconds : ℕ)
    → milliseconds < 55
    → sleep t current milliseconds ≡ (0, t)
unfolding sleep
sleep_short t current milliseconds h = ground (arith, h)

sleep_structs :
    (t : Timer) (current milliseconds : ℕ)
    → 55 ≤ milliseconds
    → let (r, u) = sleep t current milliseconds in
      let a = (get_page t.pages).0 in
      (r ≡ 1)
      × (u.sleeping_processes ≡ a)
      × ((u.structs a).p ≡ current)
      × ((u.structs a).ticks ≡ milliseconds / 55)
      × ((u.structs a).next ≡ t.sleeping_processes)
      × ((b : ℕ) → b ≢ a → u.structs b ≡ t.structs b)
      × (u.heap ≡ block_process t.heap current)
unfolding sleep create_sleep_process add_sleep_process
sleep_structs t current milliseconds h = ground (arith, h)

-- `sleep` of at least 55 milliseconds returns 1, calls `block_process` for the calling process, and
-- links it before all who sleep, for `milliseconds / 55` ticks. (A page is free that holds none of
-- their structs.)
pub sleep_lem :
    (t : Timer) (current milliseconds : ℕ) (l : List Sleeper)
    → 55 ≤ milliseconds
    → milliseconds < 2 ^ 64
    → t.pages.current_index < stack_size
    → Sleeps t l
    → Absent (get_page t.pages).0 l
    → let (r, u) = sleep t current milliseconds in
      let a = (get_page t.pages).0 in
      (r ≡ 1)
      × (u.heap ≡ block_process t.heap current)
      × Sleeps u (record { page = a; p = current; ticks = milliseconds / 55 } ∷ l)
sleep_lem t current milliseconds l h small room v new =
    let did = sleep_structs t current milliseconds h in
    let u = (sleep t current milliseconds).1 in
    let a = (get_page t.pages).0 in
    let rest : Chain u.structs (u.structs a).next l = rw (did.4) (
      Chain-same t.structs u.structs t.sleeping_processes l a a (λ b n m. did.5 b n) new new
        v.chain) in
    (
      did.0,
      did.6,
      record {
        chain = rw (did.1) (refl, get_page-ne_zero t.pages room, did.2, did.3, rest);
        distinct = (new, v.distinct);
        waiting = (omega (arith, h), omega (arith, small), v.waiting);
      },
    )
