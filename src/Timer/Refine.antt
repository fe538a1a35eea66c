-- ===== src/Timer/Refine.antt =====
-- The loop of `timer_handler` in nanOS/Kernel/timer.c over the list that the structs form.
use tpe_arqui.Prelude.{
  ℕ, zero, suc, ◌-◌, ◌^◌, ◌<◌, ◌≡◌, ◌≢◌, refl, sym, ap, ap₂, subst, ◌∙◌, arith, ltb, ◌==◌, inl, inr,
  Bool-cases, if◌then◌else◌, true, false, List, [], ◌∷◌, length, Option, none, some,
}
use tpe_arqui.Allocator.Pages.{store_page}
use tpe_arqui.Process.Defs.{null}
use tpe_arqui.Process.Status.{unblock_process}
use tpe_arqui.Timer.{SleepProcess, Timer, less_one, tick_one, link_past, wake_sleeper, tick_loop}
use tpe_arqui.Timer.Chains.{
  Sleeper, Chain, Chain-same, Absent, Distinct, Waiting, after, woken, freed,
}

-- What points to the next struct: the static, or the one before.
abbrev pub link : Timer → ℕ → ℕ
link t prev = if prev == null then t.sleeping_processes else (t.structs prev).next

-- What the loop has done to the rest `l` of the list, behind `prev`.
pub record Ticked (t : Timer) (prev : ℕ) (l : List Sleeper) (u : Timer) : Type 0 where
  pub chain : Chain u.structs (link u prev) (after 1 l)
  pub outside : (b : ℕ) → Absent b l → b ≢ prev → u.structs b ≡ t.structs b
  pub before_p : (u.structs prev).p ≡ (t.structs prev).p
  pub before_ticks : (u.structs prev).ticks ≡ (t.structs prev).ticks
  pub heap : u.heap ≡ woken t.heap l
  pub pages : u.pages ≡ freed t.pages l
  pub head : prev ≢ null → u.sleeping_processes ≡ t.sleeping_processes

abbrev pub Ticks : Timer → ℕ → List Sleeper → Option Timer → Type 0
Ticks t prev l none = ⊥
Ticks t prev l (some u) = Ticked t prev l u

tick_one_lem :
    (t : Timer) (a : ℕ)
    → (((tick_one t a).structs a).ticks ≡ less_one (t.structs a).ticks)
      × (((tick_one t a).structs a).p ≡ (t.structs a).p)
      × (((tick_one t a).structs a).next ≡ (t.structs a).next)
      × ((b : ℕ) → b ≢ a → (tick_one t a).structs b ≡ t.structs b)
      × ((tick_one t a).sleeping_processes ≡ t.sleeping_processes)
      × ((tick_one t a).heap ≡ t.heap)
      × ((tick_one t a).pages ≡ t.pages)
unfolding tick_one
tick_one_lem t a = ground arith

wake_sleeper_lem :
    (t : Timer) (prev a : ℕ)
    → (link (wake_sleeper t prev a) prev ≡ (t.structs a).next)
      × ((b : ℕ) → b ≢ prev → (wake_sleeper t prev a).structs b ≡ t.structs b)
      × (((wake_sleeper t prev a).structs prev).p ≡ (t.structs prev).p)
      × (((wake_sleeper t prev a).structs prev).ticks ≡ (t.structs prev).ticks)
      × (prev ≢ null → (wake_sleeper t prev a).sleeping_processes ≡ t.sleeping_processes)
      × ((wake_sleeper t prev a).heap ≡ unblock_process t.heap (t.structs a).p)
      × ((wake_sleeper t prev a).pages ≡ (store_page t.pages a).1)
unfolding wake_sleeper link_past
wake_sleeper_lem t prev a = ground arith

loop_ends :
    (fuel : ℕ) (t : Timer) (prev current : ℕ)
    → (current == null) ≡ true
    → tick_loop (suc fuel) t prev current ≡ some t
unfolding tick_loop
loop_ends fuel t prev current e = rw (tick_loop, e) refl

loop_wakes :
    (fuel : ℕ) (t : Timer) (prev current : ℕ)
    → (current == null) ≡ false
    → (less_one (t.structs current).ticks == 0) ≡ true
    → tick_loop (suc fuel) t prev current
      ≡ tick_loop fuel
          (wake_sleeper (tick_one t current) prev current)
          prev
          (t.structs current).next
unfolding tick_loop
loop_wakes fuel t prev current e z = rw (tick_loop, e, z) refl

loop_keeps :
    (fuel : ℕ) (t : Timer) (prev current : ℕ)
    → (current == null) ≡ false
    → (less_one (t.structs current).ticks == 0) ≡ false
    → tick_loop (suc fuel) t prev current
      ≡ tick_loop fuel (tick_one t current) current (t.structs current).next
unfolding tick_loop
loop_keeps fuel t prev current e z = rw (tick_loop, e, z) refl

-- The first sleeper is woken and unlinked, then the loop goes on behind `prev`.
Ticked-wake :
    (t : Timer) (prev current : ℕ) (s : Sleeper) (rest : List Sleeper) (u : Timer)
    → Chain t.structs current (s ∷ rest)
    → Absent prev (s ∷ rest)
    → ltb 1 s.ticks ≡ false
    → Ticked (wake_sleeper (tick_one t current) prev current) prev rest u
    → Ticked t prev (s ∷ rest) u
Ticked-wake t prev current s rest u c away due k =
    let one = tick_one_lem t current in
    let woke = wake_sleeper_lem (tick_one t current) prev current in
    let ne : prev ≢ current = λ e. away.0 (e ∙ c.0) in
    let prev_same = one.3 prev ne in
    let woken_now = woke.5 ∙ ap₂ unblock_process one.5 (one.1 ∙ c.2) in
    let freed_now = woke.6 ∙ ap₂ (λ p a. (store_page p a).1) one.6 c.0 in
    record {
      chain = rw due k.chain;
      outside = λ b h n. k.outside b h.1 n ∙ woke.1 b n ∙ one.3 b (λ e. h.0 (e ∙ c.0));
      before_p = k.before_p ∙ woke.2 ∙ ap SleepProcess.p prev_same;
      before_ticks = k.before_ticks ∙ woke.3 ∙ ap SleepProcess.ticks prev_same;
      heap = rw due (k.heap ∙ ap (λ h. woken h rest) woken_now);
      pages = rw due (k.pages ∙ ap (λ p. freed p rest) freed_now);
      head = λ n. k.head n ∙ woke.4 n ∙ one.4;
    }

-- The first sleeper stays, and the loop goes on behind it.
Ticked-keep :
    (t : Timer) (prev current : ℕ) (s : Sleeper) (rest : List Sleeper) (u : Timer)
    → Chain t.structs current (s ∷ rest)
    → link t prev ≡ current
    → Absent prev (s ∷ rest)
    → 0 < s.ticks
    → s.ticks < 2 ^ 64
    → ltb 1 s.ticks ≡ true
    → Ticked (tick_one t current) current rest u
    → Ticked t prev (s ∷ rest) u
Ticked-keep t prev current s rest u c points away positive small later k =
    let one = tick_one_lem t current in
    let ne : prev ≢ current = λ e. away.0 (e ∙ c.0) in
    let head = k.head c.1 ∙ one.4 in
    let prev_same : u.structs prev ≡ t.structs prev = k.outside prev away.1 ne ∙ one.3 prev ne in
    let here : link u prev ≡ current = rw (head, prev_same) points in
    let at : (current == null) ≡ false = let n = c.1 in ground (arith, n) in
    let rest_chain : Chain u.structs (u.structs current).next (after 1 rest) = (rw at at k.chain) in
    let less : (u.structs current).ticks ≡ s.ticks - 1 =
      k.before_ticks ∙ one.0 ∙ ap less_one c.3 ∙ omega (arith, positive, small) in
    record {
      chain = rw (later, here) (c.0, c.1, k.before_p ∙ one.1 ∙ c.2, less, rest_chain);
      outside =
          λ b h n. let far : b ≢ current = λ e. h.0 (e ∙ c.0) in k.outside b h.1 far ∙ one.3 b far;
      before_p = ap SleepProcess.p prev_same;
      before_ticks = ap SleepProcess.ticks prev_same;
      heap = rw later (k.heap ∙ ap (λ h. woken h rest) one.5);
      pages = rw later (k.pages ∙ ap (λ p. freed p rest) one.6);
      head = λ n. head;
    }

due_now : (x n : ℕ) → x ≡ n → 0 < n → n < 2 ^ 64 → (less_one x == 0) ≡ true → ltb 1 n ≡ false
due_now x n e l m z = ground (arith, e, l, m, z)

due_later : (x n : ℕ) → x ≡ n → 0 < n → n < 2 ^ 64 → (less_one x == 0) ≡ false → ltb 1 n ≡ true
due_later x n e l m z = ground (arith, e, l, m, z)

-- A list behind `prev` is not touched by what is done at `prev` and at its first struct.
rest_kept :
    (t : Timer) (prev current : ℕ) (s : Sleeper) (rest : List Sleeper)
    → Chain t.structs current (s ∷ rest)
    → Absent prev rest
    → Absent s.page rest
    → Chain (wake_sleeper (tick_one t current) prev current).structs (t.structs current).next rest
rest_kept t prev current s rest c away alone =
    let one = tick_one_lem t current in
    let woke = wake_sleeper_lem (tick_one t current) prev current in
    Chain-same t.structs _ (t.structs current).next rest prev current
      (λ b n m. woke.1 b n ∙ one.3 b m) away (subst (λ a. Absent a rest) (sym c.0) alone) c.4

Ticks-step :
    (t : Timer) (prev : ℕ) (s : Sleeper) (rest : List Sleeper) (r : Timer) (before : ℕ)
    (out : Option Timer)
    → ((u : Timer) → Ticked r before rest u → Ticked t prev (s ∷ rest) u)
    → Ticks r before rest out
    → Ticks t prev (s ∷ rest) out
Ticks-step t prev s rest r before none f k = k
Ticks-step t prev s rest r before (some u) f k = f u k

-- With fuel for one struct more than the list has, the loop ends.
pub tick_loop_lem :
    (fuel : ℕ) (t : Timer) (prev current : ℕ) (l : List Sleeper)
    → length l < fuel
    → Chain t.structs current l
    → link t prev ≡ current
    → Absent prev l
    → Distinct l
    → Waiting l
    → Ticks t prev l (tick_loop fuel t prev current)
tick_loop_lem zero t prev current l f c points away apart w = absurd (omega (arith, f))
tick_loop_lem (suc fuel) t prev current [] f c points away apart w =
    subst (Ticks t prev []) (sym (loop_ends fuel t prev current (ground (arith, c)))) (record {
      chain = points ∙ c;
      outside = λ b h n. refl;
      before_p = refl;
      before_ticks = refl;
      heap = refl;
      pages = refl;
      head = λ n. refl;
    })
tick_loop_lem (suc fuel) t prev current (s ∷ rest) f c points away apart w =
    let there : (current == null) ≡ false = let n = c.1 in ground (arith, n) in
    let one = tick_one_lem t current in
    let left = less_one (t.structs current).ticks == 0 in
    let here = subst (λ a. Absent a rest) (sym c.0) apart.0 in
    elim (Bool-cases left) [
      | inl z ↦
          let r = wake_sleeper (tick_one t current) prev current in
          let woke = wake_sleeper_lem (tick_one t current) prev current in
          let due : ltb 1 s.ticks ≡ false =
            due_now (t.structs current).ticks s.ticks c.3 w.0 w.1 z in
          subst (Ticks t prev (s ∷ rest)) (sym (loop_wakes fuel t prev current there z)) (
            Ticks-step t prev s rest r prev _ (λ u. Ticked-wake t prev current s rest u c away due)
              (tick_loop_lem fuel r prev (t.structs current).next rest (omega (arith, f))
                (rest_kept t prev current s rest c away.1 apart.0) (woke.0 ∙ one.2) away.1 apart.1
                w.2))
      | inr z ↦
          let r = tick_one t current in
          let later : ltb 1 s.ticks ≡ true =
            due_later (t.structs current).ticks s.ticks c.3 w.0 w.1 z in
          subst (Ticks t prev (s ∷ rest)) (sym (loop_keeps fuel t prev current there z)) (
            Ticks-step t prev s rest r current _
              (λ u. Ticked-keep t prev current s rest u c points away w.0 w.1 later)
              (tick_loop_lem fuel r current (t.structs current).next rest (omega (arith, f))
                (Chain-same t.structs r.structs (t.structs current).next rest current current
                  (λ b n m. one.3 b n) here here c.4)
                (rw there one.2) here apart.1 w.2))
    ]
