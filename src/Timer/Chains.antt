-- ===== src/Timer/Chains.antt =====
-- The list that the structs of nanOS/Kernel/timer.c form, and what a tick makes of it.
use tpe_arqui.Prelude.{
  ℕ, ◌-◌, ◌^◌, ◌<◌, ◌≡◌, ◌≢◌, sym, ap, subst, ◌∙◌, ltb, if◌then◌else◌, List, [], ◌∷◌,
}
use tpe_arqui.Allocator.Pages.{Pages, store_page}
use tpe_arqui.Process.Defs.{Heap, null}
use tpe_arqui.Process.Status.{unblock_process}
use tpe_arqui.Timer.{SleepProcess}

-- A process that sleeps, with the page of its struct.
pub record Sleeper : Type 0 where
  pub page : ℕ
  pub p : ℕ
  pub ticks : ℕ

-- From the address `a` on, the structs are these.
abbrev pub Chain : (ℕ → SleepProcess) → ℕ → List Sleeper → Type 0
Chain f a [] = a ≡ null
Chain f a (s ∷ rest) =
    (a ≡ s.page) × (a ≢ null) × ((f a).p ≡ s.p) × ((f a).ticks ≡ s.ticks) × Chain f (f a).next rest

abbrev pub Absent : ℕ → List Sleeper → Type 0
Absent a [] = Unit {0}
Absent a (s ∷ rest) = (a ≢ s.page) × Absent a rest

-- Each has a page of its own.
abbrev pub Distinct : List Sleeper → Type 0
Distinct [] = Unit {0}
Distinct (s ∷ rest) = Absent s.page rest × Distinct rest

-- Every sleeper has at least one tick to wait, and a `uint64_t` of them.
abbrev pub Waiting : List Sleeper → Type 0
Waiting [] = Unit {0}
Waiting (s ∷ rest) = (0 < s.ticks) × (s.ticks < 2 ^ 64) × Waiting rest

-- Those with more than `k` ticks to wait, in order, with `k` ticks less.
abbrev pub after : ℕ → List Sleeper → List Sleeper
after k [] = []
after k (s ∷ rest) =
    let others = after k rest in
    if ltb k s.ticks then record s { ticks = s.ticks - k } ∷ others else others

-- Outside these addresses nothing differs.
pub Chain-same :
    (f g : ℕ → SleepProcess) (a : ℕ) (l : List Sleeper) (x y : ℕ)
    → ((b : ℕ) → b ≢ x → b ≢ y → g b ≡ f b)
    → Absent x l
    → Absent y l
    → Chain f a l
    → Chain g a l
Chain-same f g a [] x y same p q c = c
Chain-same f g a (s ∷ rest) x y same p q (e, n, h, i, c) =
    let here : g a ≡ f a = same a (λ d. p.0 (sym d ∙ e)) (λ d. q.0 (sym d ∙ e)) in
    (
      e,
      n,
      ap SleepProcess.p here ∙ h,
      ap SleepProcess.ticks here ∙ i,
      subst (λ (z : SleepProcess). Chain g z.next rest) (sym here)
          (Chain-same f g (f a).next rest x y same p.1 q.1 c),
    )

-- Those with one tick to wait are unblocked, in order.
abbrev pub woken : Heap → List Sleeper → Heap
woken h [] = h
woken h (s ∷ rest) = woken (if ltb 1 s.ticks then h else unblock_process h s.p) rest

-- Their pages are given back, in order.
abbrev pub freed : Pages → List Sleeper → Pages
freed p [] = p
freed p (s ∷ rest) = freed (if ltb 1 s.ticks then p else (store_page p s.page).1) rest
