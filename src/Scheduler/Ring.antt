-- ===== src/Scheduler/Ring.antt =====
-- The list of processes of nanOS/Kernel/processManager.c as a ring.
pub mod Steps
pub mod Refine
use tpe_arqui.Prelude.{
  ℕ, zero, suc, ◌+◌, ◌≤◌, ◌<◌, ◌≡◌, ◌≢◌, ◌⊎◌, inl, refl, sym, ap, ◌∙◌, arith, List, [], ◌∷◌, ◌++◌,
  tally, tally-append,
}
use tpe_arqui.Process.Defs.{null}
use tpe_arqui.Scheduler.{ListNode, Scheduler}
use tpe_arqui.Scheduler.Laws.{moved}

abbrev pub last : ℕ → List ℕ → ℕ
last x [] = x
last x (y ∷ ys) = last y ys

-- From the node `x` through the nodes `xs` to `e`.
abbrev pub Linked : (ℕ → ListNode) → ℕ → List ℕ → ℕ → Type 0
Linked nodes x [] e = (nodes x).next ≡ e
Linked nodes x (y ∷ ys) e = ((nodes x).next ≡ y) × Linked nodes y ys e

-- The ring, from the current node on. `prev` is the node before it, but is the current node itself where
-- that was alone when the second node came.
pub record Rings (s : Scheduler) (x : ℕ) (xs : List ℕ) : Type 0 where
  pub current : s.current ≡ x
  pub linked : Linked s.nodes x xs x
  pub distinct : (a : ℕ) → tally a (x ∷ xs) ≤ 1
  pub present : tally null (x ∷ xs) ≡ 0
  pub prev : (s.prev ≡ last x xs) ⊎ (s.prev ≡ x)

abbrev pub IsRing : Scheduler → List ℕ → Type 0
IsRing s [] = s.current ≡ null
IsRing s (x ∷ xs) = Rings s x xs

abbrev pub rotate : List ℕ → List ℕ
rotate [] = []
rotate (x ∷ xs) = xs ++ x ∷ []

abbrev pub rotates : ℕ → List ℕ → List ℕ
rotates zero xs = xs
rotates (suc n) xs = rotates n (rotate xs)

pub Linked-same :
    (m k : ℕ → ListNode) (x : ℕ) (xs : List ℕ) (e : ℕ)
    → ((a : ℕ) → 0 < tally a (x ∷ xs) → (k a).next ≡ (m a).next)
    → Linked m x xs e
    → Linked k x xs e
Linked-same m k x [] e same l = same x (ground arith) ∙ l
Linked-same m k x (y ∷ ys) e same (here, l) =
    (same x (ground arith) ∙ here, Linked-same m k y ys e (λ a h. same a (ground (arith, h))) l)

Linked-append :
    (m : ℕ → ListNode) (x : ℕ) (xs : List ℕ) (y e : ℕ)
    → Linked m x xs y
    → (m y).next ≡ e
    → Linked m x (xs ++ y ∷ []) e
Linked-append m x [] y e l h = (l, h)
Linked-append m x (z ∷ zs) y e (here, l) h = (here, Linked-append m z zs y e l h)

pub last_append : (x : ℕ) (xs : List ℕ) (y : ℕ) → last x (xs ++ y ∷ []) ≡ y
last_append x [] y = refl
last_append x (z ∷ zs) y = last_append z zs y

pub last-member : (x : ℕ) (xs : List ℕ) → 0 < tally (last x xs) (x ∷ xs)
last-member x [] = ground arith
last-member x (y ∷ ys) = let rest = last-member y ys in omega (arith, rest)

-- The last node linked to another one.
pub Linked-relink :
    (m k : ℕ → ListNode) (x : ℕ) (xs : List ℕ) (e f : ℕ)
    → Linked m x xs e
    → ((a : ℕ) → tally a (x ∷ xs) ≤ 1)
    → (k (last x xs)).next ≡ f
    → ((a : ℕ) → a ≢ last x xs → (k a).next ≡ (m a).next)
    → Linked k x xs f
Linked-relink m k x [] e f l d new same = new
Linked-relink m k x (y ∷ ys) e f (here, l) d new same =
    let in_rest = last-member y ys in
    let once = d x in
    (
      same x (λ q. ground (arith, q, in_rest, once)) ∙ here,
      Linked-relink m k y ys e f l (λ a. (let h = d a in omega (arith, h))) new same,
    )

-- One node further.
pub moved-Rings :
    (s : Scheduler) (x : ℕ) (xs : List ℕ) → Rings s x xs → IsRing (moved 1 s) (rotate (x ∷ xs))
moved-Rings s x [] r = record {
  current = ap (λ c. (s.nodes c).next) r.current ∙ r.linked;
  linked = r.linked;
  distinct = r.distinct;
  present = r.present;
  prev = inl r.current;
}
moved-Rings s x (y ∷ ys) r = record {
  current = ap (λ c. (s.nodes c).next) r.current ∙ r.linked.0;
  linked = Linked-append s.nodes y ys x y r.linked.1 r.linked.0;
  distinct = λ a.
      (let once = r.distinct a in
        let both = tally-append a ys (x ∷ []) in omega (arith, once, both));
  present =
      (let none_here = r.present in
        let both = tally-append null ys (x ∷ []) in omega (arith, none_here, both));
  prev = inl (r.current ∙ sym (last_append y ys x));
}
