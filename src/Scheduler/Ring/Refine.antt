-- ===== src/Scheduler/Ring/Refine.antt =====
-- The operations of nanOS/Kernel/processManager.c in any order, as those of a list of nodes.
use tpe_arqui.Prelude.{
  ℕ, ◌<◌, ◌≡◌, ◌≢◌, ◌⊎◌, inl, inr, refl, sym, ap, subst, ◌∙◌, arith, ◌==◌, true, false,
  if◌then◌else◌, Option, none, some, List, [], ◌∷◌, length, length-append, tally,
}
use tpe_arqui.Process.Defs.{null}
use tpe_arqui.Process.Lifecycle.{World}
use tpe_arqui.Mutex.{locked, unlocked}
use tpe_arqui.Scheduler.{
  Scheduler, add_process, next_process, end_process, yield_process, unassign_quantum, decremented,
  positive,
}
use tpe_arqui.Scheduler.Laws.{
  moved, left, current_blocked, current_runs, set_next_current_lem, next_process-switch,
}
use tpe_arqui.Scheduler.Ring.{Rings, IsRing, last, rotate, rotates}
use tpe_arqui.Scheduler.Ring.Steps.{
  moved-IsRing, new_page, insert, add_process-IsRing, IsRing-same, left-IsRing, ended,
  end_process-IsRing,
}

-- The nodes from the current one on, and the state. The rest of the kernel may change the processes
-- between the operations.
pub data Reach : List ℕ → Scheduler → Type 0 where
  begins : (s : Scheduler) → s.current ≡ null → Reach [] s
  works :
      (ring : List ℕ) (s : Scheduler) (w : World)
      → Reach ring s
      → Reach ring (record s { world = w })
  adds :
      (ring : List ℕ) (s : Scheduler) (p : ℕ)
      → Reach ring s
      → tally (new_page s) ring ≡ 0
      → new_page s ≢ null
      → Reach (insert (new_page s) ring) (add_process s p)
  ticks :
      (fuel : ℕ) (ring : List ℕ) (s t : Scheduler) (rsp r : ℕ)
      → Reach ring s
      → (positive (decremented (s.nodes s.current).quantum) ≡ true) ⊎ (s.superlock ≡ locked)
      → next_process fuel s rsp ≡ some (r, t)
      → Reach ring t
  switches :
      (n fuel : ℕ) (ring : List ℕ) (s t : Scheduler) (rsp r : ℕ)
      → Reach ring s
      → s.current ≢ null
      → positive (decremented (s.nodes s.current).quantum) ≡ false
      → s.superlock ≡ unlocked
      → ((k : ℕ) → k < n → current_blocked (moved k (left s rsp)) ≡ true)
      → current_runs (moved n (left s rsp)) ≡ true
      → n < fuel
      → next_process fuel s rsp ≡ some (r, t)
      → Reach (rotates n (rotate ring)) t
  yields : (ring : List ℕ) (s : Scheduler) → Reach ring s → Reach ring (yield_process s)
  ends :
      (n fuel : ℕ) (x y : ℕ) (ys : List ℕ) (s t : Scheduler) (r : ℕ)
      → Reach (x ∷ y ∷ ys) s
      → s.prev ≢ s.current
      → ((k : ℕ) → k < n → current_blocked (moved k (ended s)) ≡ true)
      → current_runs (moved n (ended s)) ≡ true
      → n < fuel
      → end_process fuel s ≡ some (r, t)
      → Reach (rotates n (y ∷ ys)) t

abbrev state_or : Scheduler → Option (ℕ × Scheduler) → Scheduler
state_or s none = s
state_or s (some (r, t)) = t

-- Where `next_process` does not switch.
stays :
    (fuel : ℕ) (s : Scheduler) (rsp : ℕ)
    → (positive (decremented (s.nodes s.current).quantum) ≡ true) ⊎ (s.superlock ≡ locked)
    → state_or s (next_process fuel s rsp) ≡ (if s.current == null then s else unassign_quantum s)
unfolding next_process unassign_quantum
stays fuel s rsp (inl e) = ground (arith, e)
stays fuel s rsp (inr e) = ground (arith, e)

stays-IsRing :
    (ring : List ℕ) (s : Scheduler)
    → IsRing s ring
    → IsRing (if s.current == null then s else unassign_quantum s) ring
unfolding unassign_quantum
stays-IsRing ring s r =
    IsRing-same s (if s.current == null then s else unassign_quantum s) ring (ground arith)
      (ground arith) (λ a. ground arith) r

yield-IsRing : (ring : List ℕ) (s : Scheduler) → IsRing s ring → IsRing (yield_process s) ring
unfolding yield_process
yield-IsRing ring s r = IsRing-same s (yield_process s) ring refl refl (λ a. ground arith) r

some_left : (x : ℕ) (xs : List ℕ) → 0 < length (rotate (x ∷ xs))
some_left x xs = let longer = length-append xs (x ∷ []) in omega (arith, longer)

switch-IsRing :
    (n fuel : ℕ) (ring : List ℕ) (s : Scheduler) (rsp : ℕ)
    → IsRing s ring
    → s.current ≢ null
    → positive (decremented (s.nodes s.current).quantum) ≡ false
    → s.superlock ≡ unlocked
    → ((k : ℕ) → k < n → current_blocked (moved k (left s rsp)) ≡ true)
    → current_runs (moved n (left s rsp)) ≡ true
    → n < fuel
    → IsRing (state_or s (next_process fuel s rsp)) (rotates n (rotate ring))
switch-IsRing n fuel [] s rsp ring c q u b runs l = absurd (c ring)
switch-IsRing n fuel (x ∷ xs) s rsp ring c q u b runs l =
    let t = left s rsp in
    let switched =
      next_process-switch n fuel s rsp c q u (set_next_current_lem n fuel t b runs l) in
    subst (λ o. IsRing (state_or s o) (rotates n (rotate (x ∷ xs)))) (sym switched)
      (IsRing-same (moved n t) (record (moved n t) { superlock = unlocked })
        (rotates n (rotate (x ∷ xs))) refl refl (λ a. refl)
        (moved-IsRing n t (rotate (x ∷ xs)) (some_left x xs)
          (left-IsRing s rsp (x ∷ xs) (omega arith) ring)))

ends_apart :
    (s : Scheduler) (x y : ℕ) (ys : List ℕ)
    → Rings s x (y ∷ ys)
    → s.prev ≢ s.current
    → (s.prev ≡ last y ys) ⊎ (s.prev ≡ x)
    → s.prev ≡ last y ys
ends_apart s x y ys r d (inl e) = e
ends_apart s x y ys r d (inr e) = absurd (d (e ∙ sym r.current))

-- In every order of adding, switching, yielding and ending, with the processes changed at will in
-- between, the nodes that the statics reach are a ring, and it is the list of the nodes that were added
-- and have not ended: a new one stands behind the current one, a switch turns the list to the first
-- process that can run, and the one that ends is taken out. (The page of a new node is not NULL and not
-- in use; the processes that are passed over are blocked; and a process does not end while `prev` is
-- the current node.)
pub Reach-IsRing : {ring : List ℕ} {s : Scheduler} → Reach ring s → IsRing s ring
Reach-IsRing (Reach.begins s e) = e
Reach-IsRing (Reach.works ring s w r) =
    IsRing-same s (record s { world = w }) ring refl refl (λ a. refl) (Reach-IsRing r)
Reach-IsRing (Reach.adds ring s p r fresh real) =
    add_process-IsRing s p ring fresh real (Reach-IsRing r)
Reach-IsRing (Reach.ticks fuel ring s t rsp v r cause e) =
    subst (λ u. IsRing u ring) (sym (stays fuel s rsp cause) ∙ ap (state_or s) e)
      (stays-IsRing ring s (Reach-IsRing r))
Reach-IsRing (Reach.switches n fuel ring s t rsp v r c q u b runs l e) =
    subst (λ o. IsRing (state_or s o) (rotates n (rotate ring))) e
      (switch-IsRing n fuel ring s rsp (Reach-IsRing r) c q u b runs l)
Reach-IsRing (Reach.yields ring s r) = yield-IsRing ring s (Reach-IsRing r)
Reach-IsRing (Reach.ends n fuel x y ys s t v r d b runs l e) =
    let ring : Rings s x (y ∷ ys) = Reach-IsRing r in
    let (ended_by, ring_left) =
      end_process-IsRing n fuel s x y ys ring (ends_apart s x y ys ring d ring.prev) b runs l in
    subst (λ u. IsRing u (rotates n (y ∷ ys))) (ap (state_or s) (sym ended_by ∙ e)) ring_left
