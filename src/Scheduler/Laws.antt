-- ===== src/Scheduler/Laws.antt =====
-- Which process nanOS/Kernel/processManager.c runs next.
use tpe_arqui.Prelude.{
  ℕ, zero, suc, ◌<◌, ◌≡◌, ◌≢◌, refl, sym, subst, ◌∙◌, ap, arith, Bool, true, false, not, ◌&&◌,
  Option, none, some,
}
use tpe_arqui.Process.Defs.{Heap, null}
use tpe_arqui.Process.Status.{
  is_blocked_process, is_delete_process, set_rsp_process, get_rsp_process,
}
use tpe_arqui.Mutex.{locked, unlocked}
use tpe_arqui.Scheduler.{
  Scheduler, quantum_max, set_next_current, leave_current, rsp_of_current, next_process,
  unassign_quantum, decremented, positive,
}

-- The ring moved on by `n` nodes.
abbrev pub moved : ℕ → Scheduler → Scheduler
moved zero s = s
moved (suc n) s = moved n (record s { prev = s.current; current = (s.nodes s.current).next })

abbrev pub current_blocked : Scheduler → Bool
current_blocked s = is_blocked_process s.world.procs.heap (s.nodes s.current).p

abbrev pub current_runs : Scheduler → Bool
current_runs s =
    not (current_blocked s) && not (is_delete_process s.world.procs.heap (s.nodes s.current).p)

blocked_is_live : (h : Heap) (p : ℕ) → is_blocked_process h p ≡ true → is_delete_process h p ≡ false
unfolding is_blocked_process is_delete_process
blocked_is_live h p b = ground (arith, b)

-- With the first process that can run `n` nodes ahead, and only blocked processes before it, more
-- fuel than `n` brings the ring to that node; nothing else changes.
pub set_next_current_lem :
    (n fuel : ℕ) (s : Scheduler)
    → ((k : ℕ) → k < n → current_blocked (moved k s) ≡ true)
    → current_runs (moved n s) ≡ true
    → n < fuel
    → set_next_current fuel s ≡ some (moved n s)
unfolding set_next_current
set_next_current_lem n zero s b r l = absurd (omega arith)
set_next_current_lem zero (suc fuel) s b r l = ground (arith, r)
set_next_current_lem (suc n) (suc fuel) s b r l =
    let live = blocked_is_live s.world.procs.heap (s.nodes s.current).p (b 0 (omega arith)) in
    let rest =
      set_next_current_lem n fuel
        (record s { prev = s.current; current = (s.nodes s.current).next })
        (λ k m. b (suc k) (omega arith)) r (omega arith) in
    ground (arith, live, rest, b 0)

-- What a switch from the ring `s`, saved as `t`, to the node `n` ahead of its next has done.
pub record Switched (s : Scheduler) (current_rsp : ℕ) (n : ℕ) (rsp : ℕ) (v : Scheduler)
    : Type 0 where
  pub runs : current_runs v ≡ true
  pub resumed : rsp ≡ get_rsp_process v.world.procs.heap (v.nodes v.current).p
  pub saved : get_rsp_process v.world.procs.heap (s.nodes s.current).p ≡ current_rsp
  pub renewed : (v.nodes s.current).quantum ≡ quantum_max
  pub free : v.superlock ≡ unlocked
  pub ring : (a : ℕ) → (v.nodes a).next ≡ (s.nodes a).next

abbrev pub Switches : Scheduler → ℕ → ℕ → Option (ℕ × Scheduler) → Type 0
Switches s current_rsp n none = ⊥
Switches s current_rsp n (some (rsp, v)) = Switched s current_rsp n rsp v

moved_same : (n : ℕ) (s : Scheduler) → ((moved n s).nodes ≡ s.nodes) × ((moved n s).world ≡ s.world)
moved_same zero s = (refl, refl)
moved_same (suc n) s =
    moved_same n (record s { prev = s.current; current = (s.nodes s.current).next })

-- The ring as `next_process` leaves it to `set_next_current`.
abbrev pub left : Scheduler → ℕ → Scheduler
left s current_rsp = leave_current (record (unassign_quantum s) { superlock = locked }) current_rsp

pub next_process-switch :
    (n fuel : ℕ) (s : Scheduler) (current_rsp : ℕ)
    → s.current ≢ null
    → positive (decremented (s.nodes s.current).quantum) ≡ false
    → s.superlock ≡ unlocked
    → set_next_current fuel (left s current_rsp) ≡ some (moved n (left s current_rsp))
    → next_process fuel s current_rsp ≡ (
        let v = record (moved n (left s current_rsp)) { superlock = unlocked } in
        some (rsp_of_current v, v))
unfolding next_process unassign_quantum
next_process-switch n fuel s current_rsp c q f e = ground (arith, c, q, f, e)

-- When the timer takes the last of the quantum away, the superlock is free, the first process that
-- can run is `n` nodes after the next one and those before it are blocked, `next_process` (given
-- more fuel than `n`) switches: it returns the saved stack pointer of a process that can run, has
-- saved the one of the process that it leaves, whose quantum is whole again, has given the
-- superlock back, and has not changed the ring.
pub next_process_lem :
    (n fuel : ℕ) (s : Scheduler) (current_rsp : ℕ)
    → s.current ≢ null
    → (s.nodes s.current).p ≢ null
    → positive (decremented (s.nodes s.current).quantum) ≡ false
    → s.superlock ≡ unlocked
    → ((k : ℕ) → k < n → current_blocked (moved k (left s current_rsp)) ≡ true)
    → current_runs (moved n (left s current_rsp)) ≡ true
    → n < fuel
    → Switches s current_rsp n (next_process fuel s current_rsp)
unfolding unassign_quantum get_rsp_process set_rsp_process
next_process_lem n fuel s current_rsp c p q f b r l =
    let t = left s current_rsp in
    let same = moved_same n t in
    subst (Switches s current_rsp n)
      (sym (next_process-switch n fuel s current_rsp c q f (set_next_current_lem n fuel t b r l)))
      (record {
        runs = r;
        resumed = refl;
        saved =
            ap (λ w. get_rsp_process w.procs.heap (s.nodes s.current).p) same.1 ∙ ground (arith, p);
        renewed = ap (λ m. (m s.current).quantum) same.0 ∙ ground arith;
        free = refl;
        ring = λ a. ap (λ m. (m a).next) same.0 ∙ ground arith;
      })
