-- ===== src/Cond/Laws.antt =====
-- Who waits at a condition variable of nanOS/Kernel/condVariable.c, and who wakes.
use tpe_arqui.Prelude.{
  ℕ, ◌<◌, ◌≡◌, ◌≢◌, refl, sym, subst, arith, true, false, List, [], ◌∷◌, ◌++◌, get_or-set_self,
  get_or-set_ne, length, tally, ℤ, pos, Option, none, some,
}
use tpe_arqui.Process.Defs.{Heap, null, ready}
use tpe_arqui.Process.Status.{block_process, unblock_process, is_delete_process, is_blocked_process}
use tpe_arqui.Mutex.{mutex_unlock, unblock_all}
use tpe_arqui.Mutex.Keys.{unblock_all-ready}
use tpe_arqui.Cond.{
  Conds, CondVariable, no_cond, cond_at, on_queue, is_open_cond, sync_enqueue, sync_dequeue,
  enter_wait, sleep_in_wait, cond_wait, cond_signal, cond_broadcast, max_cond_var, set_cond_heap,
}

unblock_all_others : (h : Heap) (ps : List ℕ) (p : ℕ) → tally p ps ≡ 0 → unblock_all h ps p ≡ h p
unfolding unblock_all unblock_process
unblock_all_others h [] p c = refl
unblock_all_others h (q ∷ ps) p c =
    let rest = unblock_all_others (unblock_process h q) ps p in ground (arith, rest, c)

on_queue-process_queue :
    (s : Conds) (k : ℕ) (q : List ℕ)
    → k < length s.open_conds
    → ((cond_at (on_queue s k q) k).process_queue ≡ q)
      × ((j : ℕ) → j ≢ k → cond_at (on_queue s k q) j ≡ cond_at s j)
on_queue-process_queue s k q l =
    let v = cond_at s k in
    let v' : CondVariable = record v { process_queue = q } in
    (
      ground (arith, get_or-set_self s.open_conds k v' no_cond l),
      λ j n. get_or-set_ne s.open_conds k j v' no_cond (λ e. n (ground (arith, e))),
    )

within :
    (s : Conds) (k : ℕ)
    → is_open_cond s (pos k) ≡ true
    → length s.open_conds ≡ max_cond_var
    → k < length s.open_conds
unfolding is_open_cond
within s k o n = ground (arith, o, n)

-- What a call that wakes `woken` and leaves the queue `rest` at `k` has done.
pub record Woke (s : Conds) (k : ℕ) (woken rest : List ℕ) (out : ℤ × Conds) : Type 0 where
  pub success : out.0 ≡ pos 1
  pub queue : (cond_at out.1 k).process_queue ≡ rest
  pub others : (j : ℕ) → j ≢ k → cond_at out.1 j ≡ cond_at s j
  pub wakes :
      (p : ℕ)
      → 0 < tally p woken
      → p ≢ null
      → is_delete_process s.mutexes.heap p ≡ false
      → (out.1.mutexes.heap p).st ≡ ready
  pub leaves : (p : ℕ) → tally p woken ≡ 0 → out.1.mutexes.heap p ≡ s.mutexes.heap p

queue-Woke :
    (s : Conds) (k : ℕ) (woken rest : List ℕ)
    → k < length s.open_conds
    → Woke s k woken rest
        (pos 1, set_cond_heap (on_queue s k rest) (unblock_all s.mutexes.heap woken))
queue-Woke s k woken rest l =
    let queue = on_queue-process_queue s k rest l in
    record {
      success = refl;
      queue = queue.0;
      others = queue.1;
      wakes = λ p c n d. unblock_all-ready s.mutexes.heap woken p c n d;
      leaves = λ p c. unblock_all_others s.mutexes.heap woken p c;
    }

signal_first :
    (s : Conds) (k p : ℕ) (rest : List ℕ)
    → is_open_cond s (pos k) ≡ true
    → (cond_at s k).process_queue ≡ p ∷ rest
    → p ≢ null
    → cond_signal s (pos k)
      ≡ (pos 1, set_cond_heap (on_queue s k rest) (unblock_all s.mutexes.heap (p ∷ [])))
unfolding cond_signal sync_dequeue unblock_all is_open_cond
signal_first s k p rest o q l = ground (arith, o, q, l)

-- `cond_signal` of an open condition variable at which processes wait returns 1, takes the one that
-- has waited longest from the queue and makes it ready to run, unless it is marked for deletion. The
-- others wait on, and no other process and no other condition variable changes.
pub cond_signal_lem :
    (s : Conds) (k p : ℕ) (rest : List ℕ)
    → is_open_cond s (pos k) ≡ true
    → length s.open_conds ≡ max_cond_var
    → (cond_at s k).process_queue ≡ p ∷ rest
    → p ≢ null
    → Woke s k (p ∷ []) rest (cond_signal s (pos k))
cond_signal_lem s k p rest o n q l =
    subst (Woke s k (p ∷ []) rest) (sym (signal_first s k p rest o q l))
      (queue-Woke s k (p ∷ []) rest (within s k o n))

broadcast_all :
    (s : Conds) (k : ℕ)
    → is_open_cond s (pos k) ≡ true
    → cond_broadcast s (pos k) ≡ (
      pos 1,
      set_cond_heap (on_queue s k []) (unblock_all s.mutexes.heap (cond_at s k).process_queue),
    )
unfolding cond_broadcast is_open_cond
broadcast_all s k o = ground (arith, o)

-- `cond_broadcast` of an open condition variable returns 1, empties its queue and makes every process
-- that waited in it ready to run, unless it is marked for deletion. No other process and no other
-- condition variable changes.
pub cond_broadcast_lem :
    (s : Conds) (k : ℕ)
    → is_open_cond s (pos k) ≡ true
    → length s.open_conds ≡ max_cond_var
    → Woke s k (cond_at s k).process_queue [] (cond_broadcast s (pos k))
cond_broadcast_lem s k o n =
    let q = (cond_at s k).process_queue in
    subst (Woke s k q []) (sym (broadcast_all s k o)) (queue-Woke s k q [] (within s k o n))

-- What `cond_wait` of the process `p` has done up to the point where it yields.
pub record Waited (s : Conds) (k : ℕ) (lock_key : ℤ) (p : ℕ) (t : Conds) : Type 0 where
  pub queue : (cond_at t k).process_queue ≡ (cond_at s k).process_queue ++ p ∷ []
  pub others : (j : ℕ) → j ≢ k → cond_at t j ≡ cond_at s j
  pub asleep : is_blocked_process t.mutexes.heap p ≡ true
  pub released : t.mutexes.open_mutexes ≡ (mutex_unlock s.mutexes lock_key).1.open_mutexes

abbrev pub Waits : Conds → ℕ → ℤ → ℕ → Option Conds → Type 0
Waits s k lock_key p none = ⊥
Waits s k lock_key p (some t) = Waited s k lock_key p t

wait_open :
    (s : Conds) (k : ℕ) (lock_key : ℤ) (p : ℕ)
    → is_open_cond s (pos k) ≡ true
    → cond_wait s (pos k) lock_key p ≡ (
        let t = record s { mutexes = (mutex_unlock s.mutexes lock_key).1 } in
        some (
          set_cond_heap
            (on_queue t k ((cond_at t k).process_queue ++ p ∷ []))
            (block_process t.mutexes.heap p)))
unfolding cond_wait enter_wait sleep_in_wait sync_enqueue is_open_cond
wait_open s k lock_key p o = rw (cond_wait, enter_wait, o) refl

blocks :
    (h : Heap) (p : ℕ)
    → is_delete_process h p ≡ false
    → is_blocked_process (block_process h p) p ≡ true
unfolding block_process is_delete_process is_blocked_process
blocks h p d = ground (arith, d)

-- `cond_wait` at an open condition variable, by a process that is not marked for deletion, unlocks
-- the mutex that it is given, puts the process behind all who wait, blocks it, and changes no other
-- condition variable.
pub cond_wait_lem :
    (s : Conds) (k : ℕ) (lock_key : ℤ) (p : ℕ)
    → is_open_cond s (pos k) ≡ true
    → length s.open_conds ≡ max_cond_var
    → is_delete_process (mutex_unlock s.mutexes lock_key).1.heap p ≡ false
    → Waits s k lock_key p (cond_wait s (pos k) lock_key p)
cond_wait_lem s k lock_key p o n d =
    let t : Conds = record s { mutexes = (mutex_unlock s.mutexes lock_key).1 } in
    let q = (cond_at s k).process_queue ++ p ∷ [] in
    let queue = on_queue-process_queue t k q (within s k o n) in
    subst (Waits s k lock_key p) (sym (wait_open s k lock_key p o)) (record {
      queue = queue.0;
      others = queue.1;
      asleep = blocks t.mutexes.heap p d;
      released = refl;
    })

-- Of the process `p`: blocked, and at no condition variable.
pub record Stranded (p : ℕ) (t : Conds) : Type 0 where
  pub asleep : is_blocked_process t.mutexes.heap p ≡ true
  pub nowhere : (j : ℕ) → tally p (cond_at t j).process_queue ≡ 0
