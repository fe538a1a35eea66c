-- ===== src/Mutex/Keys.antt =====
-- The keys and names of nanOS/Kernel/kernelMutex.c: `mutex_open` and `mutex_close`.
pub mod Search
use tpe_arqui.Prelude.{
  ℕ, ◌<◌, ◌≡◌, ◌≢◌, refl, sym, subst, arith, true, false, List, [], ◌∷◌, length, get_or, set,
  get_or-set_self, get_or-set_ne, ℤ, pos, negsuc, Option, none, some, tally,
}
use tpe_arqui.Process.Defs.{Heap, ready, null}
use tpe_arqui.Process.Status.{unblock_process, is_delete_process}
use tpe_arqui.Process.Status.Laws.{unblock_process-ready}
use tpe_arqui.Mutex.{
  Mutexes, locked, unlocked, no_mutex, max_mutexes, mutex_name_len, Slot, named, closed, full,
  find_slot, mutex_open, mutex_close, mutex_lock, mutex_unlock, create_new_mutex, is_open_key,
  unblock_all, max_mutex_open_error, not_open_error, returns, mutex_at, unlock_array, mutex_open_at,
}
pub use tpe_arqui.Mutex.Keys.Search.{
  same_name_iff, Named, NamedElse, Finds, find_slot-Finds, find_slot-closed_at,
}

-- The new state has the mutex of that name open at the key, and all else as before.
pub record Opened (s : Mutexes) (name : List ℕ) (k : ℕ) (t : Mutexes) : Type 0 where
  pub holds : Named t.open_mutexes name k
  pub others : (j : ℕ) → j ≢ k → get_or t.open_mutexes j no_mutex ≡ get_or s.open_mutexes j no_mutex
  pub kept : Named s.open_mutexes name k → t.open_mutexes ≡ s.open_mutexes
  pub array_free : t.array_mutex ≡ unlocked
  pub heap : t.heap ≡ s.heap

abbrev pub OpenResult : Mutexes → List ℕ → Option (ℤ × Mutexes) → Type 0
OpenResult s name none = ⊥
OpenResult s name (some (pos k, t)) = (k < length s.open_mutexes) × Opened s name k t
OpenResult s name (some (negsuc n, t)) =
    (negsuc n ≡ max_mutex_open_error)
    × (t ≡ s)
    × ((i : ℕ) → i < length s.open_mutexes → NamedElse s.open_mutexes name i)

open_at :
    (s : Mutexes) (name : List ℕ) (slot : Slot)
    → Finds s.open_mutexes name slot
    → s.array_mutex ≡ unlocked
    → OpenResult s name (some (mutex_open_at (record s { array_mutex = locked }) name slot))
unfolding unlock_array create_new_mutex
open_at s name (named k) f u = (
  f.0,
  record { holds = f.1; others = λ j h. refl; kept = λ h. refl; array_free = refl; heap = refl },
)
open_at s name (closed k) f u = (
  f.0,
  record {
    holds = ground (arith, get_or-set_self s.open_mutexes k (create_new_mutex name) no_mutex f.0);
    others =
        λ j h. get_or-set_ne s.open_mutexes k j (create_new_mutex name) no_mutex (λ e. h (sym e));
    kept = λ h. ground (arith, h, f.1);
    array_free = refl;
    heap = refl;
  },
)
open_at s name full f u = (refl, ground arith, f)

-- While the array is not locked, `mutex_open` comes back with the array unlocked and no process
-- changed. Either it returns the key of a slot in which a mutex of that name is now open, where a
-- mutex that was open there under that name is left as it was and all other slots are as before;
-- or it returns -2, changes nothing, and every slot holds an open mutex of another name. (The name
-- is shorter than the 64 bytes of its array.)
pub mutex_open_lem :
    (s : Mutexes) (name : List ℕ)
    → length name < mutex_name_len
    → s.array_mutex ≡ unlocked
    → OpenResult s name (mutex_open s name)
unfolding mutex_open
mutex_open_lem s name fits u =
    subst (OpenResult s name)
      {x = some
        (mutex_open_at (record s { array_mutex = locked }) name (find_slot s.open_mutexes name 0))}
      (ground (arith, u))
      (open_at s name (find_slot s.open_mutexes name 0) (find_slot-Finds s.open_mutexes name) u)

-- The mutex is found only if every slot before it is open: with a slot free before a mutex that is
-- open under the name, `mutex_open` makes a second mutex of that name in the free slot.
pub mutex_open_duplicate :
    (s : Mutexes) (name : List ℕ) (j k : ℕ)
    → length name < mutex_name_len
    → s.array_mutex ≡ unlocked
    → j < k
    → k < length s.open_mutexes
    → ((i : ℕ) → i < j → NamedElse s.open_mutexes name i)
    → (get_or s.open_mutexes j no_mutex).is_open ≡ false
    → Named s.open_mutexes name k
    → (t : Mutexes) × (mutex_open s name ≡ some (pos j, t))
      × Named t.open_mutexes name j
      × Named t.open_mutexes name k
unfolding mutex_open create_new_mutex unlock_array
mutex_open_duplicate s name j k fits u l h below shut holds =
    let m = create_new_mutex name in
    (
      unlock_array (record s { open_mutexes = set s.open_mutexes j m }),
      ground (arith, u, find_slot-closed_at s.open_mutexes name j (omega arith) below shut),
      ground (arith, get_or-set_self s.open_mutexes j m no_mutex (omega arith)),
      ground (arith, holds, get_or-set_ne s.open_mutexes j k m no_mutex (omega arith)),
    )

-- `mutex_lock` and `mutex_unlock` of a key that is not open return -1 and change nothing.
pub not_open_errors :
    (s : Mutexes) (key : ℤ) (p : ℕ)
    → is_open_key s key ≡ false
    → (mutex_lock s key p ≡ (returns not_open_error, s))
      × (mutex_unlock s key ≡ (not_open_error, s))
unfolding mutex_lock mutex_unlock
not_open_errors s key p h = ground arith

unblock_all_keeps :
    (h : Heap) (ps : List ℕ) (p : ℕ) → (h p).st ≡ ready → (unblock_all h ps p).st ≡ ready
unfolding unblock_all unblock_process
unblock_all_keeps h [] p r = r
unblock_all_keeps h (q ∷ ps) p r = unblock_all_keeps (unblock_process h q) ps p (ground arith)

unblock_process_other :
    (h : Heap) (q p : ℕ)
    → is_delete_process h p ≡ false
    → is_delete_process (unblock_process h q) p ≡ false
unfolding unblock_process is_delete_process
unblock_process_other h q p l = ground arith

pub unblock_all-ready :
    (h : Heap) (ps : List ℕ) (p : ℕ)
    → 0 < tally p ps
    → p ≢ null
    → is_delete_process h p ≡ false
    → (unblock_all h ps p).st ≡ ready
unfolding unblock_all
unblock_all-ready h [] p c n l = absurd (omega arith)
unblock_all-ready h (q ∷ ps) p c n l = ground (
  arith,
  unblock_process_other h q p l,
  unblock_all-ready (unblock_process h q) ps p,
  unblock_all_keeps (unblock_process h q) ps p,
  unblock_process-ready h p n l,
)

-- `mutex_close` of an open key, while the array is not locked, returns 1, closes the mutex, makes
-- every process in its queue that is not marked for deletion ready, and leaves all other mutexes.
pub mutex_close_lem :
    (s : Mutexes) (k : ℕ)
    → s.array_mutex ≡ unlocked
    → is_open_key s (pos k) ≡ true
    → length s.open_mutexes ≡ max_mutexes
    → (t : Mutexes) × (mutex_close s (pos k) ≡ some (pos 1, t))
      × (is_open_key t (pos k) ≡ false)
      × ((p : ℕ)
          → 0 < tally p (mutex_at s (pos k)).process_queue
          → p ≢ null
          → is_delete_process s.heap p ≡ false
          → (t.heap p).st ≡ ready)
      × ((j : ℕ) → j ≢ k → mutex_at t (pos j) ≡ mutex_at s (pos j))
unfolding mutex_close is_open_key unlock_array
mutex_close_lem s k u o n =
    let m = mutex_at s (pos k) in
    let m' = record m { process_queue = []; is_open = false } in
    let within : k < length s.open_mutexes = ground (arith, o) in
    (
      unlock_array (record s {
        heap = unblock_all s.heap m.process_queue;
        open_mutexes = set s.open_mutexes k m';
        array_mutex = locked;
      }),
      ground (arith, u, o),
      ground (arith, get_or-set_self s.open_mutexes k m' no_mutex within),
      λ p c n' l. unblock_all-ready s.heap m.process_queue p c n' l,
      λ j d. get_or-set_ne s.open_mutexes k j m' no_mutex (λ e. d (sym e)),
    )
