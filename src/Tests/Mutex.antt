-- ===== src/Tests/Mutex.antt =====
-- The mutexes of nanOS/Kernel/kernelMutex.c: three processes at one mutex, and tables of mutexes.
use tpe_arqui.Prelude.{
  ℕ, ◌<◌, ◌≡◌, ◌≢◌, refl, arith, Bool, true, false, [], ◌∷◌, replicate, pos, some, if◌then◌else◌,
  ◌==◌, tally,
}
use tpe_arqui.Process.Defs.{Process, Heap, Status, ready, blocked, delete, null}
use tpe_arqui.Process.Status.{is_delete_process}
use tpe_arqui.Mutex.{
  Mutex, Mutexes, locked, unlocked, no_mutex, create_new_mutex, acquire, release, mutex_open,
  mutex_close, is_open_key, mutex_at,
}
use tpe_arqui.Mutex.Exclusion.{
  System, Step, Reach, Inv, after_lock, after_unlock, Reach-Inv, release_hands_over,
}
use tpe_arqui.Mutex.Keys.{Named, OpenResult, mutex_open_lem, mutex_open_duplicate, mutex_close_lem}

abbrev some_process : Status → Process
some_process st = record {
  st = st;
  name = [];
  entry_point = 0;
  rsp = 0;
  stack_page = 0;
  n_data_page = 0;
  data_page = replicate 64 0;
  pid = 2;
  ppid = 1;
  open_fds = λ _. false;
}

abbrev all_ready : Heap
all_ready _ = some_process ready

abbrev opened : System
opened = record { mutex = create_new_mutex (b'm' ∷ []); heap = all_ready; inside = [] }

opened-Reach : Reach opened
opened-Reach = Reach.start (b'm' ∷ []) all_ready opened refl

entered-Reach : Reach (after_lock opened 10)
entered-Reach = Reach.next opened-Reach (Step.locks 10 (omega arith) refl refl refl)

waited-Reach : Reach (after_lock (after_lock opened 10) 20)
unfolding acquire create_new_mutex
waited-Reach = Reach.next entered-Reach (Step.locks 20 (omega arith) refl refl refl)

-- Process 10 gives the mutex back, and 20 has it.
Reach-Inv_example : Inv (after_unlock (after_lock (after_lock opened 10) 20) [])
unfolding acquire create_new_mutex
Reach-Inv_example = Reach-Inv (Reach.next waited-Reach (Step.unlocks [] [] 10 refl refl))

-- Process 20 is to be deleted.
abbrev one_doomed : Heap
one_doomed p = some_process (if p == 20 then delete else blocked)

abbrev contended : Mutex
contended = record { name = []; lock = locked; is_open = true; process_queue = 20 ∷ 30 ∷ 40 ∷ [] }

release_hands_over_example :
    let (w, m, h) = release contended one_doomed in
    (w ≡ 30) × (m.process_queue ≡ 40 ∷ []) × (m.lock ≡ locked) × ((h 30).st ≡ ready)
unfolding is_delete_process
release_hands_over_example =
    release_hands_over contended one_doomed (20 ∷ []) (40 ∷ []) 30 refl (refl, tt) (omega arith)
      refl

abbrev mutex_named : ℕ → Bool → Mutex
mutex_named c b = record { name = c ∷ []; lock = unlocked; is_open = b; process_queue = 30 ∷ [] }

-- Slot 0 has been closed since "b" was opened in slot 1.
abbrev gap : Mutexes
gap = record {
  open_mutexes = mutex_named b'a' false ∷ mutex_named b'b' true ∷ replicate 126 no_mutex;
  array_mutex = unlocked;
  superlock = unlocked;
  heap = all_ready;
}

mutex_open_lem_example : OpenResult gap (b'a' ∷ []) (mutex_open gap (b'a' ∷ []))
mutex_open_lem_example = mutex_open_lem gap (b'a' ∷ []) (omega arith) refl

open_twice :
    (t : Mutexes) × (mutex_open gap (b'b' ∷ []) ≡ some (pos 0, t))
    × Named t.open_mutexes (b'b' ∷ []) 0
    × Named t.open_mutexes (b'b' ∷ []) 1
open_twice =
    mutex_open_duplicate gap (b'b' ∷ []) 0 1 (omega arith) refl (omega arith) (omega arith)
      (λ i h. absurd (omega arith)) refl (refl, refl)

mutex_5_closed :
    (t : Mutexes) × (mutex_close gap (pos 1) ≡ some (pos 1, t))
    × (is_open_key t (pos 1) ≡ false)
    × ((p : ℕ)
        → 0 < tally p (mutex_at gap (pos 1)).process_queue
        → p ≢ null
        → is_delete_process gap.heap p ≡ false
        → (t.heap p).st ≡ ready)
    × ((j : ℕ) → j ≢ 1 → mutex_at t (pos j) ≡ mutex_at gap (pos j))
unfolding is_open_key
mutex_5_closed = mutex_close_lem gap 1 refl refl refl
