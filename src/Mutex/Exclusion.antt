-- ===== src/Mutex/Exclusion.antt =====
-- The mutexes of nanOS/Kernel/kernelMutex.c under every interleaving. The superlock keeps
-- `mutex_lock` and `mutex_unlock` from being interrupted, so that each call is one step.
use tpe_arqui.Prelude.{
  ℕ, ◌+◌, ◌≤◌, ◌<◌, ◌≡◌, ◌≢◌, ◌⊎◌, refl, ap, arith, if◌then◌else◌, ◌==◌, Bool, true, false, not,
  List, [], ◌∷◌, ◌++◌, length, length-append, tally, tally-append,
}
use tpe_arqui.Process.Defs.{Heap, Status, ready, blocked, delete, null}
use tpe_arqui.Process.Status.{block_process, unblock_process, is_delete_process}
use tpe_arqui.Process.Status.Laws.{unblock_process-ready}
use tpe_arqui.Mutex.{Mutex, Lock, locked, unlocked, create_new_mutex, acquire, release, next_live}

-- An open mutex, the processes, and those whose last call of `mutex_lock` has come through and
-- that have not called `mutex_unlock` since.
pub record System : Type 0 where
  pub mutex : Mutex
  pub heap : Heap
  pub inside : List ℕ

abbrev pub enter : Bool → ℕ → List ℕ → List ℕ
enter true p inside = p ∷ inside
enter false p inside = inside

-- `mutex_lock` by a process that runs and is not inside.
abbrev pub after_lock : System → ℕ → System
after_lock s p =
    let (free, m, h) = acquire s.mutex s.heap p in
    record { mutex = m; heap = h; inside = enter free p s.inside }

-- `mutex_unlock`, with `rest` the others inside; the process that it wakes is inside from now on.
abbrev pub after_unlock : System → List ℕ → System
after_unlock s rest =
    let (p, m, h) = release s.mutex s.heap in
    record { mutex = m; heap = h; inside = enter (not (p == null)) p rest }

-- The rest of the kernel changes the processes as it likes, but it wakes none that waits here; it
-- may mark them for deletion.
abbrev pub Elsewhere : List ℕ → Heap → Heap → Type 0
Elsewhere queue h h' = (q : ℕ) → 0 < tally q queue → ((h' q).st ≡ (h q).st) ⊎ ((h' q).st ≡ delete)

pub data Step (s t : System) : Type 0 where
  locks :
      (p : ℕ)
      → p ≢ null
      → (s.heap p).st ≡ ready
      → tally p s.inside ≡ 0
      → t ≡ after_lock s p
      → Step s t
  unlocks :
      (xs ys : List ℕ) (p : ℕ) → s.inside ≡ xs ++ p ∷ ys → t ≡ after_unlock s (xs ++ ys) → Step s t
  others :
      (h : Heap) → Elsewhere s.mutex.process_queue s.heap h → t ≡ record s { heap = h } → Step s t

pub data Reach : System → Type 0 where
  start :
      (name : List ℕ) (h : Heap) (s : System)
      → s ≡ record { mutex = create_new_mutex name; heap = h; inside = [] }
      → Reach s
  next : {s t : System} → Reach s → Step s t → Reach t

-- BLOCKED, or to be deleted.
abbrev pub is_parked : Status → Bool
is_parked blocked = true
is_parked delete = true
is_parked _ = false

abbrev pub Parked : Heap → List ℕ → Type 0
Parked h [] = Unit {0}
Parked h (p ∷ ps) = (p ≢ null) × (is_parked (h p).st ≡ true) × Parked h ps

abbrev pub holders : Lock → ℕ
holders locked = 1
holders unlocked = 0

pub record Inv (s : System) : Type 0 where
  -- one process inside if the mutex is locked, none if it is not
  pub exclusive : length s.inside ≡ holders s.mutex.lock
  -- nobody waits for a mutex that is free
  pub no_idle_wait : s.mutex.lock ≡ unlocked → s.mutex.process_queue ≡ []
  -- who waits is blocked, or marked for deletion
  pub parked : Parked s.heap s.mutex.process_queue
  -- nobody waits twice, or waits and is inside
  pub once : (p : ℕ) → tally p s.mutex.process_queue + tally p s.inside ≤ 1

ready-tally : (h : Heap) (p : ℕ) (ps : List ℕ) → Parked h ps → (h p).st ≡ ready → tally p ps ≡ 0
ready-tally h p [] w r = refl
ready-tally h p (q ∷ ps) w r = ground (arith, ready-tally h p ps w.2 r)

Parked-append :
    (h : Heap) (p : ℕ) (ps : List ℕ)
    → Parked h ps
    → p ≢ null
    → is_parked (h p).st ≡ true
    → Parked h (ps ++ p ∷ [])
Parked-append h p [] w n b = (n, b, tt)
Parked-append h p (q ∷ ps) w n b = (w.0, w.1, Parked-append h p ps w.2 n b)

Parked-Elsewhere :
    (g h : Heap) (ps : List ℕ)
    → Parked g ps
    → ((q : ℕ) → 0 < tally q ps → ((h q).st ≡ (g q).st) ⊎ ((h q).st ≡ delete))
    → Parked h ps
Parked-Elsewhere g h [] w e = tt
Parked-Elsewhere g h (p ∷ ps) w e =
    (w.0, ground (arith, e p, w.1), Parked-Elsewhere g h ps w.2 (λ q c. e q (ground arith)))

Parked-block : (h : Heap) (p : ℕ) (ps : List ℕ) → Parked h ps → Parked (block_process h p) ps
unfolding block_process
Parked-block h p [] w = tt
Parked-block h p (q ∷ ps) w = (w.0, ground arith, Parked-block h p ps w.2)

Parked-unblock :
    (h : Heap) (p : ℕ) (ps : List ℕ)
    → Parked h ps
    → tally p ps ≡ 0
    → Parked (unblock_process h p) ps
unfolding unblock_process
Parked-unblock h p [] w c = tt
Parked-unblock h p (q ∷ ps) w c = (w.0, ground arith, Parked-unblock h p ps w.2 (ground arith))

-- What is left behind the first live process of a queue.
next_live_lem :
    (h : Heap) (ps : List ℕ) (a : ℕ)
    → Parked h ps
    → let (p, rest) = next_live h ps in
      Parked h rest
      × ((p ≡ null) → rest ≡ [])
      × ((p ≢ null) → tally a rest + (if a == p then 1 else 0) ≤ tally a ps)
      × (tally a rest ≤ tally a ps)
unfolding next_live
next_live_lem h [] a w = ground arith
next_live_lem h (q ∷ ps) a w = ground (arith, next_live_lem h ps a w.2)

block-is_parked :
    (h : Heap) (p : ℕ) → p ≢ null → (h p).st ≡ ready → is_parked (block_process h p p).st ≡ true
unfolding block_process
block-is_parked h p n r = ground arith

locks-Inv :
    (s : System) (p : ℕ)
    → Inv s
    → p ≢ null
    → (s.heap p).st ≡ ready
    → tally p s.inside ≡ 0
    → Inv (after_lock s p)
unfolding acquire
locks-Inv s p v n r c = record {
  exclusive = ground (arith, v.exclusive);
  no_idle_wait = ground (arith, v.no_idle_wait);
  parked = ground (
    arith,
    v.parked,
    Parked-append (block_process s.heap p) p s.mutex.process_queue
        (Parked-block s.heap p s.mutex.process_queue v.parked) n (block-is_parked s.heap p n r),
  );
  once = λ a. ground (
    arith,
    v.once a,
    c,
    ready-tally s.heap p s.mutex.process_queue v.parked r,
    tally-append a s.mutex.process_queue (p ∷ []),
  );
}

holders_le : (l : Lock) → holders l ≤ 1
holders_le locked = omega arith
holders_le unlocked = omega arith

unlocks-Inv :
    (s : System) (xs ys : List ℕ) (p : ℕ)
    → Inv s
    → s.inside ≡ xs ++ p ∷ ys
    → Inv (after_unlock s (xs ++ ys))
unfolding release
unlocks-Inv s xs ys p v e =
    let queue = s.mutex.process_queue in
    let (w, rest) = next_live s.heap queue in
    let size : length (xs ++ ys) + 1 ≡ length s.inside =
      omega (arith, ap length e, length-append xs (p ∷ ys), length-append xs ys) in
    let left = next_live_lem s.heap queue w v.parked in
    record {
      exclusive = ground (arith, size, v.exclusive, holders_le s.mutex.lock);
      no_idle_wait = ground (arith, left);
      parked = ground (arith, left, v.once w, Parked-unblock s.heap w rest (left.0));
      once = λ a. ground (
        arith,
        next_live_lem s.heap queue a v.parked,
        v.once a,
        ap (tally a) e,
        tally-append a xs (p ∷ ys),
        tally-append a xs ys,
      );
    }

others-Inv :
    (s : System) (h : Heap)
    → Inv s
    → Elsewhere s.mutex.process_queue s.heap h
    → Inv (record s { heap = h })
others-Inv s h v e = record {
  exclusive = v.exclusive;
  no_idle_wait = v.no_idle_wait;
  parked = Parked-Elsewhere s.heap h s.mutex.process_queue v.parked e;
  once = v.once;
}

Step-Inv : {s t : System} → Step s t → Inv s → Inv t
Step-Inv {s} {t} (locks p n r c e) v = rw e (locks-Inv s p v n r c)
Step-Inv {s} {t} (unlocks xs ys p i e) v = rw e (unlocks-Inv s xs ys p v i)
Step-Inv {s} {t} (others h f e) v = rw e (others-Inv s h v f)

start-Inv :
    (name : List ℕ) (h : Heap)
    → Inv (record { mutex = create_new_mutex name; heap = h; inside = [] })
unfolding create_new_mutex
start-Inv name h = ground arith

-- In every interleaving of `mutex_lock` by processes that run and are not inside, `mutex_unlock` by
-- a process inside, and changes elsewhere that wake no waiter: at most one process is inside, one
-- exactly when the mutex is locked; nobody waits while it is unlocked; who waits is blocked or
-- marked for deletion, waits once, and is not inside.
pub Reach-Inv : {s : System} → Reach s → Inv s
Reach-Inv (start name h s e) = rw e (start-Inv name h)
Reach-Inv (next r st) = Step-Inv st (Reach-Inv r)

-- All of the processes are marked for deletion.
abbrev pub Doomed : Heap → List ℕ → Type 0
Doomed h [] = Unit {0}
Doomed h (p ∷ ps) = (is_delete_process h p ≡ true) × Doomed h ps

next_live-append :
    (h : Heap) (dead rest : List ℕ) (p : ℕ)
    → Doomed h dead
    → is_delete_process h p ≡ false
    → next_live h (dead ++ p ∷ rest) ≡ (p, rest)
unfolding next_live
next_live-append h [] rest p d l = ground arith
next_live-append h (q ∷ dead) rest p d l = ground (arith, next_live-append h dead rest p d.1 l)

next_live-Doomed : (h : Heap) (ps : List ℕ) → Doomed h ps → next_live h ps ≡ (null, [])
unfolding next_live
next_live-Doomed h [] d = refl
next_live-Doomed h (p ∷ ps) d = ground (arith, next_live-Doomed h ps d.1)

-- `mutex_unlock` hands the mutex over to the process that has waited longest and is not marked for
-- deletion: it leaves the queue, with those before it, and is ready, and the mutex stays locked.
pub release_hands_over :
    (m : Mutex) (h : Heap) (dead rest : List ℕ) (p : ℕ)
    → m.process_queue ≡ dead ++ p ∷ rest
    → Doomed h dead
    → p ≢ null
    → is_delete_process h p ≡ false
    → let (w, m', h') = release m h in
      (w ≡ p) × (m'.process_queue ≡ rest) × (m'.lock ≡ locked) × ((h' p).st ≡ ready)
unfolding release
release_hands_over m h dead rest p e d n l =
    ground
      (arith, ap (next_live h) e, next_live-append h dead rest p d l, unblock_process-ready h p n l)

-- If all who wait are marked for deletion, `mutex_unlock` empties the queue, unlocks the mutex and
-- wakes nobody.
pub release_nobody :
    (m : Mutex) (h : Heap)
    → Doomed h m.process_queue
    → release m h ≡ (null, record m { process_queue = []; lock = unlocked }, h)
unfolding release
release_nobody m h d = ground (arith, next_live-Doomed h m.process_queue d)
