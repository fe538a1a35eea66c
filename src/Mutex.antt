-- ===== src/Mutex.antt =====
-- The kernel's mutexes: nanOS/Kernel/kernelMutex.c, with `_unlocked` of
-- nanOS/Kernel/asm/test_lock.asm. The queue of a mutex is the list of the addresses in it.
pub mod Exclusion
pub mod Keys
pub mod KeyCalls
use tpe_arqui.Prelude.{
  ℕ, zero, suc, ◌+◌, ltb, if◌then◌else◌, ◌==◌, Bool, true, false, not, ◌&&◌, List, [], ◌∷◌, ◌++◌,
  get_or, set, replicate, ℤ, pos, negsuc, Option, none, some,
}
use tpe_arqui.Process.Defs.{Heap, null}
use tpe_arqui.Process.Status.{block_process, unblock_process, is_delete_process}

abbrev pub max_mutexes : ℕ
max_mutexes = 128

-- LOCKED and UNLOCKED.
pub data Lock : Type 0 where
  locked unlocked : Lock

abbrev pub is_unlocked : Lock → Bool
is_unlocked unlocked = true
is_unlocked locked = false

-- `struct mutex`; `is_open` is `state == OPEN`.
pub record Mutex : Type 0 where
  pub name : List ℕ
  pub lock : Lock
  pub is_open : Bool
  pub process_queue : List ℕ

-- `array_mutex` and the table, with the superlock of processManager.c and the processes.
pub record Mutexes : Type 0 where
  pub open_mutexes : List Mutex
  pub array_mutex : Lock
  pub superlock : Lock
  pub heap : Heap

-- What stands beyond the table, and in a slot that was never used.
abbrev pub no_mutex : Mutex
no_mutex = record { name = []; lock = locked; is_open = false; process_queue = [] }

-- `strcmp(s, t) == 0` of two strings.
unfoldable pub same_name : List ℕ → List ℕ → Bool
same_name [] [] = true
same_name [] (d ∷ t) = false
same_name (c ∷ s) [] = false
same_name (c ∷ s) (d ∷ t) = c == d && same_name s t

-- `_unlocked`: one atomic exchange, which tells whether the lock was free and leaves it taken.
abbrev pub test_and_set : Lock → Bool × Lock
test_and_set l = (is_unlocked l, locked)

unfoldable pub is_open_key : Mutexes → ℤ → Bool
is_open_key s (pos k) = ltb k max_mutexes && (get_or s.open_mutexes k no_mutex).is_open
is_open_key s (negsuc n) = false

-- One try of `lock_array`'s loop: `none` if the array is taken, and the process yields and tries
-- again.
unfoldable pub lock_array : Mutexes → Option Mutexes
lock_array s =
    let (free, after) = test_and_set s.array_mutex in
    if free then some (record s { array_mutex = after }) else none

unfoldable pub unlock_array : Mutexes → Mutexes
unlock_array s = record s { array_mutex = unlocked }

abbrev pub set_superlock : Mutexes → Mutexes
set_superlock s = record s { superlock = locked }

abbrev pub unset_superlock : Mutexes → Mutexes
unset_superlock s = record s { superlock = unlocked }

-- MUTEX_NAME_LEN, the bytes of `name` in `struct kernel_mutex`.
abbrev pub mutex_name_len : ℕ
mutex_name_len = 64

-- The name has fewer than `mutex_name_len` characters: `strcpy` does not look, and a longer one
-- leaves its array.
unfoldable pub create_new_mutex : List ℕ → Mutex
create_new_mutex name = record { name = name; lock = unlocked; is_open = true; process_queue = [] }

-- Where the loop of `mutex_open` stops: at an open mutex of that name, at the first slot that is
-- not open, or at the end of the table.
pub data Slot : Type 0 where
  named : ℕ → Slot
  closed : ℕ → Slot
  full : Slot

unfoldable pub find_slot : List Mutex → List ℕ → ℕ → Slot
unfolding same_name
find_slot [] name k = full
find_slot (m ∷ ms) name k =
    let rest = find_slot ms name (k + 1) in
    if m.is_open then (if same_name name m.name then named k else rest) else closed k

abbrev pub max_mutex_open_error : ℤ
max_mutex_open_error = negsuc 1

abbrev pub not_open_error : ℤ
not_open_error = negsuc 0

abbrev pub mutex_open_at : Mutexes → List ℕ → Slot → ℤ × Mutexes
mutex_open_at s name (named k) = (pos k, unlock_array s)
mutex_open_at s name full = (max_mutex_open_error, unlock_array s)
mutex_open_at s name (closed k) =
    (pos k, unlock_array (record s { open_mutexes = set s.open_mutexes k (create_new_mutex name) }))

-- `none` if the array lock is taken.
unfoldable pub mutex_open : Mutexes → List ℕ → Option (ℤ × Mutexes)
unfolding lock_array unlock_array create_new_mutex
mutex_open s name = elim (lock_array s) [
  | none ↦ none
  | some t ↦ some (mutex_open_at t name (find_slot t.open_mutexes name 0))
]

-- `while (!is_empty(q)) unblock_process(dequeue(q));`
unfoldable pub unblock_all : Heap → List ℕ → Heap
unblock_all h [] = h
unblock_all h (p ∷ ps) = unblock_all (unblock_process h p) ps

abbrev pub key_index : ℤ → ℕ
key_index (pos k) = k
key_index (negsuc n) = max_mutexes

abbrev pub mutex_at : Mutexes → ℤ → Mutex
mutex_at s key = get_or s.open_mutexes (key_index key) no_mutex

abbrev pub put_mutex : Mutexes → ℤ → Mutex → Mutexes
put_mutex s key m = record s { open_mutexes = set s.open_mutexes (key_index key) m }

unfoldable pub mutex_close : Mutexes → ℤ → Option (ℤ × Mutexes)
unfolding lock_array unlock_array is_open_key unblock_all
mutex_close s key = elim (lock_array s) [
  | none ↦ none
  | some t ↦
      let m = mutex_at t key in
      let closed_m = record m { process_queue = []; is_open = false } in
      some (
        if is_open_key t key
        then (
          pos 1,
          unlock_array
              (put_mutex (record t { heap = unblock_all t.heap m.process_queue }) key closed_m),
        )
        else (not_open_error, unlock_array t))
]

-- Whether the call came through at once or blocked the process, and what it returns in the end.
pub data Outcome : Type 0 where
  returns : ℤ → Outcome
  yields_then_returns : ℤ → Outcome

-- The body on the mutex itself: whether it was free.
unfoldable pub acquire : Mutex → Heap → ℕ → Bool × Mutex × Heap
acquire m h p =
    let (free, after) = test_and_set m.lock in
    if free then (true, record m { lock = after }, h) else (
      false,
      record m { lock = after; process_queue = m.process_queue ++ p ∷ [] },
      block_process h p,
    )

-- `current` is what `get_current_process()` returns.
unfoldable pub mutex_lock : Mutexes → ℤ → ℕ → Outcome × Mutexes
unfolding is_open_key acquire
mutex_lock s key current =
    let t = set_superlock s in
    let (free, m, h) = acquire (mutex_at t key) t.heap current in
    let u = unset_superlock (put_mutex (record t { heap = h }) key m) in
    if is_open_key s key
    then ((if free then returns (pos 1) else yields_then_returns (pos 1)), u)
    else (returns not_open_error, s)

-- `dequeue` until the process is not marked for deletion; `null` from an empty queue.
unfoldable pub next_live : Heap → List ℕ → ℕ × List ℕ
next_live h [] = (null, [])
next_live h (p ∷ ps) = if is_delete_process h p then next_live h ps else (p, ps)

-- The body on the mutex itself: the process that is woken, or `null`.
unfoldable pub release : Mutex → Heap → ℕ × Mutex × Heap
unfolding next_live
release m h =
    let (p, rest) = next_live h m.process_queue in
    let freed = record m { process_queue = rest; lock = unlocked } in
    if p == null then (p, freed, h) else (p, record freed { lock = locked }, unblock_process h p)

unfoldable pub mutex_unlock : Mutexes → ℤ → ℤ × Mutexes
unfolding is_open_key release
mutex_unlock s key =
    let t = set_superlock s in
    let (p, m, h) = release (mutex_at t key) t.heap in
    if is_open_key s key
    then (pos 1, unset_superlock (put_mutex (record t { heap = h }) key m))
    else (not_open_error, s)

-- One entry of `get_mutexes_info`'s array.
pub record MutexInfo : Type 0 where
  pub name : List ℕ
  pub lock : Lock
  pub key : ℕ

unfoldable pub open_infos : List Mutex → ℕ → List MutexInfo
open_infos [] k = []
open_infos (m ∷ ms) k =
    let rest = open_infos ms (k + 1) in
    if m.is_open then record { name = m.name; lock = m.lock; key = k } ∷ rest else rest

-- The result `j` is the length of the array that is filled.
unfoldable pub get_mutexes_info : Mutexes → Option (List MutexInfo × Mutexes)
unfolding lock_array unlock_array open_infos
get_mutexes_info s = elim (lock_array s) [
  | none ↦ none
  | some t ↦ some (open_infos t.open_mutexes 0, unlock_array t)
]
