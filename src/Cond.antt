-- ===== src/Cond.antt =====
-- Condition variables: nanOS/Kernel/condVariable.c. The queue of one is the list of the addresses in
-- it; `key_calls` records the calls on the locks of the array and of the queues, latest first.
pub mod Laws
use tpe_arqui.Prelude.{
  ℕ, ◌+◌, ◌==◌, ltb, if◌then◌else◌, Bool, true, false, ◌&&◌, List, [], ◌∷◌, ◌++◌, map, get_or, set,
  ℤ, pos, negsuc, Option, none, some,
}
use tpe_arqui.Process.Defs.{Heap, null}
use tpe_arqui.Process.Status.{block_process, unblock_process}
use tpe_arqui.Libc.Numbers.Digits.{digits, backwards}
use tpe_arqui.Mutex.KeyCalls.{KeyCall, locks_key, unlocks_key}
use tpe_arqui.Mutex.{
  Mutexes, Outcome, same_name, mutex_open, mutex_close, mutex_lock, mutex_unlock, unblock_all,
  not_open_error,
}

abbrev pub max_cond_var : ℕ
max_cond_var = 128

abbrev pub max_cond_open_error : ℤ
max_cond_open_error = negsuc 1

-- `COND_LOCK_IDENTIFIER`, "__COND_ARRAY_LOCK__"
abbrev pub cond_lock_identifier : List ℕ
cond_lock_identifier =
    95 ∷ 95 ∷ 67 ∷ 79 ∷ 78 ∷ 68 ∷ 95 ∷ 65 ∷ 82 ∷ 82 ∷ 65 ∷ 89 ∷ 95 ∷ 76 ∷ 79 ∷ 67 ∷ 75 ∷ 95 ∷ 95
    ∷ []

-- `cond_variable`
pub record CondVariable : Type 0 where
  pub name : List ℕ
  pub is_open : Bool
  pub lock_queue : ℤ
  pub process_queue : List ℕ

-- The statics, and the mutexes with the heap of the processes.
pub record Conds : Type 0 where
  pub open_conds : List CondVariable
  pub array_lock : ℤ
  pub mutexes : Mutexes
  pub key_calls : List KeyCall

abbrev pub no_cond : CondVariable
no_cond = record { name = []; is_open = false; lock_queue = pos 0; process_queue = [] }

abbrev pub cond_at : Conds → ℕ → CondVariable
cond_at s k = get_or s.open_conds k no_cond

abbrev pub put_cond : Conds → ℕ → CondVariable → Conds
put_cond s k v = record s { open_conds = set s.open_conds k v }

abbrev pub calls_key : Conds → KeyCall → Conds
calls_key s c = record s { key_calls = c ∷ s.key_calls }

abbrev pub set_cond_heap : Conds → Heap → Conds
set_cond_heap s h = record s { mutexes = (let m = s.mutexes in record m { heap = h }) }

unfoldable pub is_open_cond : Conds → ℤ → Bool
is_open_cond s (pos k) = ltb k max_cond_var && (cond_at s k).is_open
is_open_cond s (negsuc n) = false

-- Where the loop of `cond_open` stops.
pub data CondSlot : Type 0 where
  named_cond : ℕ → CondSlot
  closed_cond : ℕ → CondSlot
  full_conds : CondSlot

unfoldable pub find_cond : List CondVariable → List ℕ → ℕ → CondSlot
find_cond [] name k = full_conds
find_cond (v ∷ vs) name k =
    let rest = find_cond vs name (k + 1) in
    if v.is_open then (if same_name v.name name then named_cond k else rest) else closed_cond k

-- What `itoa(key, aux, 10)` and `strcpy` leave in `aux`.
abbrev pub lock_name : ℕ → List ℕ
lock_name key = map (λ d. d + 48) (backwards (digits 10 key)) ++ cond_lock_identifier

-- `none` if the array of mutexes is taken. The name has fewer than the COND_NAME_LEN, 64, characters of
-- its array: `strcpy` does not look.
unfoldable pub create_new_cond : Conds → ℕ → List ℕ → Option Conds
create_new_cond s key name = elim (mutex_open s.mutexes (lock_name key)) [
  | none ↦ none
  | some (lock, mutexes) ↦ some (
      put_cond (record s { mutexes = mutexes }) key
        (record { name = name; is_open = true; lock_queue = lock; process_queue = [] }))
]

abbrev pub cond_open_at : Conds → List ℕ → CondSlot → Option (ℤ × Conds)
cond_open_at s name (named_cond k) = some (pos k, calls_key s (unlocks_key s.array_lock))
cond_open_at s name full_conds = some (max_cond_open_error, calls_key s (unlocks_key s.array_lock))
cond_open_at s name (closed_cond k) = elim (create_new_cond s k name) [
  | none ↦ none
  | some t ↦ some (pos k, calls_key t (unlocks_key t.array_lock))
]

unfoldable pub cond_open : Conds → List ℕ → Option (ℤ × Conds)
unfolding find_cond create_new_cond
cond_open s name =
    let t = calls_key s (locks_key s.array_lock) in
    cond_open_at t name (find_cond t.open_conds name 0)

-- The critical section on the queue of a condition variable.
abbrev pub on_queue : Conds → ℕ → List ℕ → Conds
on_queue s k q =
    let v = cond_at s k in
    let t = calls_key s (locks_key v.lock_queue) in
    calls_key (put_cond t k (record v { process_queue = q })) (unlocks_key v.lock_queue)

unfoldable pub sync_enqueue : Conds → ℕ → ℕ → Conds
sync_enqueue s k p = on_queue s k ((cond_at s k).process_queue ++ p ∷ [])

unfoldable pub sync_dequeue : Conds → ℕ → ℕ × Conds
sync_dequeue s k = elim (cond_at s k).process_queue [
  | [] ↦ (null, on_queue s k [])
  | p ∷ rest ↦ (p, on_queue s k rest)
]

abbrev pub cond_index : ℤ → ℕ
cond_index (pos k) = k
cond_index (negsuc n) = 0

-- `cond_wait` up to its call of `block_process`: `none` where the condition variable is not open, and
-- it returns `not_open_error`. What `mutex_unlock` returns is ignored.
unfoldable pub enter_wait : Conds → ℤ → ℤ → ℕ → Option Conds
unfolding is_open_cond sync_enqueue
enter_wait s cond_key lock_key current =
    let t = record s { mutexes = (mutex_unlock s.mutexes lock_key).1 } in
    if is_open_cond s cond_key then some (sync_enqueue t (cond_index cond_key) current) else none

-- The call of `block_process`; other processes may run before it.
unfoldable pub sleep_in_wait : Conds → ℕ → Conds
sleep_in_wait s current = set_cond_heap s (block_process s.mutexes.heap current)

-- Up to `yield_process`, where no other process runs in between.
unfoldable pub cond_wait : Conds → ℤ → ℤ → ℕ → Option Conds
unfolding enter_wait sleep_in_wait
cond_wait s cond_key lock_key current = elim (enter_wait s cond_key lock_key current) [
  | none ↦ none
  | some t ↦ some (sleep_in_wait t current)
]

-- The end of `cond_wait`, when the process runs on; then it returns 1, once it has the mutex.
unfoldable pub cond_resume : Conds → ℤ → ℕ → Outcome × Conds
cond_resume s lock_key current =
    let (r, mutexes) = mutex_lock s.mutexes lock_key current in (r, record s { mutexes = mutexes })

unfoldable pub cond_signal : Conds → ℤ → ℤ × Conds
unfolding is_open_cond sync_dequeue
cond_signal s key =
    let (p, t) = sync_dequeue s (cond_index key) in
    let u = if p == null then t else set_cond_heap t (unblock_process t.mutexes.heap p) in
    if is_open_cond s key then (pos 1, u) else (not_open_error, s)

unfoldable pub cond_broadcast : Conds → ℤ → ℤ × Conds
unfolding is_open_cond
cond_broadcast s key =
    let k = cond_index key in
    let t = on_queue s k [] in
    let woken = unblock_all s.mutexes.heap (cond_at s k).process_queue in
    if is_open_cond s key then (pos 1, set_cond_heap t woken) else (not_open_error, s)

-- `none` if the array of mutexes is taken.
unfoldable pub cond_close : Conds → ℤ → Option (ℤ × Conds)
unfolding is_open_cond cond_broadcast
cond_close s key =
    let k = cond_index key in
    let (r, t) = cond_broadcast s key in
    let v = cond_at t k in
    if is_open_cond s key
    then (elim (mutex_close t.mutexes v.lock_queue) [
      | none ↦ none
      | some (c, mutexes) ↦ some (
        pos 1,
        put_cond (record t { mutexes = mutexes }) k
            (record v { process_queue = []; is_open = false }),
      )
    ])
    else some (not_open_error, s)

-- One entry of `get_conds_info`'s array, as `fill_conds_info` fills it.
pub record CondInfo : Type 0 where
  pub name : List ℕ
  pub key : ℕ

unfoldable pub open_conds_info : List CondVariable → ℕ → List CondInfo
open_conds_info [] k = []
open_conds_info (v ∷ vs) k =
    let rest = open_conds_info vs (k + 1) in
    if v.is_open then record { name = v.name; key = k } ∷ rest else rest

unfoldable pub get_conds_info : Conds → List CondInfo × Conds
unfolding open_conds_info
get_conds_info s =
    let t = calls_key s (locks_key s.array_lock) in
    (open_conds_info t.open_conds 0, calls_key t (unlocks_key t.array_lock))
