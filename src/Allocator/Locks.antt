-- ===== src/Allocator/Locks.antt =====
-- The calls of a kernel mutex that a function makes: nanOS/Kernel/memoryAllocator.c and
-- nanOS/Kernel/process.c guard their tables by `mutex_lock(key)` and `mutex_unlock(key)`, with one
-- key each. The functions that stand here are `kernelMutex.c`'s, seen from their callers.
use tpe_arqui.Prelude.{◌≡◌, List, ◌∷◌}

pub data LockCall : Type 0 where
  locks unlocks : LockCall

-- Latest first.
abbrev pub LockCalls : Type 0
LockCalls = List LockCall

-- What a function that enters and leaves its critical section once adds to the calls.
abbrev pub Balanced : LockCalls → LockCalls → Type 0
Balanced before after = after ≡ unlocks ∷ locks ∷ before
