-- ===== src/Mutex/KeyCalls.antt =====
-- The calls of `mutex_lock` and `mutex_unlock`, nanOS/Kernel/kernelMutex.c, by other parts of the kernel.
use tpe_arqui.Prelude.{ℤ}

pub data KeyCall : Type 0 where
  locks_key unlocks_key : ℤ → KeyCall
