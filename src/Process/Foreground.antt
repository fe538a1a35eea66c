-- ===== src/Process/Foreground.antt =====
-- The foreground process: `set_foreground_process` and `set_foreground_force_process` of
-- nanOS/Kernel/process.c. `current` is what `get_current_process()` returns.
use tpe_arqui.Prelude.{ℕ, ◌≡◌, ◌≢◌, arith, not, ◌&&◌, if◌then◌else◌, ◌==◌}
use tpe_arqui.Process.Defs.{ready, blocked_foreground, Processes, null}
use tpe_arqui.Process.Status.{unblock_foreground_process}

unfoldable pub set_foreground_force_process : Processes → ℕ → Processes
set_foreground_force_process s p =
    if not (p == null) && not ((s.heap p).pid == 0)
    then record s { foreground = p; heap = unblock_foreground_process s.heap p }
    else s

unfoldable pub set_foreground_process : Processes → ℕ → ℕ → Processes
unfolding set_foreground_force_process
set_foreground_process s current p =
    if s.foreground == current then set_foreground_force_process s p else s

unfoldable pub get_foreground_process : Processes → ℕ
get_foreground_process s = s.foreground

-- Only the foreground process gives the foreground away, and never to no process or to the process
-- with pid 0; then the new one is the foreground process, and it no longer waits for that if it
-- did. Otherwise nothing changes.
pub set_foreground_process_lem :
    (s : Processes) (current p : ℕ)
    → let s' = set_foreground_process s current p in
      let moves = (s.foreground == current) && (not (p == null) && not ((s.heap p).pid == 0)) in
      (get_foreground_process s' ≡ (if moves then p else s.foreground))
      × ((s'.heap p).st ≡ (
          if moves
          then (elim (s.heap p).st [ blocked_foreground ↦ ready | other ↦ other ])
          else (s.heap p).st))
      × ((q : ℕ) → q ≢ p → s'.heap q ≡ s.heap q)
unfolding set_foreground_process get_foreground_process unblock_foreground_process
set_foreground_process_lem s current p = ground arith
