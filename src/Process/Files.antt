-- ===== src/Process/Files.antt =====
-- The open files of a process: `set_file_open`, `set_file_closed` and `file_is_open` of
-- nanOS/Kernel/process.c.
use tpe_arqui.Prelude.{
  ℕ, ◌<◌, ◌≡◌, ◌≢◌, arith, Bool, true, false, not, ltb, if◌then◌else◌, ◌==◌, Option, none, some,
}
use tpe_arqui.Process.Defs.{Heap, put}

abbrev pub max_fds : ℕ
max_fds = 64

-- `1 << fd` is on `int`: it has a value for the first 31 bits only.
abbrev pub shiftable : ℕ
shiftable = 31

abbrev pub set_bit : (ℕ → Bool) → ℕ → Bool → ℕ → Bool
set_bit bits fd b k = if fd == k then b else bits k

-- `none` where the shift is undefined.
unfoldable pub set_file : Bool → Heap → ℕ → ℕ → Option (Bool × Heap)
set_file b h p fd =
    if not (ltb fd max_fds)
    then some (false, h)
    else if ltb fd shiftable
    then some (true, put h p (let x = h p in record x { open_fds = set_bit x.open_fds fd b }))
    else none

unfoldable pub set_file_open : Heap → ℕ → ℕ → Option (Bool × Heap)
unfolding set_file
set_file_open h p fd = set_file true h p fd

unfoldable pub set_file_closed : Heap → ℕ → ℕ → Option (Bool × Heap)
unfolding set_file
set_file_closed h p fd = set_file false h p fd

unfoldable pub file_is_open : Heap → ℕ → ℕ → Option Bool
file_is_open h p fd =
    if not (ltb fd max_fds)
    then some false
    else if ltb fd shiftable
    then some ((h p).open_fds fd)
    else none

-- What `file_is_open` sees after `set_file_open` or `set_file_closed`.
abbrev pub Sees : Bool → Heap → ℕ → ℕ → Option (Bool × Heap) → Type 0
Sees b h p fd none = ⊥
Sees b h p fd (some (r, h')) =
    (r ≡ true)
    × (file_is_open h' p fd ≡ some b)
    × ((k : ℕ) → k ≢ fd → file_is_open h' p k ≡ file_is_open h p k)
    × ((q k : ℕ) → q ≢ p → file_is_open h' q k ≡ file_is_open h q k)

-- For a file number below 31, `file_is_open` is true after `set_file_open` and false after
-- `set_file_closed`, and no other file of the process nor any of another process changes.
pub set_file_lem :
    (h : Heap) (p fd : ℕ)
    → fd < shiftable
    → Sees true h p fd (set_file_open h p fd) × Sees false h p fd (set_file_closed h p fd)
unfolding set_file_open set_file_closed file_is_open
set_file_lem h p fd k = ground arith
