-- ===== src/ProdCons.antt =====
-- The producer and the consumer: nanOS/Userland/SampleCodeModule/producerConsumer2.c. A section is
-- what a process does from the `mutex_lock` of `buffer_mutex`, or from its return from `cond_wait`,
-- to the next `mutex_unlock`, in `cond_wait` or at the end. In `cond_wait` the process then enters
-- the queue and blocks, in steps of their own.
pub mod Contents
pub mod Safety
pub mod Pipes
use tpe_arqui.Prelude.{
  ℕ, ◌+◌, ◌-◌, ◌==◌, Bool, true, false, not, if◌then◌else◌, ℤ, pos, List, [], ◌∷◌, ◌++◌, Option,
  none, some,
}
use tpe_arqui.Libc.Ctype.{isspace}

pub data Role : Type 0 where
  producer consumer : Role

-- Where a process is: before a section, in `cond_wait` behind its `mutex_unlock`, in the queue but
-- not blocked yet, or blocked.
pub data Phase : Type 0 where
  awake leaving queued blocked : Phase

-- The shared variables; `queue` is who waits at `cond_variable`. `malloc` gives one page, so that
-- the buffer has at most `max_size` places.
pub record Shop : Type 0 where
  pub buffer : ℕ → ℤ
  pub buffer_size : ℕ
  pub index : ℕ
  pub queue : List Role
  pub paused : Bool
  pub phase : Role → Phase

-- The `int`s in a page.
abbrev pub max_size : ℕ
max_size = 1024

-- Before the two processes start.
abbrev pub opened_shop : (ℕ → ℤ) → ℕ → Shop
opened_shop memory buf_size = record {
  buffer = memory;
  buffer_size = buf_size;
  index = 0;
  queue = [];
  paused = false;
  phase = λ _. awake;
}

abbrev same_role : Role → Role → Bool
same_role producer producer = true
same_role producer consumer = false
same_role consumer producer = false
same_role consumer consumer = true

abbrev pub set_phase : Shop → Role → Phase → Shop
set_phase s r ph = record s { phase = λ q. if same_role r q then ph else s.phase q }

-- `unblock_process`: who is not blocked goes on as before.
abbrev woken : Phase → Phase
woken awake = awake
woken leaving = leaving
woken queued = queued
woken blocked = awake

-- `cond_signal(cond_variable)`
unfoldable pub signal_cond : Shop → Shop
signal_cond s = elim s.queue [
  | [] ↦ s
  | r ∷ rest ↦ set_phase (record s { queue = rest }) r (woken (s.phase r))
]

-- `sync_enqueue` in `cond_wait`
unfoldable pub enter_queue : Role → Shop → Shop
enter_queue r s = set_phase (record s { queue = s.queue ++ r ∷ [] }) r queued

-- `block_process` in `cond_wait`, whether the process is still in the queue or not.
unfoldable pub go_to_sleep : Role → Shop → Shop
go_to_sleep r s = set_phase s r blocked

-- `false` where the buffer is full and it waits.
unfoldable pub produce : ℤ → Shop → Bool × Shop
unfolding signal_cond
produce product s = if s.index == s.buffer_size then (false, set_phase s producer leaving) else (
  true,
  signal_cond (record s {
    buffer = λ a. if s.index == a then product else s.buffer a;
    index = s.index + 1;
  }),
)

-- `none` where the buffer is empty and it waits.
unfoldable pub consume : Shop → Option ℤ × Shop
unfolding signal_cond
consume s =
    if s.index == 0
    then (none, set_phase s consumer leaving)
    else (some (s.buffer (s.index - 1)), signal_cond (record s { index = s.index - 1 }))

-- The keys of `control_speed`: the statics that they change.
pub record Speeds : Type 0 where
  pub producer_sleep : ℕ
  pub consumer_sleep : ℕ
  pub stopped : Bool

unfoldable pub one_key : Speeds → ℕ → Speeds
one_key s c =
    if c == b'p'
    then record s { stopped = not s.stopped }
    else if c == b'a'
    then record s { producer_sleep = s.producer_sleep + 1 }
    else if c == b's'
    then record s { producer_sleep = s.producer_sleep - 1 }
    else if c == b'z'
    then record s { consumer_sleep = s.consumer_sleep + 1 }
    else if c == b'x'
    then record s { consumer_sleep = s.consumer_sleep - 1 }
    else s

-- `getchar` once more, behind `q`.
abbrev pub after_newline : Speeds → List ℕ → Option (Speeds × List ℕ)
after_newline s [] = none
after_newline s (c ∷ input) = some (s, input)

-- Over the characters that `getchar` gives; the rest are those behind `q` and its newline, or behind
-- the character 0. `none` while it waits for more.
unfoldable pub control_speed : Speeds → List ℕ → Option (Speeds × List ℕ)
unfolding one_key
control_speed s [] = none
control_speed s (c ∷ input) =
    let rest = control_speed (if isspace (pos c) then s else one_key s c) input in
    if c == 0 then some (s, input) else if c == b'q' then after_newline s input else rest
