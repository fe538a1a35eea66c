-- ===== src/Timer.antt =====
-- The sleeping processes of nanOS/Kernel/timer.c: linked structs by address. The loop of
-- `timer_handler` has fuel.
pub mod Chains
pub mod Refine
pub mod Laws
use tpe_arqui.Prelude.{
  ℕ, zero, suc, ◌+◌, ◌-◌, ◌/◌, ◌%◌, ◌^◌, ◌==◌, if◌then◌else◌, true, false, Option, none, some,
}
use tpe_arqui.Allocator.Pages.{Pages, get_page, store_page}
use tpe_arqui.Process.Defs.{Heap, null}
use tpe_arqui.Process.Status.{block_process, unblock_process}

-- `struct c_sleep_process`
pub record SleepProcess : Type 0 where
  pub p : ℕ
  pub ticks : ℕ
  pub next : ℕ

-- The structs by address, with what the timer works on; `quantum` is that of the running process.
pub record Timer : Type 0 where
  pub sleeping_processes : ℕ
  pub structs : ℕ → SleepProcess
  pub heap : Heap
  pub pages : Pages
  pub quantum : ℕ

-- `ticks -= 1` on `uint64_t`.
abbrev pub less_one : ℕ → ℕ
less_one ticks = (ticks + 2 ^ 64 - 1) % 2 ^ 64

abbrev pub put_struct : Timer → ℕ → SleepProcess → Timer
put_struct t a x = record t { structs = λ b. if a == b then x else t.structs b }

-- `current->ticks -= 1`
unfoldable pub tick_one : Timer → ℕ → Timer
tick_one t current =
    put_struct t current (let x = t.structs current in record x { ticks = less_one x.ticks })

-- `sleeping_processes = next` or `prev->next = next`
unfoldable pub link_past : Timer → ℕ → ℕ → Timer
link_past t prev next =
    if prev == null
    then record t { sleeping_processes = next }
    else put_struct t prev (let x = t.structs prev in record x { next = next })

-- What is done with a struct whose ticks are used up.
unfoldable pub wake_sleeper : Timer → ℕ → ℕ → Timer
unfolding link_past
wake_sleeper t prev current =
    let x = t.structs current in
    let u = link_past t prev x.next in
    record u { heap = unblock_process u.heap x.p; pages = (store_page u.pages current).1 }

-- The loop; `none` when the fuel is used up.
unfoldable pub tick_loop : ℕ → Timer → ℕ → ℕ → Option Timer
unfolding tick_one wake_sleeper
tick_loop zero t prev current = none
tick_loop (suc fuel) t prev current = elim (current == null) [
  | true ↦ some t
  | false ↦ elim (less_one (t.structs current).ticks == 0) [
    | true ↦
        tick_loop fuel (wake_sleeper (tick_one t current) prev current) prev
          (t.structs current).next
    | false ↦ tick_loop fuel (tick_one t current) current (t.structs current).next
  ]
]

unfoldable pub timer_handler : ℕ → Timer → Option Timer
unfolding tick_loop
timer_handler fuel t = tick_loop fuel t null t.sleeping_processes

-- The address is that of the new struct, whose `next` is what stood in its page. A page is free, or
-- `get_page` does not come back.
unfoldable pub create_sleep_process : Timer → ℕ → ℕ → ℕ × Timer
create_sleep_process t current ticks =
    let (a, pages) = get_page t.pages in
    let x = t.structs a in
    (a, put_struct (record t { pages = pages }) a (record x { p = current; ticks = ticks }))

unfoldable pub add_sleep_process : Timer → ℕ → Timer
add_sleep_process t a =
    let x = t.structs a in
    let u = put_struct t a (record x { next = t.sleeping_processes }) in
    record u { sleeping_processes = a }

-- Up to `yield_process`; the value is what the process gets when it runs on.
unfoldable pub sleep : Timer → ℕ → ℕ → ℕ × Timer
unfolding create_sleep_process add_sleep_process
sleep t current milliseconds =
    let wait_ticks = milliseconds / 55 in
    let assigned = record t { quantum = t.quantum + 1 } in
    let (a, u) = create_sleep_process assigned current wait_ticks in
    let v = add_sleep_process u a in
    if wait_ticks == 0
    then (0, t)
    else (1, record v { heap = block_process v.heap (v.structs a).p })
