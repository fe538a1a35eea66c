-- ===== src/Queue.antt =====
-- The queues of the kernel: nanOS/Kernel/queueADT.c, as linked cells in memory.
pub mod Refine
use tpe_arqui.Prelude.{ℕ, zero, suc, if◌then◌else◌, ◌==◌, Bool, true, false, not}
use tpe_arqui.Allocator.Pages.{Pages, get_page, store_page}
use tpe_arqui.Process.Defs.{null}

-- `struct node`
pub record Node : Type 0 where
  pub elem : ℕ
  pub next : ℕ

-- `struct queue`
pub record Queue : Type 0 where
  pub first : ℕ
  pub last : ℕ

-- Both by address, with the allocator that gives them room.
pub record Store : Type 0 where
  pub cells : ℕ → Node
  pub queues : ℕ → Queue
  pub pages : Pages

abbrev pub put_cell : Store → ℕ → Node → Store
put_cell s a n = record s { cells = λ b. if a == b then n else s.cells b }

abbrev pub put_queue : Store → ℕ → Queue → Store
put_queue s q v = record s { queues = λ b. if q == b then v else s.queues b }

unfoldable pub create_queue : Store → ℕ × Store
create_queue s =
    let (q, pages) = get_page s.pages in
    let t = record s { pages = pages } in
    if q == null then (null, t) else (q, put_queue t q (record { first = null; last = null }))

unfoldable pub is_empty : Store → ℕ → Bool
is_empty s q = if q == null then true else (s.queues q).first == null

-- A page that is not there is used as it comes, at address 0.
unfoldable pub enqueue : Store → ℕ → ℕ → Store
enqueue s q elem =
    let (new_node, pages) = get_page s.pages in
    let t = put_cell (record s { pages = pages }) new_node (record { elem = elem; next = null }) in
    let v = t.queues q in
    let old = t.cells v.last in
    if q == null
    then s
    else if v.first == null
    then put_queue t q (record { first = new_node; last = new_node })
    else put_queue (put_cell t v.last (record old { next = new_node })) q
        (record v { last = new_node })

unfoldable pub peek : Store → ℕ → ℕ
unfolding is_empty
peek s q = if is_empty s q then null else (s.cells (s.queues q).first).elem

unfoldable pub dequeue : Store → ℕ → ℕ × Store
unfolding is_empty
dequeue s q =
    let v = s.queues q in
    let f = v.first in
    let next = (s.cells f).next in
    let last = if next == null then null else v.last in
    let t = put_queue s q (record { first = next; last = last }) in
    if is_empty s q
    then (null, s)
    else ((s.cells f).elem, record t { pages = (store_page t.pages f).1 })

-- `while(!is_empty(q)) dequeue(q);` with fuel.
unfoldable pub dequeue_all : ℕ → Store → ℕ → Store
dequeue_all zero s q = s
dequeue_all (suc fuel) s q = elim (is_empty s q) [
  | true ↦ s
  | false ↦ dequeue_all fuel (dequeue s q).1 q
]

unfoldable pub destroy_queue : ℕ → Store → ℕ → Store
destroy_queue fuel s q =
    let t = dequeue_all fuel s q in record t { pages = (store_page t.pages q).1 }
