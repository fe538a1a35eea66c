-- ===== src/IntList.antt =====
-- Sets of numbers: nanOS/Kernel/intLinkedlistADT.c, linked nodes by address. The recursion of
-- `remove_int_rec` and the loop of `destroy_int_list` have fuel.
pub mod Refine
use tpe_arqui.Prelude.{
  ℕ, zero, suc, ◌==◌, Bool, true, false, if◌then◌else◌, ℤ, pos, negsuc, Option, none, some,
}
use tpe_arqui.Allocator.Pages.{Pages, get_page, store_page}
use tpe_arqui.Process.Defs.{null}

-- `node`
pub record IntNode : Type 0 where
  pub elem : ℤ
  pub next : ℕ

pub record IntStore : Type 0 where
  pub nodes : ℕ → IntNode
  pub pages : Pages

abbrev pub put_int_node : IntStore → ℕ → IntNode → IntStore
put_int_node s a n = record s { nodes = λ b. if a == b then n else s.nodes b }

abbrev pub same_int : ℤ → ℤ → Bool
same_int (pos m) (pos n) = m == n
same_int (negsuc m) (negsuc n) = m == n
same_int _ _ = false

unfoldable pub insert_int : IntStore → ℕ → ℤ → ℕ × IntStore
insert_int s first num =
    let (n, pages) = get_page s.pages in
    (n, put_int_node (record s { pages = pages }) n (record { elem = num; next = first }))

-- `l->next = remove_int_rec(num, l->next)`, with what that has returned.
abbrev pub relink : ℕ → Option (ℕ × IntStore) → Option (ℕ × IntStore)
relink l none = none
relink l (some (n, t)) = some (l, put_int_node t l (let x = t.nodes l in record x { next = n }))

unfoldable pub remove_int_rec : ℕ → IntStore → ℤ → ℕ → Option (ℕ × IntStore)
remove_int_rec zero s num l = none
remove_int_rec (suc fuel) s num l =
    let x = s.nodes l in
    let rest = remove_int_rec fuel s num x.next in
    if l == null
    then some (l, s)
    else if same_int x.elem num
    then some (x.next, record s { pages = (store_page s.pages l).1 })
    else relink l rest

unfoldable pub remove_int : ℕ → IntStore → ℕ → ℤ → Option (ℕ × IntStore)
unfolding remove_int_rec
remove_int fuel s first num = remove_int_rec fuel s num first

-- The struct is read before its page is given back, so that `current->next` is what it was.
unfoldable pub destroy_int_list : ℕ → IntStore → ℕ → Option IntStore
destroy_int_list zero s l = none
destroy_int_list (suc fuel) s l =
    let rest =
      destroy_int_list fuel (record s { pages = (store_page s.pages l).1 }) (s.nodes l).next in
    if l == null then some s else rest
