-- ===== src/Syscalls/Memory.antt =====
-- The system calls on the pages and on the processes: `sys_malloc`, `sys_free`, `sys_kill` and
-- `sys_set_foreground` of nanOS/Kernel/systemCalls.c. `current` is the calling process.
use tpe_arqui.Prelude.{
  ℕ, ◌+◌, ◌≤◌, ◌<◌, ◌≡◌, ◌≢◌, refl, ap, sym, subst, ◌∙◌, arith, ◌==◌, not, ◌&&◌, if◌then◌else◌,
  List, ◌∷◌, tally, get_or, drop, length,
}
use tpe_arqui.Allocator.Pages.{Pages, get_page, store_page, stack_size, page_address}
use tpe_arqui.Allocator.Pages.Free.{free, get_page_lem, store_page_lem, get_page-ne_zero}
use tpe_arqui.Allocator.Pages.Free
use tpe_arqui.Process.DataPages.{add_data_page, remove_data_page, max_data_pages}
use tpe_arqui.Process.DataPages.Laws.{add_data_page_lem, remove_data_page_lem}
use tpe_arqui.Process.DataPages.Laws
use tpe_arqui.Process.Defs.{Process, null}
use tpe_arqui.Process.Foreground.{set_foreground_process}
use tpe_arqui.Process.Lifecycle.{World, edit, set_procs}
use tpe_arqui.Process.Lifecycle.Destroy.{Bytes}
use tpe_arqui.Process.Status.{kill_process}
use tpe_arqui.Process.Table.{get_process_by_pid}

unfoldable pub sys_malloc : World → ℕ → ℕ × World
sys_malloc w current =
    let (page, pages) = get_page w.pages in
    (page, edit (record w { pages = pages }) current (λ x. add_data_page x page))

unfoldable pub sys_free : World → ℕ → ℕ → ℕ × World
sys_free w current address =
    let removed = edit w current (λ x. remove_data_page x address) in
    let (r, pages) = store_page removed.pages address in (r, record removed { pages = pages })

-- `INIT` and `SHELL` are 0 and 1.
unfoldable pub sys_kill : World → ℕ → ℕ × World
unfolding kill_process
sys_kill w pid =
    let s = w.procs in
    let (valid, heap) = kill_process s.heap (get_process_by_pid s pid) in
    if not (pid == 0) && not (pid == 1)
    then ((if valid then 1 else 0), set_procs w (record s { heap = heap }))
    else (0, w)

unfoldable pub sys_set_foreground : World → ℕ → ℕ → ℕ × World
sys_set_foreground w current pid =
    let p = get_process_by_pid w.procs pid in
    if p == null then (0, w) else (1, set_procs w (set_foreground_process w.procs current p))

-- The state of the pages and of the pages of one process.
abbrev pub pages_of : World → ℕ → Process
pages_of w p = w.procs.heap p

malloc_state :
    (w : World) (p : ℕ)
    → ((sys_malloc w p).1.pages ≡ (get_page w.pages).1)
      × (pages_of (sys_malloc w p).1 p ≡ add_data_page (pages_of w p) (get_page w.pages).0)
      × ((q : ℕ) → q ≢ p → pages_of (sys_malloc w p).1 q ≡ pages_of w q)
unfolding sys_malloc
malloc_state w p = (refl, ground arith, λ q n. ground (arith, n))

free_state :
    (w : World) (p a : ℕ)
    → ((sys_free w p a).0 ≡ (store_page w.pages a).0)
      × ((sys_free w p a).1.pages ≡ (store_page w.pages a).1)
      × (pages_of (sys_free w p a).1 p ≡ remove_data_page (pages_of w p) a)
      × ((q : ℕ) → q ≢ p → pages_of (sys_free w p a).1 q ≡ pages_of w q)
unfolding sys_free
free_state w p a = (refl, refl, ground arith, λ q n. ground (arith, n))

-- What a process has after `sys_malloc`, and after `sys_free` of that page.
pub record Returned (w : World) (p a : ℕ) (u : World) (r : ℕ) (v : World) : Type 0 where
  pub page : a ≢ null
  pub held : tally a (pages_of u p).data_page ≡ tally a (pages_of w p).data_page + 1
  pub taken : length (free w.pages) ≡ length (free u.pages) + 1
  pub success : r ≡ 1
  pub pages : free v.pages ≡ free w.pages
  pub valid : Laws.IsValid (pages_of v p)
  pub given : (b : ℕ) → b ≢ 0 → tally b (pages_of v p).data_page ≡ tally b (pages_of w p).data_page
  pub others : (q : ℕ) → q ≢ p → pages_of v q ≡ pages_of w q

-- `store_page` of the page that `get_page` gave.
stored_back :
    (p : Pages)
    → Free.IsValid p
    → p.current_index < stack_size
    → Bytes (free p)
    → let (a, q) = get_page p in
      let (r, after) = store_page q a in
      (r ≡ 1) × (free after ≡ free p) × (length (free p) ≡ length (free q) + 1)
stored_back p v l bytes =
    let (i, at, top, valid, next, _) = get_page_lem p v l in
    let small : i < 256 = (subst Bytes top bytes).0 in
    let (one, back, _, _, _) = store_page_lem (get_page p).1 i valid (omega (arith, next)) small in
    (
      ap (λ a. (store_page (get_page p).1 a).0) at ∙ one,
      ap (λ a. free (store_page (get_page p).1 a).1) at ∙ back ∙ sym top,
      ap length top ∙ omega arith,
    )

-- With a page free, and an entry free in the process, `sys_malloc` gives the process a page that is
-- not NULL; `sys_free` of that page returns 1 and leaves the free pages, in their order, and the
-- pages of every process as they were before.
pub sys_free-sys_malloc :
    (w : World) (p : ℕ)
    → Free.IsValid w.pages
    → w.pages.current_index < stack_size
    → Bytes (free w.pages)
    → Laws.IsValid (pages_of w p)
    → (pages_of w p).n_data_page < max_data_pages
    → let (a, u) = sys_malloc w p in let (r, v) = sys_free u p a in Returned w p a u r v
unfolding sys_malloc
sys_free-sys_malloc w p pages_valid free_page bytes valid room =
    let a = (get_page w.pages).0 in
    let u = (sys_malloc w p).1 in
    let n : a ≢ 0 = get_page-ne_zero w.pages free_page in
    let (given, taken, others) = malloc_state w p in
    let (answer, stored, removed, rest) = free_state u p a in
    let (one, back, fewer) = stored_back w.pages pages_valid free_page bytes in
    let (valid_u, more) = add_data_page_lem (pages_of w p) a valid n room in
    let (valid_v, less) = remove_data_page_lem (add_data_page (pages_of w p) a) a valid_u n in
    let same = removed ∙ ap (λ x. remove_data_page x a) taken in
    let one_more : tally a (add_data_page (pages_of w p) a).data_page
        ≡ tally a (pages_of w p).data_page + 1 =
      ground (arith, more a n) in
    record {
      page = n;
      held = ap (λ x. tally a x.data_page) taken ∙ one_more;
      taken = fewer;
      success = answer ∙ one;
      pages = ap free stored ∙ back;
      valid = subst Laws.IsValid (sym same) valid_v;
      given = λ b z. ap (λ x. tally b x.data_page) same ∙ ground (arith, less b z, more b z);
      others = λ q m. rest q m ∙ others q m;
    }

-- `get_page` gives the first of the free pages.
top_page :
    (p : Pages) (i : ℕ) (rest : List ℕ)
    → Free.IsValid p
    → p.current_index < stack_size
    → free p ≡ i ∷ rest
    → ((get_page p).0 ≡ page_address i)
      × (free (get_page p).1 ≡ rest)
      × Free.IsValid (get_page p).1
      × ((get_page p).1.current_index ≡ p.current_index + 1)
top_page p i rest v l e =
    let (j, at, top, valid, next, _) = get_page_lem p v l in
    let same : j ∷ free (get_page p).1 ≡ i ∷ rest = sym top ∙ e in
    (at ∙ ap (λ xs. page_address (get_or xs 0 0)) same, ap (drop 1) same, valid, next)

-- Pages that are stored twice are given out twice.
stored_twice :
    (p : Pages) (i : ℕ)
    → Free.IsValid p
    → 2 ≤ p.current_index
    → i < 256
    → let once = (store_page p (page_address i)).1 in
      let twice = (store_page once (page_address i)).1 in
      ((get_page twice).0 ≡ page_address i) × ((get_page (get_page twice).1).0 ≡ page_address i)
stored_twice p i v l small =
    let (_, f1, v1, c1, _) = store_page_lem p i v (omega (arith, l)) small in
    let once = (store_page p (page_address i)).1 in
    let (_, f2, v2, c2, _) = store_page_lem once i v1 (omega (arith, l, c1)) small in
    let twice = (store_page once (page_address i)).1 in
    let (first, f3, v3, c3) =
      top_page twice i (free once) v2 (omega (arith, v.index_in, c1, c2, l)) f2 in
    let second =
      top_page (get_page twice).1 i (free p) v3 (omega (arith, v.index_in, c1, c2, c3, l))
        (f3 ∙ f1) in
    (first, second.0)

-- `sys_free` does not look whether the page is the caller's: after two calls with the same page, by
-- any processes, while two pages are out, the next two calls of `sys_malloc`, by any processes, both
-- get that page.
pub sys_free_twice :
    (w : World) (p q s t i : ℕ)
    → Free.IsValid w.pages
    → 2 ≤ w.pages.current_index
    → i < 256
    → let a = page_address i in
      let freed = (sys_free (sys_free w p a).1 q a).1 in
      let (first, u) = sys_malloc freed s in
      let (second, _) = sys_malloc u t in (first ≡ a) × (second ≡ a)
unfolding sys_malloc sys_free
sys_free_twice w p q s t i v l small = stored_twice w.pages i v l small
