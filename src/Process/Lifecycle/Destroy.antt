-- ===== src/Process/Lifecycle/Destroy.antt =====
-- What `destroy_process` of nanOS/Kernel/process.c gives back.
use tpe_arqui.Prelude.{
  ℕ, zero, suc, ◌+◌, ◌-◌, ◌^◌, ◌%◌, ◌≤◌, ◌<◌, ◌≡◌, ◌≢◌, refl, sym, ap, subst, ◌∙◌, arith, List, [],
  ◌∷◌, map, get_or, set, length, length-set, get_or-set_self, get_or-set_ne,
}
use native.Mathlib.Decide.{ℕ_discrete}
use tpe_arqui.Allocator.Pages.{Pages, store_page, page_address}
use tpe_arqui.Allocator.Pages.Free.{free, store_page_lem}
use tpe_arqui.Allocator.Pages.Free
use tpe_arqui.Process.DataPages.{pages_met}
use tpe_arqui.Process.Defs.{Processes, null}
use tpe_arqui.Process.Entries.{used, used-le-length}
use tpe_arqui.Process.Foreground.{set_foreground_process}
use tpe_arqui.Process.Lifecycle.{World, set_procs, store_all, free_data_pages, destroy_process}
use tpe_arqui.Process.Status.{unblock_foreground_process}
use tpe_arqui.Process.Table.{lock_table}
use tpe_arqui.Process.Table.Laws.{IsValid}

-- All of them fit in a `uint8_t`.
abbrev pub Bytes : List ℕ → Type 0
Bytes [] = Unit {0}
Bytes (x ∷ xs) = (x < 256) × Bytes xs

-- The pages are put one after another on top of the others.
abbrev pub onto : List ℕ → List ℕ → List ℕ
onto [] below = below
onto (i ∷ is) below = onto is (i ∷ below)

store_all_lem :
    (p : Pages) (is : List ℕ)
    → Free.IsValid p
    → length is ≤ p.current_index
    → Bytes is
    → let q = store_all p (map page_address is) in
      (free q ≡ onto is (free p)) × Free.IsValid q × (q.current_index + length is ≡ p.current_index)
unfolding store_all
store_all_lem p [] v l b = (refl, v, omega arith)
store_all_lem p (i ∷ is) v l (small, b) =
    let (_, top, valid, index, _) = store_page_lem p i v (omega (arith, l)) small in
    let (rest, valid', index') =
      store_all_lem (store_page p (page_address i)).1 is valid (omega (arith, l, index)) b in
    (rest ∙ ap (onto is) top, valid', omega (arith, index, index'))

used-set_null : (xs : List ℕ) (i : ℕ) → get_or xs i 0 ≢ 0 → used (set xs i 0) + 1 ≡ used xs
used-set_null [] i n = absurd (n refl)
used-set_null (x ∷ xs) zero n = ground (arith, n)
used-set_null (x ∷ xs) (suc i) n = omega (arith, used-set_null xs i n)

inside : (xs : List ℕ) (i : ℕ) → get_or xs i 0 ≢ 0 → i < length xs
inside [] i n = absurd (n refl)
inside (x ∷ xs) zero n = omega arith
inside (x ∷ xs) (suc i) n = omega (arith, inside xs i n)

foreground_keeps :
    (s : Processes) (current p : ℕ)
    → let t = set_foreground_process s current p in
      (t.process_table ≡ s.process_table)
      × (t.n_processes ≡ s.n_processes)
      × ((q : ℕ) → (t.heap q).pid ≡ (s.heap q).pid)
unfolding set_foreground_process unblock_foreground_process
foreground_keeps s current p = ground arith

destroy_state :
    (w : World) (current p : ℕ)
    → p ≢ null
    → let v = destroy_process w current p in
      let x = w.procs.heap p in
      (v.procs.process_table ≡ set w.procs.process_table x.pid null)
      × (v.procs.n_processes ≡ (w.procs.n_processes + 2 ^ 64 - 1) % 2 ^ 64)
      × ((q : ℕ) → (v.procs.heap q).pid ≡ (w.procs.heap q).pid)
      × (v.pages ≡ (store_page (store_all w.pages (pages_met x.data_page x.n_data_page)) p).1)
unfolding destroy_process
destroy_state w current p n =
    let s = lock_table w.procs in
    let counted = record s { n_processes = (s.n_processes + 2 ^ 64 - 1) % 2 ^ 64 } in
    let t = (free_data_pages (set_procs w counted) p).procs in
    let keeps = foreground_keeps t current (get_or t.process_table (t.heap p).ppid null) in
    ground (arith, n, keeps)

-- What the end of the process `p`, which has the pid `i`, struct page `j` and data pages `is`, leaves.
pub record Destroyed (w : World) (p i j : ℕ) (is : List ℕ) (v : World) : Type 0 where
  pub pages : free v.pages ≡ j ∷ onto is (free w.pages)
  pub pages_valid : Free.IsValid v.pages
  pub table_valid : IsValid v.procs
  pub gone : get_or v.procs.process_table i null ≡ null
  pub others :
      (k : ℕ) → k ≢ i → get_or v.procs.process_table k null ≡ get_or w.procs.process_table k null
  pub number : v.procs.n_processes + 1 ≡ w.procs.n_processes

-- The table without the entry `i`.
without_entry :
    (w v : Processes) (i : ℕ)
    → IsValid w
    → get_or w.process_table i null ≢ null
    → v.process_table ≡ set w.process_table i null
    → v.n_processes ≡ (w.n_processes + 2 ^ 64 - 1) % 2 ^ 64
    → ((q : ℕ) → (v.heap q).pid ≡ (w.heap q).pid)
    → IsValid v × (v.n_processes + 1 ≡ w.n_processes)
without_entry w v i valid n table count pids =
    let xs = w.process_table in
    let one_less = used-set_null xs i n in
    let few = used-le-length xs in
    let others =
      λ (k : ℕ) (d : i ≢ k). ap (λ ys. get_or ys k null) table ∙ get_or-set_ne xs i k null null d in
    let gone = λ (k : ℕ) (e : i ≡ k).
      ap (λ ys. get_or ys k null) table
      ∙ subst (λ m. get_or (set xs i null) m null ≡ null) e
          (get_or-set_self xs i null null (inside xs i n)) in
    let sized = length-set xs i null in
    let number : v.n_processes + 1 ≡ w.n_processes =
      omega (arith, count, one_less, few, valid.sized, valid.counted) in
    (
      record {
        sized = ap length table ∙ sized ∙ valid.sized;
        counted = omega (arith, number, valid.counted, one_less) ∙ sym (ap used table);
        pids = λ k. elim (ℕ_discrete i k) [
          | yes e ↦ λ m. absurd (m (gone k e))
          | no d ↦ λ m.
              pids _
              ∙ ap (λ q. (w.heap q).pid) (others k d)
              ∙ valid.pids k (λ e. m (others k d ∙ e))
        ];
      },
      number,
    )

-- `destroy_process` of a process in the table, whose struct and data pages come from the pages that
-- are out, puts all of them back on the free pages, the struct's own on top; it takes the process out
-- of the table, counts one process less, keeps every other entry and the table well formed.
pub destroy_process-Destroyed :
    (w : World) (current p i j : ℕ) (is : List ℕ)
    → IsValid w.procs
    → Free.IsValid w.pages
    → p ≡ page_address j
    → Bytes (j ∷ is)
    → get_or w.procs.process_table i null ≡ p
    → (let x = w.procs.heap p in pages_met x.data_page x.n_data_page) ≡ map page_address is
    → length is + 1 ≤ w.pages.current_index
    → Destroyed w p i j is (destroy_process w current p)
destroy_process-Destroyed w current p i j is valid pages_valid at bytes entry met out =
    let n : p ≢ null = ground (arith, at) in
    let filled : get_or w.procs.process_table i null ≢ null = λ e. n (sym entry ∙ e) in
    let pid : (w.procs.heap p).pid ≡ i =
      ap (λ q. (w.procs.heap q).pid) (sym entry) ∙ valid.pids i filled in
    let (table, count, pids, pages) = destroy_state w current p n in
    let table_i = table ∙ ap (λ k. set w.procs.process_table k null) pid in
    let v = destroy_process w current p in
    let (table_valid, number) = without_entry w.procs v.procs i valid filled table_i count pids in
    let (data_free, data_valid, index) =
      store_all_lem w.pages is pages_valid (omega (arith, out)) bytes.1 in
    let (_, own, own_valid, _, _) =
      store_page_lem (store_all w.pages (map page_address is)) j data_valid
        (omega (arith, index, out)) bytes.0 in
    let same : v.pages ≡ (store_page (store_all w.pages (map page_address is)) (page_address j)).1 =
      pages
      ∙ ap (λ m. (store_page (store_all w.pages m) p).1) met
      ∙ ap (λ a. (store_page (store_all w.pages (map page_address is)) a).1) at in
    record {
      pages = ap free same ∙ own ∙ ap (λ below. j ∷ below) data_free;
      pages_valid = subst Free.IsValid (sym same) own_valid;
      table_valid = table_valid;
      gone =
          ap (λ xs. get_or xs i null) table_i
          ∙ get_or-set_self w.procs.process_table i null null
              (inside w.procs.process_table i filled);
      others = λ k m.
          ap (λ xs. get_or xs k null) table_i
          ∙ get_or-set_ne w.procs.process_table i k null null (λ e. m (sym e));
      number = number;
    }
