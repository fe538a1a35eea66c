-- ===== src/Process/DataPages.antt =====
-- The data pages of a process: `add_data_page`, `remove_data_page`, `data_pages_process` and
-- `clean_data_page` of nanOS/Kernel/process.c.
pub mod Laws
use tpe_arqui.Prelude.{
  ℕ, zero, suc, ◌+◌, ◌-◌, ◌^◌, ◌%◌, ltb, if◌then◌else◌, ◌==◌, Bool, true, false, not, ◌&&◌, List,
  [], ◌∷◌, ◌++◌, get_or, set, replicate, length,
}
use tpe_arqui.Process.Defs.{Process}
use tpe_arqui.Process.Entries.{index_of}

abbrev pub max_data_pages : ℕ
max_data_pages = 64

-- The empty entries are the NULL ones.
unfoldable pub add_data_page : Process → ℕ → Process
add_data_page p page =
    let i = index_of p.data_page 0 0 in
    if ltb i max_data_pages
    then record p { n_data_page = p.n_data_page + 1; data_page = set p.data_page i page }
    else p

-- `n_data_page -= 1` is on `uint64_t`.
unfoldable pub remove_data_page : Process → ℕ → Process
remove_data_page p page =
    let i = index_of p.data_page page 0 in
    if ltb i max_data_pages
    then record p {
      n_data_page = (p.n_data_page + 2 ^ 64 - 1) % 2 ^ 64;
      data_page = set p.data_page i 0;
    }
    else p

unfoldable pub clean_data_page : Process → Process
clean_data_page p = record p { data_page = replicate max_data_pages 0; n_data_page = 0 }

-- The loop of `data_pages_process`, and of `free_data_pages`: the entries that are not NULL, until
-- `pages_left` of them have been met.
unfoldable pub pages_met : List ℕ → ℕ → List ℕ
pages_met [] left = []
pages_met (x ∷ xs) left =
    let here = x ∷ pages_met xs (left - 1) in
    let later = pages_met xs left in if left == 0 then [] else if x == 0 then later else here

-- What is put in `page_array`, its terminator included.
unfoldable pub data_pages_process : Process → List ℕ
data_pages_process p = pages_met p.data_page p.n_data_page ++ 0 ∷ []
