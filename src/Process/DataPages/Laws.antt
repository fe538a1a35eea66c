-- ===== src/Process/DataPages/Laws.antt =====
-- The data pages of a process, as the multiset of the pages that it tally.
use native.Mathlib.Decide.{dec_lt}
use tpe_arqui.Prelude.{
  tally, tally-append, ℕ, ◌+◌, ◌-◌, ◌^◌, ◌%◌, ◌<◌, ◌≡◌, ◌≢◌, arith, if◌then◌else◌, ◌==◌, List, [],
  ◌∷◌, length, length-set, length-append,
}
use tpe_arqui.Process.Defs.{Process}
use tpe_arqui.Process.Entries.{
  index_of, used, used-le-length, replaced, tally-used, tally-zero_of_unused, used-append,
}
use tpe_arqui.Process.DataPages.{
  max_data_pages, add_data_page, remove_data_page, pages_met, data_pages_process,
}

pub record IsValid (p : Process) : Type 0 where
  pub sized : length p.data_page ≡ max_data_pages
  pub counted : p.n_data_page ≡ used p.data_page

-- With an entry free, `add_data_page` of a page that is not NULL keeps the counts right and adds
-- exactly that page.
pub add_data_page_lem :
    (p : Process) (page : ℕ)
    → IsValid p
    → page ≢ 0
    → p.n_data_page < max_data_pages
    → let q = add_data_page p page in
      IsValid q
      × ((a : ℕ) → a ≢ 0 → tally a q.data_page ≡ tally a p.data_page + (if page == a then 1 else 0))
unfolding add_data_page
add_data_page_lem p page v n room =
    let xs = p.data_page in
    let r = replaced xs 0 page in
    let empty : 0 < tally 0 xs = omega (arith, tally-used xs, v.counted, v.sized) in
    (
      ground (arith, r.found empty, r.uses empty, length-set xs (index_of xs 0 0) page),
      λ a z. ground (arith, r.found empty, r.owned a empty),
    )

-- With all 64 entries taken `add_data_page` changes nothing: the page is not recorded.
pub add_data_page_full :
    (p : Process) (page : ℕ) → IsValid p → p.n_data_page ≡ max_data_pages → add_data_page p page ≡ p
unfolding add_data_page
add_data_page_full p page v full =
    let xs = p.data_page in
    let none_empty : tally 0 xs ≡ 0 = omega (arith, tally-used xs, v.counted, v.sized) in
    ground (arith, (replaced xs 0 page).missing none_empty)

-- `remove_data_page` of a page that is not NULL keeps the counts right; it takes one entry of that
-- page out if there is one, and changes nothing if there is none.
pub remove_data_page_lem :
    (p : Process) (page : ℕ)
    → IsValid p
    → page ≢ 0
    → let q = remove_data_page p page in
      IsValid q
      × ((a : ℕ) → a ≢ 0 → tally a q.data_page ≡ tally a p.data_page - (if page == a then 1 else 0))
unfolding remove_data_page
remove_data_page_lem p page v n =
    let xs = p.data_page in
    let r = replaced xs page 0 in
    elim (dec_lt 0 (tally page xs)) [
      | yes there ↦ (
        ground (
          arith,
          r.found there,
          r.uses there,
          length-set xs (index_of xs page 0) 0,
          used-le-length xs,
        ),
        λ a z. ground (arith, r.found there, r.owned a there),
      )
      | no gone ↦ let m = r.missing (omega arith) in (ground (arith, m), λ a z. ground (arith, m))
    ]

-- `remove_data_page` of NULL breaks the tally of any process with an empty entry: it counts one
-- page less (from 0 it wraps round), though no page has been taken out.
pub remove_data_page_null :
    (p : Process)
    → IsValid p
    → p.n_data_page < max_data_pages
    → let q = remove_data_page p 0 in
      (q.n_data_page ≡ (p.n_data_page + (2 ^ 64 - 1)) % 2 ^ 64)
      × (used q.data_page ≡ used p.data_page)
unfolding remove_data_page
remove_data_page_null p v room =
    let xs = p.data_page in
    let r = replaced xs 0 0 in
    let empty : 0 < tally 0 xs = omega (arith, tally-used xs, v.counted, v.sized) in
    ground (arith, r.found empty, r.uses empty)

pages_met_lem :
    (xs : List ℕ) (left a : ℕ)
    → left ≡ used xs
    → a ≢ 0
    → (tally a (pages_met xs left) ≡ tally a xs)
      × (length (pages_met xs left) ≡ left)
      × (used (pages_met xs left) ≡ left)
unfolding pages_met
pages_met_lem [] left a e n = ground arith
pages_met_lem (x ∷ xs) left a e n =
    ground
      (arith, pages_met_lem xs left a, pages_met_lem xs (left - 1) a, tally-zero_of_unused xs a)

-- `data_pages_process` copies each page of the process, as often as it is recorded, and ends with
-- one NULL.
pub data_pages_process_lem :
    (p : Process)
    → IsValid p
    → let pages = data_pages_process p in
      ((a : ℕ) → a ≢ 0 → tally a pages ≡ tally a p.data_page)
      × (length pages ≡ p.n_data_page + 1)
      × (used pages ≡ p.n_data_page)
unfolding data_pages_process
data_pages_process_lem p v =
    let xs = p.data_page in
    let met = pages_met xs p.n_data_page in
    (
      λ a n.
          ground (arith, tally-append a met (0 ∷ []), pages_met_lem xs p.n_data_page a v.counted n),
      omega (
        arith,
        length-append met (0 ∷ []),
        pages_met_lem xs p.n_data_page 1 v.counted (omega arith),
      ),
      omega (
        arith,
        used-append met (0 ∷ []),
        pages_met_lem xs p.n_data_page 1 v.counted (omega arith),
      ),
    )
