-- ===== src/Process/Entries.antt =====
-- Arrays of addresses with empty entries, as nanOS/Kernel/process.c searches them: `data_page` of
-- a process and `process_table`.
use tpe_arqui.Prelude.{
  tally, ℕ, zero, suc, ◌+◌, ◌≤◌, ◌<◌, ◌≡◌, ◌≢◌, refl, arith, if◌then◌else◌, ◌==◌, List, [], ◌∷◌,
  ◌++◌, set, length, get_or, sym,
}

-- `while (i < MAX_DATA_PAGES && p->data_page[i] != page) i++;`, and the search of `insert_process`:
-- the first index, from `i` on, at which the address stands, or the length.
unfoldable pub index_of : List ℕ → ℕ → ℕ → ℕ
index_of [] page i = i
index_of (x ∷ xs) page i = if x == page then i else index_of xs page (i + 1)

-- How many entries are not NULL.
abbrev pub used : List ℕ → ℕ
used [] = 0
used (x ∷ xs) = (if x == 0 then 0 else 1) + used xs

pub used-le-length : (xs : List ℕ) → used xs ≤ length xs
used-le-length [] = omega arith
used-le-length (x ∷ xs) = ground (arith, used-le-length xs)

index_of_shift : (xs : List ℕ) (page i : ℕ) → index_of xs page (suc i) ≡ suc (index_of xs page i)
unfolding index_of
index_of_shift [] page i = refl
index_of_shift (x ∷ xs) page i = ground (arith, index_of_shift xs page (i + 1))

-- Overwriting the entry that the search finds takes that page out and puts the new one in; the
-- search runs to the end only if the page is not there.
pub record Replaced (xs : List ℕ) (page v : ℕ) : Type 0 where
  pub missing : tally page xs ≡ 0 → index_of xs page 0 ≡ length xs
  pub found : 0 < tally page xs → index_of xs page 0 < length xs
  pub owned :
      (a : ℕ)
      → 0 < tally page xs
      → tally a (set xs (index_of xs page 0) v) + (if page == a then 1 else 0)
        ≡ tally a xs + (if v == a then 1 else 0)
  pub uses :
      0 < tally page xs
      → used (set xs (index_of xs page 0) v) + (if page == 0 then 0 else 1)
        ≡ used xs + (if v == 0 then 0 else 1)

pub replaced : (xs : List ℕ) (page v : ℕ) → Replaced xs page v
unfolding index_of
replaced [] page v = ground arith
replaced (x ∷ xs) page v =
    let r = replaced xs page v in
    record {
      missing = ground (arith, index_of_shift xs page 0);
      found = ground (arith, index_of_shift xs page 0);
      owned = λ a h. ground (arith, index_of_shift xs page 0, r.owned a);
      uses = ground (arith, index_of_shift xs page 0);
    }

-- An empty entry is what the pages do not use.
pub tally-used : (xs : List ℕ) → tally 0 xs + used xs ≡ length xs
tally-used [] = omega arith
tally-used (x ∷ xs) = ground (arith, tally-used xs)

pub tally-zero_of_unused : (xs : List ℕ) (a : ℕ) → used xs ≡ 0 → a ≢ 0 → tally a xs ≡ 0
tally-zero_of_unused [] a e n = refl
tally-zero_of_unused (x ∷ xs) a e n = ground (arith, tally-zero_of_unused xs a)

pub used-append : (xs ys : List ℕ) → used (xs ++ ys) ≡ used xs + used ys
used-append [] ys = omega arith
used-append (x ∷ xs) ys = omega (arith, used-append xs ys)

-- The search stops at an entry that is what it looks for.
pub get_or-index_of :
    (xs : List ℕ) (page d : ℕ) → 0 < tally page xs → get_or xs (index_of xs page 0) d ≡ page
unfolding index_of
get_or-index_of [] page d h = absurd (omega arith)
get_or-index_of (x ∷ xs) page d h =
    ground (arith, index_of_shift xs page 0, get_or-index_of xs page d)

-- A page that is not there stands at no index.
pub get_or_ne : (xs : List ℕ) (page i d : ℕ) → tally page xs ≡ 0 → page ≢ d → get_or xs i d ≢ page
get_or_ne [] page i d h n = λ e. n (sym e)
get_or_ne (x ∷ xs) page zero d h n = ground arith
get_or_ne (x ∷ xs) page (suc i) d h n = get_or_ne xs page i d (ground arith) n
