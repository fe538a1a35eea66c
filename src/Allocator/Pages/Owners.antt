-- ===== src/Allocator/Pages/Owners.antt =====
-- The data pages of nanOS/Kernel/memoryAllocator.c and their holders, over any history.
use native.Mathlib.Nat.{zero-add}
use tpe_arqui.Prelude.{
  ℕ, zero, suc, ◌+◌, ◌<◌, ◌≡◌, refl, ap, ◌∙◌, arith, List, [], ◌∷◌, ◌++◌, length, length-append,
  if◌then◌else◌, ltb, tally, tally-append,
}
use tpe_arqui.Allocator.Pages.{
  Pages, stack_size, page_address, get_page, store_page, initialize_memory_allocator, blank_pages,
}
use tpe_arqui.Allocator.Pages.Free.{IsValid, free, get_page_lem, get_page_exhausted, store_page_lem}
use tpe_arqui.Allocator.Pages.Init.{count_up, initialize_memory_allocator_lem}

-- One call of the allocator. The pages of the list are out, each given by its index; a call of
-- `store_page` gives one of them back.
pub data Step (p : Pages) (held : List ℕ) (q : Pages) (held' : List ℕ) : Type 0 where
  gets :
      (i : ℕ)
      → p.current_index < stack_size
      → (get_page p).0 ≡ page_address i
      → q ≡ (get_page p).1
      → held' ≡ i ∷ held
      → Step p held q held'
  fails : p.current_index ≡ stack_size → q ≡ (get_page p).1 → held' ≡ held → Step p held q held'
  stores :
      (xs ys : List ℕ) (i : ℕ)
      → held ≡ xs ++ i ∷ ys
      → q ≡ (store_page p (page_address i)).1
      → held' ≡ xs ++ ys
      → Step p held q held'

-- Any number of calls after the initialisation of the statics.
pub data Reach : Pages → List ℕ → Type 0 where
  start : (p : Pages) → p ≡ initialize_memory_allocator blank_pages → Reach p []
  next : {p q : Pages} {held held' : List ℕ} → Reach p held → Step p held q held' → Reach q held'

tally-count_up :
    (a i k : ℕ) → tally a (count_up i k) ≡ (if ltb a i then 0 else if ltb a (i + k) then 1 else 0)
tally-count_up a i zero = ground arith
tally-count_up a i (suc k) = ground (arith, tally-count_up a (i + 1) k)

-- Every page has one holder or is free once; as many are out as the index says.
pub record Accounted (p : Pages) (held : List ℕ) : Type 0 where
  pub valid : IsValid p
  pub out : p.current_index ≡ length held
  pub once : (i : ℕ) → tally i held + tally i (free p) ≡ (if ltb i stack_size then 1 else 0)

tally_start :
    (k i : ℕ) (xs : List ℕ)
    → xs ≡ count_up 1 k ++ 0 ∷ []
    → tally i xs ≡ (if ltb i (suc k) then 1 else 0)
tally_start k i xs e =
    ground (arith, ap (tally i) e, tally-append i (count_up 1 k) (0 ∷ []), tally-count_up i 1 k)

initialize-current_index : (initialize_memory_allocator blank_pages).current_index ≡ 0
unfolding initialize_memory_allocator
initialize-current_index = refl

start-Accounted : (p : Pages) → p ≡ initialize_memory_allocator blank_pages → Accounted p []
start-Accounted p e = rw e (record {
  valid = begun.0;
  out = initialize-current_index;
  once = λ i.
      zero-add (tally i (free (initialize_memory_allocator blank_pages)))
      ∙ tally_start 254 i _ begun.1;
})
  where
    begun :
        let q = initialize_memory_allocator blank_pages in
        IsValid q × (free q ≡ count_up 1 254 ++ 0 ∷ [])
    begun = initialize_memory_allocator_lem blank_pages refl refl

gets-Accounted :
    (p : Pages) (i : ℕ) (held : List ℕ)
    → Accounted p held
    → p.current_index < stack_size
    → (get_page p).0 ≡ page_address i
    → Accounted (get_page p).1 (i ∷ held)
gets-Accounted p i held v room a =
    let (i', a', f, v', n, _) = get_page_lem p v.valid room in
    record {
      valid = v';
      out = omega (arith, v.out);
      once = λ j. ground (arith, v.once j, ap (tally j) f, a, a');
    }

stores-Accounted :
    (p : Pages) (i : ℕ) (xs ys : List ℕ)
    → Accounted p (xs ++ i ∷ ys)
    → Accounted (store_page p (page_address i)).1 (xs ++ ys)
stores-Accounted p i xs ys v =
    let within : i < 256 = ground (arith, v.once i, tally-append i xs (i ∷ ys)) in
    let some_out : 0 < p.current_index = omega (arith, v.out, length-append xs (i ∷ ys)) in
    let (_, f, v', n, _) = store_page_lem p i v.valid some_out within in
    record {
      valid = v';
      out = omega (arith, v.out, length-append xs (i ∷ ys), length-append xs ys);
      once = λ j.
          ground
            (arith, v.once j, ap (tally j) f, tally-append j xs (i ∷ ys), tally-append j xs ys);
    }

fails-Accounted :
    (p : Pages) (held : List ℕ)
    → Accounted p held
    → p.current_index ≡ stack_size
    → Accounted (get_page p).1 held
fails-Accounted p held v full = rw (get_page_exhausted p full) (record {
  valid = record { sized = v.valid.sized; index_in = v.valid.index_in };
  out = v.out;
  once = v.once;
})

Step-Accounted :
    {p q : Pages} {held held' : List ℕ} → Step p held q held' → Accounted p held → Accounted q held'
Step-Accounted {p} {q} {held} {held'} (gets i room a e h) v =
    rw (e, h) (gets-Accounted p i held v room a)
Step-Accounted {p} {q} {held} {held'} (fails full e h) v = rw (e, h) (fails-Accounted p held v full)
Step-Accounted {p} {q} {held} {held'} (stores xs ys i o e h) v =
    rw (e, h) (stores-Accounted p i xs ys (rw o at v))

-- In every history of `get_page` and `store_page`, the calls that find no page included, in which
-- only a page that is held is stored, each of the 255 pages is, exactly once, either free or with one holder: no page
-- is ever handed out twice or lost.
pub Reach-Accounted : {p : Pages} {held : List ℕ} → Reach p held → Accounted p held
Reach-Accounted (start p e) = start-Accounted p e
Reach-Accounted (next r s) = Step-Accounted s (Reach-Accounted r)
