-- ===== src/IntList/Refine.antt =====
-- The list that the nodes of nanOS/Kernel/intLinkedlistADT.c stand for.
use tpe_arqui.Prelude.{
  ℕ, zero, suc, ◌≤◌, ◌<◌, ◌≡◌, ◌≢◌, refl, sym, ap, subst, ◌∙◌, arith, ◌==◌, true, false,
  if◌then◌else◌, ℤ, Option, none, some, inl, inr, Bool-cases, List, [], ◌∷◌, tally, length,
}
use tpe_arqui.Allocator.Pages.{Pages, store_page}
use tpe_arqui.Process.Defs.{null}
use tpe_arqui.IntList.{
  IntNode, IntStore, put_int_node, same_int, relink, remove_int_rec, remove_int,
}

-- From the address `l` on, the nodes stand at `cells`, each of them once.
abbrev pub Chain : (ℕ → IntNode) → ℕ → List ℕ → Type 0
Chain nodes l [] = l ≡ null
Chain nodes l (c ∷ cells) =
    (l ≡ c) × (c ≢ null) × (tally c cells ≡ 0) × Chain nodes (nodes c).next cells

-- The cells without the first that holds the number, and the pages with that one given back.
abbrev pub without : (ℕ → IntNode) → ℤ → List ℕ → List ℕ
without nodes num [] = []
without nodes num (c ∷ cells) =
    let rest = without nodes num cells in if same_int (nodes c).elem num then cells else c ∷ rest

abbrev pub returned : Pages → (ℕ → IntNode) → ℤ → List ℕ → Pages
returned p nodes num [] = p
returned p nodes num (c ∷ cells) =
    let rest = returned p nodes num cells in
    if same_int (nodes c).elem num then (store_page p c).1 else rest

tally-without :
    (nodes : ℕ → IntNode) (num : ℤ) (cells : List ℕ) (a : ℕ)
    → tally a (without nodes num cells) ≤ tally a cells
tally-without nodes num [] a = omega arith
tally-without nodes num (c ∷ cells) a = ground (arith, tally-without nodes num cells a)

-- A write beside the chain.
Chain-beside :
    (nodes : ℕ → IntNode) (l a : ℕ) (n : IntNode) (cells : List ℕ)
    → tally a cells ≡ 0
    → Chain nodes l cells
    → Chain (λ b. if a == b then n else nodes b) l cells
Chain-beside nodes l a n [] t h = h
Chain-beside nodes l a n (c ∷ cells) t (at, m, once, h) =
    let apart : (if a == c then n else nodes c) ≡ nodes c = ground (arith, t) in
    (
      at,
      m,
      once,
      subst (λ x. Chain (λ b. if a == b then n else nodes b) x.next cells) (sym apart)
          (Chain-beside nodes (nodes c).next a n cells (ground (arith, t)) h),
    )

-- What `remove_int` leaves.
pub record Removed (s : IntStore) (num : ℤ) (cells : List ℕ) (first : ℕ) (t : IntStore)
    : Type 0 where
  pub chain : Chain t.nodes first (without s.nodes num cells)
  pub elems : (a : ℕ) → (t.nodes a).elem ≡ (s.nodes a).elem
  pub pages : t.pages ≡ returned s.pages s.nodes num cells
  pub beside : (a : ℕ) → tally a cells ≡ 0 → t.nodes a ≡ s.nodes a

abbrev pub Removes : IntStore → ℤ → List ℕ → Option (ℕ × IntStore) → Type 0
Removes s num cells none = ⊥
Removes s num cells (some (first, t)) = Removed s num cells first t

relink-Removes :
    (s : IntStore) (num : ℤ) (c : ℕ) (cells : List ℕ) (r : Option (ℕ × IntStore))
    → same_int (s.nodes c).elem num ≡ false
    → c ≢ null
    → tally c cells ≡ 0
    → Removes s num cells r
    → Removes s num (c ∷ cells) (relink c r)
relink-Removes s num c cells none e m once h = h
relink-Removes s num c cells (some (n, t)) e m once h =
    let x : IntNode = (let y = t.nodes c in record y { next = n }) in
    let t' = put_int_node t c x in
    let rest = without s.nodes num cells in
    let here : t'.nodes c ≡ x = ground arith in
    let once' : tally c rest ≡ 0 = omega (arith, once, tally-without s.nodes num cells c) in
    record {
      chain =
          subst (λ b. Chain t'.nodes c (if b then cells else c ∷ rest)) (sym e)
            (
              refl,
              m,
              once',
              subst (λ y. Chain t'.nodes y.next rest) (sym here)
                  (Chain-beside t.nodes n c x rest once' h.chain),
            );
      elems = λ a. ground (arith, h.elems a);
      pages =
          h.pages
          ∙ sym (
              ap (λ b. if b then (store_page s.pages c).1 else returned s.pages s.nodes num cells)
                e);
      beside = λ a z. ground (arith, z, h.beside a (ground (arith, z)));
    }

remove_null :
    (fuel : ℕ) (s : IntStore) (num : ℤ) (l : ℕ)
    → l ≡ null
    → remove_int_rec (suc fuel) s num l ≡ some (l, s)
unfolding remove_int_rec
remove_null fuel s num l e = ground (arith, e)

remove_found :
    (fuel : ℕ) (s : IntStore) (num : ℤ) (l : ℕ)
    → l ≢ null
    → same_int (s.nodes l).elem num ≡ true
    → remove_int_rec (suc fuel) s num l
      ≡ some ((s.nodes l).next, record s { pages = (store_page s.pages l).1 })
unfolding remove_int_rec
remove_found fuel s num l n e = ground (arith, n, e)

remove_later :
    (fuel : ℕ) (s : IntStore) (num : ℤ) (l : ℕ)
    → l ≢ null
    → same_int (s.nodes l).elem num ≡ false
    → remove_int_rec (suc fuel) s num l ≡ relink l (remove_int_rec fuel s num (s.nodes l).next)
unfolding remove_int_rec
remove_later fuel s num l n e = ground (arith, n, e)

here-Removes :
    (s : IntStore) (num : ℤ) (c : ℕ) (cells : List ℕ)
    → same_int (s.nodes c).elem num ≡ true
    → Chain s.nodes (s.nodes c).next cells
    → Removes s num
        (c ∷ cells)
        (some ((s.nodes c).next, record s { pages = (store_page s.pages c).1 }))
here-Removes s num c cells e h = record {
  chain =
      subst
        (λ b. Chain s.nodes (s.nodes c).next (if b then cells else c ∷ without s.nodes num cells))
        (sym e) h;
  elems = λ a. refl;
  pages =
      sym (ap (λ b. if b then (store_page s.pages c).1 else returned s.pages s.nodes num cells) e);
  beside = λ a z. refl;
}

rec-Removes :
    (fuel : ℕ) (s : IntStore) (num : ℤ) (l : ℕ) (cells : List ℕ)
    → Chain s.nodes l cells
    → length cells < fuel
    → Removes s num cells (remove_int_rec fuel s num l)
rec-Removes zero s num l cells h f = absurd (omega (arith, f))
rec-Removes (suc fuel) s num l [] h f =
    subst (Removes s num []) (sym (remove_null fuel s num l h))
      (record { chain = h; elems = λ a. refl; pages = refl; beside = λ a z. refl })
rec-Removes (suc fuel) s num l (c ∷ cells) (at, m, once, h) f =
    subst (λ a. Removes s num (c ∷ cells) (remove_int_rec (suc fuel) s num a)) (sym at)
      (elim (Bool-cases (same_int (s.nodes c).elem num)) [
        | inl e ↦
            subst (Removes s num (c ∷ cells)) (sym (remove_found fuel s num c m e))
              (here-Removes s num c cells e h)
        | inr e ↦ subst (Removes s num (c ∷ cells)) (sym (remove_later fuel s num c m e)) (
            relink-Removes s num c cells _ e m once
              (rec-Removes fuel s num (s.nodes c).next cells h (omega (arith, f))))
      ])

-- `remove_int` of a chain of nodes always finishes, given one unit of fuel more than there are nodes.
-- It leaves the chain without the first node that holds the number, whose page, and no other, it
-- gives back; no number changes, and no node beside the chain.
pub remove_int-Removes :
    (fuel : ℕ) (s : IntStore) (first : ℕ) (num : ℤ) (cells : List ℕ)
    → Chain s.nodes first cells
    → length cells < fuel
    → Removes s num cells (remove_int fuel s first num)
unfolding remove_int
remove_int-Removes fuel s first num cells h f = rec-Removes fuel s num first cells h f
