-- ===== src/Queue/Refine.antt =====
-- The linked cells of nanOS/Kernel/queueADT.c as a list, the oldest element first.
use tpe_arqui.Prelude.{
  ℕ, zero, suc, ◌≤◌, ◌<◌, ◌≡◌, ◌≢◌, refl, arith, if◌then◌else◌, ◌==◌, true, false, List, [], ◌∷◌,
  ◌++◌, length, drop, tally, tally-append,
}
use tpe_arqui.Allocator.Pages.{get_page, store_page}
use tpe_arqui.Process.Defs.{null}
use tpe_arqui.Queue.{Node, Store, is_empty, enqueue, peek, dequeue, dequeue_all}

abbrev pub head_or_null : List ℕ → ℕ
head_or_null [] = null
head_or_null (a ∷ as_) = a

abbrev pub last_or_null : List ℕ → ℕ
last_or_null [] = null
last_or_null (a ∷ []) = a
last_or_null (a ∷ b ∷ as_) = last_or_null (b ∷ as_)

-- The cells at these addresses hold these elements, and each points to the next.
abbrev pub Linked : (ℕ → Node) → List ℕ → List ℕ → Type 0
Linked c [] [] = Unit {0}
Linked c [] (x ∷ xs) = ⊥
Linked c (a ∷ as_) [] = ⊥
Linked c (a ∷ as_) (x ∷ xs) =
    (a ≢ null) × ((c a).elem ≡ x) × ((c a).next ≡ head_or_null as_) × Linked c as_ xs

-- The queue at `q` holds the elements, in distinct cells at the addresses.
pub record Holds (s : Store) (q : ℕ) (cells elems : List ℕ) : Type 0 where
  pub is_queue : q ≢ null
  pub first : (s.queues q).first ≡ head_or_null cells
  pub last : (s.queues q).last ≡ last_or_null cells
  pub linked : Linked s.cells cells elems
  pub distinct : (a : ℕ) → tally a cells ≤ 1

-- Cells outside the chain do not matter to it.
Linked-head_or_null :
    (c d : ℕ → Node) (cells elems : List ℕ)
    → Linked c cells elems
    → ((a : ℕ) → 0 < tally a cells → d a ≡ c a)
    → Linked d cells elems
Linked-head_or_null c d [] [] l h = tt
Linked-head_or_null c d [] (x ∷ xs) l h = l
Linked-head_or_null c d (a ∷ as_) [] l h = l
Linked-head_or_null c d (a ∷ as_) (x ∷ xs) l h = (
  l.0,
  ground (arith, h a, l.1),
  ground (arith, h a, l.2),
  Linked-head_or_null c d as_ xs l.3 (λ b m. h b (ground arith)),
)

tally-last_or_null : (b : ℕ) (as_ : List ℕ) → 0 < tally (last_or_null (b ∷ as_)) (b ∷ as_)
tally-last_or_null b [] = ground arith
tally-last_or_null b (c ∷ as_) = omega (arith, tally-last_or_null c as_)

-- A cell put behind the last one.
Linked-append :
    (c d : ℕ → Node) (cells elems : List ℕ) (new x : ℕ)
    → Linked c cells elems
    → new ≢ null
    → ((a : ℕ) → tally a cells ≤ 1)
    → ((a : ℕ)
        → 0 < tally a cells
        → d a ≡ (let n = c a in if last_or_null cells == a then record n { next = new } else n))
    → d new ≡ record { elem = x; next = null }
    → Linked d (cells ++ new ∷ []) (elems ++ x ∷ [])
Linked-append c d [] [] new x l n u h e = ground (arith, e)
Linked-append c d [] (y ∷ ys) new x l n u h e = absurd l
Linked-append c d (a ∷ as_) [] new x l n u h e = absurd l
Linked-append c d (a ∷ []) (y ∷ []) new x l n u h e = ground (arith, e, h a)
Linked-append c d (a ∷ []) (y ∷ z ∷ ys) new x l n u h e = absurd (l.3)
Linked-append c d (a ∷ b ∷ as_) (y ∷ ys) new x l n u h e =
    let here = tally-last_or_null b as_ in
    (
      l.0,
      ground (arith, h a, l.1, u a, here),
      ground (arith, h a, l.2, u a, here),
      Linked-append c d (b ∷ as_) ys new x l.3 n (λ q. omega (arith, u q))
          (λ q m. h q (omega arith)) e,
    )

last_or_null-append : (a : ℕ) (as_ : List ℕ) (new : ℕ) → last_or_null (a ∷ (as_ ++ new ∷ [])) ≡ new
last_or_null-append a [] new = refl
last_or_null-append a (b ∷ as_) new = last_or_null-append b as_ new

-- `enqueue` of an element, with a page that no cell of the queue uses, puts it behind the others.
pub enqueue_refines :
    (s : Store) (q x : ℕ) (cells elems : List ℕ)
    → Holds s q cells elems
    → (get_page s.pages).0 ≢ null
    → tally (get_page s.pages).0 cells ≡ 0
    → Holds (enqueue s q x) q (cells ++ (get_page s.pages).0 ∷ []) (elems ++ x ∷ [])
unfolding enqueue
enqueue_refines s q x [] [] h n new = record {
  is_queue = h.is_queue;
  first = ground (arith, h.first, h.is_queue);
  last = ground (arith, h.first, h.is_queue);
  linked = ground (arith, h.first, h.is_queue, n);
  distinct = λ a. ground arith;
}
enqueue_refines s q x [] (y ∷ ys) h n new = absurd h.linked
enqueue_refines s q x (a ∷ as_) [] h n new = absurd h.linked
enqueue_refines s q x (a ∷ as_) (y ∷ ys) h n new =
    let new_node = (get_page s.pages).0 in
    record {
      is_queue = h.is_queue;
      first = ground (arith, h.first, h.last, h.is_queue, h.linked.0);
      last =
          ground
            (arith, h.first, h.last, h.is_queue, h.linked.0, last_or_null-append a as_ new_node);
      linked =
          Linked-append s.cells (enqueue s q x).cells (a ∷ as_) (y ∷ ys) new_node x h.linked n
            h.distinct (λ b m. ground (arith, h.first, h.last, h.is_queue, h.linked.0, new, m))
            (ground
              (arith, h.first, h.last, h.is_queue, h.linked.0, new, tally-last_or_null a as_));
      distinct = λ b. ground (arith, h.distinct b, new, tally-append b as_ (new_node ∷ []));
    }

-- `is_empty` and `peek` read the list: whether it is empty, and its first element.
pub peek_refines :
    (s : Store) (q : ℕ) (cells elems : List ℕ)
    → Holds s q cells elems
    → (is_empty s q ≡ elim elems [ [] ↦ true | _ ∷ _ ↦ false ])
      × (peek s q ≡ elim elems [ [] ↦ null | x ∷ _ ↦ x ])
unfolding peek
peek_refines s q [] [] h = ground (arith, h.first, h.is_queue)
peek_refines s q [] (x ∷ xs) h = absurd h.linked
peek_refines s q (a ∷ as_) [] h = absurd h.linked
peek_refines s q (a ∷ as_) (x ∷ xs) h = ground (arith, h.first, h.is_queue, h.linked.0, h.linked.1)

last_left :
    (c : ℕ → Node) (a : ℕ) (as_ elems : List ℕ) (last : ℕ)
    → Linked c as_ elems
    → last ≡ last_or_null (a ∷ as_)
    → (if head_or_null as_ == null then null else last) ≡ last_or_null as_
last_left c a [] elems last l e = refl
last_left c a (b ∷ as_) [] last l e = absurd l
last_left c a (b ∷ as_) (x ∷ elems) last l e = ground (arith, l.0, e)

-- `dequeue` of an empty queue returns NULL and changes nothing.
pub dequeue_empty :
    (s : Store) (q : ℕ) (cells : List ℕ) → Holds s q cells [] → dequeue s q ≡ (null, s)
unfolding dequeue
dequeue_empty s q [] h = ground (arith, h.first, h.is_queue)
dequeue_empty s q (a ∷ as_) h = absurd h.linked

-- `dequeue` of any other queue returns its first element, leaves the others in order, and gives
-- back the page of the first cell.
pub dequeue_refines :
    (s : Store) (q x : ℕ) (cells elems : List ℕ)
    → Holds s q cells (x ∷ elems)
    → let (y, t) = dequeue s q in
      (y ≡ x)
      × Holds t q (drop 1 cells) elems
      × (t.pages ≡ (store_page s.pages (head_or_null cells)).1)
unfolding dequeue
dequeue_refines s q x [] elems h = absurd h.linked
dequeue_refines s q x (a ∷ as_) elems h = (
  ground (arith, h.first, h.is_queue, h.linked.0, h.linked.1),
  record {
    is_queue = h.is_queue;
    first = ground (arith, h.first, h.is_queue, h.linked.0, h.linked.2);
    last = ground (
      arith,
      h.first,
      h.is_queue,
      h.linked.0,
      h.linked.2,
      last_left s.cells a as_ elems (s.queues q).last h.linked.3 h.last,
    );
    linked = ground (arith, h.first, h.is_queue, h.linked.0, h.linked.3);
    distinct = λ b. omega (arith, h.distinct b);
  },
  ground (arith, h.first, h.is_queue, h.linked.0),
)

-- With more fuel than there are elements, the loop of `destroy_queue` ends with the queue empty.
pub dequeue_all_empties :
    (fuel : ℕ) (s : Store) (q : ℕ) (cells elems : List ℕ)
    → Holds s q cells elems
    → length elems < fuel
    → Holds (dequeue_all fuel s q) q [] []
unfolding dequeue_all
dequeue_all_empties zero s q cells elems h l = absurd (omega arith)
dequeue_all_empties (suc fuel) s q [] [] h l = rw ((peek_refines s q [] [] h).0, dequeue_all) h
dequeue_all_empties (suc fuel) s q (a ∷ as_) [] h l = absurd h.linked
dequeue_all_empties (suc fuel) s q cells (x ∷ elems) h l =
    rw ((peek_refines s q cells (x ∷ elems) h).0, dequeue_all)
      (dequeue_all_empties fuel (dequeue s q).1 q (drop 1 cells) elems
        ((dequeue_refines s q x cells elems h).1) (omega arith))
