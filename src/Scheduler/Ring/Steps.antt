-- ===== src/Scheduler/Ring/Steps.antt =====
-- What `add_process`, `next_process` and `end_process` of nanOS/Kernel/processManager.c do to the ring.
use tpe_arqui.Prelude.{
  ℕ, zero, suc, ◌<◌, ◌≡◌, ◌≢◌, ◌⊎◌, inl, inr, refl, sym, ap, subst, ◌∙◌, arith, ◌==◌, true, false,
  some, List, [], ◌∷◌, length, length-append, tally,
}
use tpe_arqui.Allocator.Pages.{get_page, store_page}
use tpe_arqui.Process.Defs.{null}
use tpe_arqui.Process.Lifecycle.{destroy_process}
use tpe_arqui.Mutex.{locked, unlocked}
use tpe_arqui.Scheduler.{
  Scheduler, quantum_max, put_node, set_next, add_process, end_process, set_next_current,
  unassign_quantum, assign_quantum, rsp_of_current,
}
use tpe_arqui.Scheduler.Laws.{moved, left, current_blocked, current_runs, set_next_current_lem}
use tpe_arqui.Scheduler.Ring.{
  Rings, IsRing, Linked, last, rotate, rotates, Linked-same, Linked-relink, last-member,
  moved-Rings,
}

pub moved-IsRing :
    (n : ℕ) (s : Scheduler) (ring : List ℕ)
    → 0 < length ring
    → IsRing s ring
    → IsRing (moved n s) (rotates n ring)
moved-IsRing zero s ring l r = r
moved-IsRing (suc n) s [] l r = absurd (omega (arith, l))
moved-IsRing (suc n) s (x ∷ xs) l r =
    let longer = length-append xs (x ∷ []) in
    moved-IsRing n (moved 1 s) (rotate (x ∷ xs)) (omega (arith, longer)) (moved-Rings s x xs r)

-- The page of a new node.
abbrev pub new_page : Scheduler → ℕ
new_page s = (get_page s.world.pages).0

abbrev paged : Scheduler → Scheduler
paged s =
    let w = s.world in
    record s { world = record w { pages = (get_page s.world.pages).1 }; superlock = unlocked }

abbrev added_first : Scheduler → ℕ → Scheduler
added_first s p =
    let u =
      put_node (paged s) (new_page s)
        (record { quantum = quantum_max; p = p; next = new_page s }) in
    record u { current = new_page s; prev = new_page s }

abbrev added_next : Scheduler → ℕ → Scheduler
added_next s p =
    let next = (s.nodes s.current).next in
    set_next
      (put_node (paged s) (new_page s) (record { quantum = quantum_max; p = p; next = next }))
      s.current (new_page s)

adds_first :
    (s : Scheduler) (p : ℕ) → (s.current == null) ≡ true → add_process s p ≡ added_first s p
unfolding add_process
adds_first s p e = rw (add_process, e) refl

adds_next : (s : Scheduler) (p : ℕ) → (s.current == null) ≡ false → add_process s p ≡ added_next s p
unfolding add_process
adds_next s p e = rw (add_process, e) refl

-- The new node stands behind the current one.
abbrev pub insert : ℕ → List ℕ → List ℕ
insert n [] = n ∷ []
insert n (x ∷ xs) = x ∷ n ∷ xs

links_new :
    (s : Scheduler) (p x : ℕ) (xs : List ℕ)
    → tally (new_page s) (x ∷ xs) ≡ 0
    → Rings s x xs
    → Linked (added_next s p).nodes (new_page s) xs x
links_new s p x [] fresh r =
    let current = r.current in
    let linked : (s.nodes s.current).next ≡ x = ap (λ c. (s.nodes c).next) current ∙ r.linked in
    ground (arith, current, fresh, linked)
links_new s p x (y ∷ ys) fresh r =
    let current = r.current in
    let linked : (s.nodes s.current).next ≡ y = ap (λ c. (s.nodes c).next) current ∙ r.linked.0 in
    let once = r.distinct x in
    (
      ground (arith, current, fresh, linked),
      Linked-same s.nodes (added_next s p).nodes y ys x
          (λ a h. ground (arith, h, current, fresh, once)) r.linked.1,
    )

prev_added :
    (v x : ℕ) (new : ℕ) (xs : List ℕ) → (v ≡ last x xs) ⊎ (v ≡ x) → (v ≡ last new xs) ⊎ (v ≡ x)
prev_added v x new [] (inl e) = inr e
prev_added v x new (y ∷ ys) (inl e) = inl e
prev_added v x new xs (inr e) = inr e

next-Rings :
    (s : Scheduler) (p x : ℕ) (xs : List ℕ)
    → tally (new_page s) (x ∷ xs) ≡ 0
    → new_page s ≢ null
    → Rings s x xs
    → Rings (added_next s p) x (new_page s ∷ xs)
next-Rings s p x xs fresh real r =
    let current = r.current in
    record {
      current = current;
      linked = (ground (arith, current), links_new s p x xs fresh r);
      distinct = λ a. (let once = r.distinct a in ground (arith, once, fresh));
      present = (let none_null = r.present in ground (arith, none_null, real));
      prev = prev_added s.prev x (new_page s) xs r.prev;
    }

pub add_process-IsRing :
    (s : Scheduler) (p : ℕ) (ring : List ℕ)
    → tally (new_page s) ring ≡ 0
    → new_page s ≢ null
    → IsRing s ring
    → IsRing (add_process s p) (insert (new_page s) ring)
add_process-IsRing s p [] fresh real r =
    subst (λ t. IsRing t (new_page s ∷ [])) (sym (adds_first s p (ground (arith, r))))
      (record {
        current = refl;
        linked = ground arith;
        distinct = λ a. ground arith;
        present = ground (arith, real);
        prev = inl refl;
      })
add_process-IsRing s p (x ∷ xs) fresh real r =
    let current = r.current in
    let none_null = r.present in
    subst (λ t. IsRing t (x ∷ new_page s ∷ xs))
      (sym (adds_next s p (ground (arith, current, none_null)))) (next-Rings s p x xs fresh real r)

-- A ring stands on its nodes and the two statics alone.
pub IsRing-same :
    (s t : Scheduler) (ring : List ℕ)
    → t.current ≡ s.current
    → t.prev ≡ s.prev
    → ((a : ℕ) → (t.nodes a).next ≡ (s.nodes a).next)
    → IsRing s ring
    → IsRing t ring
IsRing-same s t [] c p n r = c ∙ r
IsRing-same s t (x ∷ xs) c p n r = record {
  current = c ∙ r.current;
  linked = Linked-same s.nodes t.nodes x xs x (λ a h. n a) r.linked;
  distinct = r.distinct;
  present = r.present;
  prev = subst (λ v. (v ≡ last x xs) ⊎ (v ≡ x)) (sym p) r.prev;
}

left_same :
    (s : Scheduler) (rsp : ℕ)
    → ((left s rsp).current ≡ (s.nodes s.current).next)
      × ((left s rsp).prev ≡ s.current)
      × ((a : ℕ) → ((left s rsp).nodes a).next ≡ (s.nodes a).next)
unfolding unassign_quantum
left_same s rsp = (ground arith, refl, λ a. ground arith)

pub left-IsRing :
    (s : Scheduler) (rsp : ℕ) (ring : List ℕ)
    → 0 < length ring
    → IsRing s ring
    → IsRing (left s rsp) (rotate ring)
left-IsRing s rsp [] l r = absurd (omega (arith, l))
left-IsRing s rsp (x ∷ xs) l r =
    let (c, p, n) = left_same s rsp in
    IsRing-same (moved 1 s) (left s rsp) (rotate (x ∷ xs)) c p n (moved-Rings s x xs r)

-- The ring as `end_process` leaves it to `set_next_current`.
abbrev pub ended : Scheduler → Scheduler
ended s =
    let p = (s.nodes s.current).p in
    let destroyed = record s { superlock = locked; world = destroy_process s.world p p } in
    let unlinked = set_next destroyed s.prev (s.nodes s.current).next in
    record unlinked { current = (unlinked.nodes s.current).next }

-- And as it comes back from there.
abbrev pub resumed : Scheduler → ℕ → Scheduler
resumed t a =
    let w = t.world in
    assign_quantum
      (record t { superlock = unlocked; world = record w { pages = (store_page w.pages a).1 } })

end_process-switch :
    (n fuel : ℕ) (s : Scheduler)
    → set_next_current fuel (ended s) ≡ some (moved n (ended s))
    → let v = resumed (moved n (ended s)) s.current in
      end_process fuel s ≡ some (rsp_of_current v, v)
unfolding end_process
end_process-switch n fuel s e = rw (end_process, e) refl

pub ended-Rings :
    (s : Scheduler) (x y : ℕ) (ys : List ℕ)
    → Rings s x (y ∷ ys)
    → s.prev ≡ last y ys
    → Rings (ended s) y ys
ended-Rings s x y ys r e =
    let current = r.current in
    let next : (s.nodes s.current).next ≡ y = ap (λ c. (s.nodes c).next) current ∙ r.linked.0 in
    let in_rest = last-member y ys in
    let once = r.distinct x in
    let apart : x ≢ last y ys = λ q. ground (arith, q, in_rest, once) in
    record {
      current = ground (arith, next);
      linked =
          Linked-relink s.nodes (ended s).nodes y ys x y r.linked.1
            (λ a. (let h = r.distinct a in omega (arith, h))) (ground (arith, e, next))
            (λ a d. ground (arith, d, e));
      distinct = λ a. (let h = r.distinct a in omega (arith, h));
      present = (let h = r.present in omega (arith, h));
      prev = inl e;
    }

resumed_same :
    (t : Scheduler) (a : ℕ)
    → ((resumed t a).current ≡ t.current)
      × ((resumed t a).prev ≡ t.prev)
      × ((b : ℕ) → ((resumed t a).nodes b).next ≡ (t.nodes b).next)
unfolding assign_quantum
resumed_same t a = (refl, refl, λ b. ground arith)

-- `end_process` of a ring of two or more, where `prev` is the node before the current one and the first
-- process that can run is `n` nodes after the next one, with only blocked ones before it.
pub end_process-IsRing :
    (n fuel : ℕ) (s : Scheduler) (x y : ℕ) (ys : List ℕ)
    → Rings s x (y ∷ ys)
    → s.prev ≡ last y ys
    → ((k : ℕ) → k < n → current_blocked (moved k (ended s)) ≡ true)
    → current_runs (moved n (ended s)) ≡ true
    → n < fuel
    → let v = resumed (moved n (ended s)) s.current in
      (end_process fuel s ≡ some (rsp_of_current v, v)) × IsRing v (rotates n (y ∷ ys))
end_process-IsRing n fuel s x y ys r e b runs l =
    let t = moved n (ended s) in
    let (c, p, same) = resumed_same t s.current in
    (
      end_process-switch n fuel s (set_next_current_lem n fuel (ended s) b runs l),
      IsRing-same t (resumed t s.current) (rotates n (y ∷ ys)) c p same
          (moved-IsRing n (ended s) (y ∷ ys) (omega arith) (ended-Rings s x y ys r e)),
    )
