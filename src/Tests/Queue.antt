-- ===== src/Tests/Queue.antt =====
-- The queues of nanOS/Kernel/queueADT.c: one with two elements.
use tpe_arqui.Prelude.{◌≡◌, refl, arith, false, [], ◌∷◌, if◌then◌else◌, ◌==◌}
use tpe_arqui.Allocator.Pages.{get_page, store_page}
use tpe_arqui.Process.Defs.{null}
use tpe_arqui.Queue.{Store, is_empty, enqueue, peek, dequeue, dequeue_all}
use tpe_arqui.Queue.Refine.{
  Holds, enqueue_refines, peek_refines, dequeue_refines, dequeue_all_empties,
}

-- The queue at 5 with its cells at 7 and 9; page 1 comes next.
abbrev two_cells : Store
two_cells = record {
  cells = λ a. if a == 7 then record { elem = 70; next = 9 } else record { elem = 90; next = null };
  queues = λ q. record { first = 7; last = 9 };
  pages = record { pages_stack = 1 ∷ 2 ∷ 3 ∷ []; current_index = 0; lock_calls = [] };
}

two_cells-Holds : Holds two_cells 5 (7 ∷ 9 ∷ []) (70 ∷ 90 ∷ [])
two_cells-Holds = record {
  is_queue = ground arith;
  first = refl;
  last = refl;
  linked = (ground arith, refl, refl, (ground arith, refl, refl, tt));
  distinct = λ a. ground arith;
}

one_enqueued :
    Holds (enqueue two_cells 5 11) 5 (7 ∷ 9 ∷ (get_page two_cells.pages).0 ∷ []) (70 ∷ 90 ∷ 11 ∷ [])
unfolding get_page
one_enqueued =
    enqueue_refines two_cells 5 11 (7 ∷ 9 ∷ []) (70 ∷ 90 ∷ []) two_cells-Holds (ground arith) refl

peek-two_cells : (is_empty two_cells 5 ≡ false) × (peek two_cells 5 ≡ 70)
peek-two_cells = peek_refines two_cells 5 (7 ∷ 9 ∷ []) (70 ∷ 90 ∷ []) two_cells-Holds

dequeue_refines_example :
    let (y, t) = dequeue two_cells 5 in
    (y ≡ 70) × Holds t 5 (9 ∷ []) (90 ∷ []) × (t.pages ≡ (store_page two_cells.pages 7).1)
dequeue_refines_example = dequeue_refines two_cells 5 70 (7 ∷ 9 ∷ []) (90 ∷ []) two_cells-Holds

dequeue_all_empties_example : Holds (dequeue_all 3 two_cells 5) 5 [] []
dequeue_all_empties_example =
    dequeue_all_empties 3 two_cells 5 (7 ∷ 9 ∷ []) (70 ∷ 90 ∷ []) two_cells-Holds (ground arith)
