-- ===== src/Tests/IntList.antt =====
-- The sets of numbers of nanOS/Kernel/intLinkedlistADT.c: one of two numbers.
use tpe_arqui.Prelude.{refl, arith, [], ◌∷◌, replicate, pos, if◌then◌else◌, ◌==◌}
use tpe_arqui.IntList.{IntStore, remove_int}
use tpe_arqui.IntList.Refine.{Removes, remove_int-Removes}

-- The numbers 5 and 7, at 0x503000 and 0x504000.
abbrev set_of_two : IntStore
set_of_two = record {
  nodes = λ a.
      if a == 0x503000
      then record { elem = pos 5; next = 0x504000 }
      else record { elem = pos 7; next = 0 };
  pages = record { pages_stack = replicate 255 2; current_index = 4; lock_calls = [] };
}

remove_int-Removes_example :
    Removes set_of_two (pos 7) (0x503000 ∷ 0x504000 ∷ []) (remove_int 3 set_of_two 0x503000 (pos 7))
remove_int-Removes_example =
    remove_int-Removes 3 set_of_two 0x503000 (pos 7) (0x503000 ∷ 0x504000 ∷ [])
      (refl, omega arith, refl, (refl, omega arith, refl, refl)) (omega arith)
