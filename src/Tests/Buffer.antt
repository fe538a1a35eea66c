-- ===== src/Tests/Buffer.antt =====
-- The circular buffer of nanOS/Kernel/fifo.c, with its bytes round the end of the array.
use tpe_arqui.Prelude.{◌≡◌, refl, arith, none}
use tpe_arqui.Fifo.Buffer.{CircularBuffer, write_circular_buffer, read_circular_buffer}
use tpe_arqui.Fifo.Buffer.Write.{IsValid, write_circular_buffer_full}
use tpe_arqui.Fifo.Buffer.Stream.{Appends, Removes, write_refines, read_refines}

abbrev wrapped : CircularBuffer
wrapped = record { buffer = λ a. a; free_slot = 6; current = 1020; buf_fill = 10 }

wrapped-IsValid : IsValid wrapped
wrapped-IsValid = record { current_in = omega arith; fill_in = omega arith; free_after = refl }

abbrev full_buffer : CircularBuffer
full_buffer = record { buffer = λ a. a; free_slot = 7; current = 7; buf_fill = 1024 }

full_buffer-IsValid : IsValid full_buffer
full_buffer-IsValid = record { current_in = omega arith; fill_in = omega arith; free_after = refl }

write_refines_example : Appends wrapped (λ a. a) 50 5 (write_circular_buffer wrapped (λ a. a) 50 5)
write_refines_example =
    write_refines wrapped (λ a. a) 50 5 wrapped-IsValid (omega arith) (omega arith) (omega arith)

read_refines_example : Removes wrapped 50 7 (read_circular_buffer wrapped (λ a. a) 50 7)
read_refines_example =
    read_refines wrapped (λ a. a) 50 7 wrapped-IsValid (omega arith) (omega arith)

full_overwritten : write_circular_buffer full_buffer (λ a. a) 50 1 ≡ none
full_overwritten =
    write_circular_buffer_full full_buffer (λ a. a) 50 1 full_buffer-IsValid refl (omega arith)
