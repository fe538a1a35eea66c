-- ===== src/Tests/ProdCons.antt =====
-- The producer and the consumer of nanOS/Userland/SampleCodeModule/producerConsumer2.c, with a buffer
-- of one place: the producer makes 7 and finds the buffer full, and misses the signal.
use tpe_arqui.Prelude.{◌≡◌, refl, arith, true, false, [], ◌∷◌, pos, some}
use tpe_arqui.Libc.Ctype.{isspace}
use tpe_arqui.ProdCons.{
  Role, producer, consumer, blocked, Shop, opened_shop, produce, consume, enter_queue, go_to_sleep,
  signal_cond, control_speed, one_key,
}
use tpe_arqui.ProdCons.Pipes.{
  Pipes, opened_pipes, producer_reads, producer_writes, consumer_reads, fill_slots,
}
use tpe_arqui.ProdCons.Pipes.Order
use tpe_arqui.ProdCons.Pipes.Order.{Flow, Flow-Inv}
use tpe_arqui.ProdCons.Safety.{Run, Inv, Run-Inv}

abbrev shop : Shop
shop = opened_shop (λ _. pos 0) 1

abbrev shop_full : Shop
shop_full = (produce (pos 7) shop).1

-- The producer has found it full and has given the mutex back; it is in the queue, but not asleep yet.
abbrev shop_queued : Shop
shop_queued = enter_queue producer (produce (pos 8) shop_full).1

-- Then the consumer takes 7, finds it empty and sleeps, and at last the producer sleeps.
abbrev shop_taken : Shop
shop_taken = (consume shop_queued).1

abbrev shop_asleep : Shop
shop_asleep =
    go_to_sleep producer (go_to_sleep consumer (enter_queue consumer (consume shop_taken).1))

run : Run (pos 7 ∷ []) (pos 7 ∷ []) shop_asleep
unfolding produce consume enter_queue go_to_sleep signal_cond
run =
    let queued =
      Run.enters (pos 7 ∷ []) [] (produce (pos 8) shop_full).1 producer
        (Run.produces (pos 7 ∷ []) [] shop_full (pos 8)
          (Run.produces [] [] shop (pos 7) (Run.opens (λ _. pos 0) 1 (omega arith)) refl refl) refl
          refl)
        refl in
    let taken = Run.consumes (pos 7 ∷ []) [] shop_queued queued refl refl in
    let left = Run.consumes (pos 7 ∷ []) (pos 7 ∷ []) shop_taken taken refl refl in
    let entered = Run.enters (pos 7 ∷ []) (pos 7 ∷ []) (consume shop_taken).1 consumer left refl in
    let slept =
      Run.sleeps (pos 7 ∷ []) (pos 7 ∷ []) (enter_queue consumer (consume shop_taken).1) consumer
        entered refl in
    Run.sleeps (pos 7 ∷ []) (pos 7 ∷ [])
      (go_to_sleep consumer (enter_queue consumer (consume shop_taken).1)) producer slept refl

Run-Inv_example : Inv (pos 7 ∷ []) (pos 7 ∷ []) shop_asleep
Run-Inv_example = Run-Inv run

-- Both are blocked, and nobody is left to wake them.
both_asleep : (r : Role) → shop_asleep.phase r ≡ blocked
unfolding produce consume enter_queue go_to_sleep signal_cond
both_asleep producer = refl
both_asleep consumer = refl

-- "axq", Enter, "z".
keys_typed :
    control_speed
      (record { producer_sleep = 1; consumer_sleep = 2; stopped = false })
      (b'a' ∷ b'x' ∷ b'q' ∷ 10 ∷ b'z' ∷ [])
    ≡ some (record { producer_sleep = 2; consumer_sleep = 1; stopped = false }, b'z' ∷ [])
unfolding control_speed one_key isspace
keys_typed = refl

-- Two slots; the producer has read one and written 7 for it, and the consumer has read 7.
abbrev two_slots : Pipes
two_slots = opened_pipes 2 (0 ∷ 0 ∷ 0 ∷ 0 ∷ [])

abbrev one_slot : Pipes
one_slot = record two_slots { empty_fifo = b'E' ∷ [] }

abbrev holding_7 : Pipes
holding_7 = producer_writes 7 one_slot

abbrev read_7 : Pipes
read_7 = record holding_7 { full_fifo = []; item = 7 ∷ 0 ∷ 0 ∷ 0 ∷ [] }

flow : Flow 2 (0 ∷ 0 ∷ 0 ∷ 0 ∷ []) (7 ∷ []) (7 ∷ []) false true read_7
unfolding opened_pipes fill_slots producer_reads producer_writes consumer_reads
flow =
    Flow.item_read (7 ∷ []) [] false holding_7 read_7
      (Flow.item_written [] [] false one_slot 7
        (Flow.slot_read [] [] false two_slots one_slot Flow.starts refl) (omega arith))
      refl

Flow-Inv_example : Order.Inv 2 (7 ∷ []) (7 ∷ []) false true read_7
Flow-Inv_example = Flow-Inv (omega arith) refl flow
