-- ===== src/ProdCons/Pipes/Order.antt =====
-- The numbers of nanOS/Userland/SampleCodeModule/producerConsumer.c go through the pipe whole and in
-- order.
use tpe_arqui.Prelude.{
  ℕ, zero, suc, ◌+◌, ◌-◌, ◌*◌, ◌^◌, ◌≤◌, ◌<◌, ◌≡◌, refl, sym, ap, subst, ◌∙◌, arith, Bool, true,
  false, one_if, Option, none, some, List, [], ◌∷◌, ◌++◌, length, take, drop, length-append,
}
use Prim.Native.Nat.{min}
use mathlib.Core.List.{append_assoc}
use tpe_arqui.Fifo.Buffer.{buf_size}
use tpe_arqui.ProdCons.Pipes.{
  Pipes, pipe_write, empty_slot, fill_slots, opened_pipes, int_bytes, int_of, producer_reads,
  producer_writes, consumer_reads, consumer_writes,
}

-- The sections of the two in any order: the numbers produced, those consumed, and whether the producer
-- has read a slot and the consumer a number.
pub data Flow (size : ℕ) (item : List ℕ) : List ℕ → List ℕ → Bool → Bool → Pipes → Type 0 where
  starts : Flow size item [] [] false false (opened_pipes size item)
  slot_read :
      (made taken : List ℕ) (c : Bool) (s t : Pipes)
      → Flow size item made taken false c s
      → producer_reads s ≡ some t
      → Flow size item made taken true c t
  item_written :
      (made taken : List ℕ) (c : Bool) (s : Pipes) (v : ℕ)
      → Flow size item made taken true c s
      → v < 2 ^ 32
      → Flow size item (made ++ v ∷ []) taken false c (producer_writes v s)
  item_read :
      (made taken : List ℕ) (p : Bool) (s t : Pipes)
      → Flow size item made taken p false s
      → consumer_reads s ≡ some t
      → Flow size item made (taken ++ int_of t.item ∷ []) p true t
  slot_written :
      (made taken : List ℕ) (p : Bool) (s : Pipes)
      → Flow size item made taken p true s
      → Flow size item made taken p false (consumer_writes s)

abbrev pub flat : List ℕ → List ℕ
flat [] = []
flat (v ∷ vs) = int_bytes v ++ flat vs

abbrev pub Small : List ℕ → Type 0
Small [] = Unit {0}
Small (v ∷ vs) = (v < 2 ^ 32) × Small vs

pub record Inv (size : ℕ) (made taken : List ℕ) (p c : Bool) (s : Pipes) : Type 0 where
  pub items : List ℕ
  pub order : made ≡ taken ++ items
  pub whole : s.full_fifo ≡ flat items
  pub small : Small items
  pub slots : length s.empty_fifo + one_if p + length items + one_if c ≡ size
  pub variable : length s.item ≡ 4

int_of-int_bytes : (v : ℕ) → v < 2 ^ 32 → int_of (int_bytes v) ≡ v
int_of-int_bytes v l = omega (arith, l)

flat_append : (vs : List ℕ) (v : ℕ) → flat (vs ++ v ∷ []) ≡ flat vs ++ int_bytes v
flat_append [] v = refl
flat_append (w ∷ vs) v = ap (λ r. int_bytes w ++ r) (flat_append vs v)

length-flat : (vs : List ℕ) → length (flat vs) ≡ 4 * length vs
length-flat [] = refl
length-flat (v ∷ vs) = let rest = length-flat vs in omega (arith, rest)

Small-append : (vs : List ℕ) (v : ℕ) → Small vs → v < 2 ^ 32 → Small (vs ++ v ∷ [])
Small-append [] v h l = (l, tt)
Small-append (w ∷ vs) v (k, h) l = (k, Small-append vs v h l)

take-whole : (n : ℕ) (xs : List ℕ) → n ≡ length xs → take n xs ≡ xs
take-whole zero [] e = refl
take-whole zero (x ∷ xs) e = absurd (omega (arith, e))
take-whole (suc n) [] e = absurd (omega (arith, e))
take-whole (suc n) (x ∷ xs) e = ap (λ r. x ∷ r) (take-whole n xs (omega (arith, e)))

-- A write for which there is room.
pipe_write-room :
    (pipe bytes : List ℕ)
    → length pipe + length bytes ≤ buf_size
    → pipe_write pipe bytes ≡ pipe ++ bytes
pipe_write-room pipe bytes l =
    ap (λ r. pipe ++ r)
      (take-whole (min (length bytes) (buf_size - length pipe)) bytes (omega (arith, l)))

fill_slots_lem :
    (n : ℕ) (pipe : List ℕ)
    → length pipe + n ≤ buf_size
    → length (fill_slots n pipe) ≡ length pipe + n
unfolding fill_slots
fill_slots_lem zero pipe l = omega arith
fill_slots_lem (suc n) pipe l =
    let one = pipe_write-room pipe (empty_slot ∷ []) (omega (arith, l)) in
    let more = length-append pipe (empty_slot ∷ []) in
    let longer = ap length one in
    let rest =
      fill_slots_lem n (pipe_write pipe (empty_slot ∷ [])) (omega (arith, l, more, longer)) in
    omega (arith, rest, more, longer)

opened-Inv :
    (size : ℕ) (item : List ℕ)
    → 4 * size ≤ buf_size
    → length item ≡ 4
    → Inv size [] [] false false (opened_pipes size item)
unfolding opened_pipes
opened-Inv size item l e =
    let filled = fill_slots_lem size [] (omega (arith, l)) in
    record {
      items = [];
      order = refl;
      whole = refl;
      small = tt;
      slots = omega (arith, filled);
      variable = e;
    }

abbrev pipes_or : Pipes → Option Pipes → Pipes
pipes_or s none = s
pipes_or s (some t) = t

waits_for_slot : (s : Pipes) → s.empty_fifo ≡ [] → producer_reads s ≡ none
unfolding producer_reads
waits_for_slot s e = rw (producer_reads, e) refl

takes_slot :
    (s : Pipes) (slot : ℕ) (rest : List ℕ)
    → s.empty_fifo ≡ slot ∷ rest
    → producer_reads s ≡ some (record s { empty_fifo = rest })
unfolding producer_reads
takes_slot s slot rest e = rw (producer_reads, e) refl

slot_read-Inv :
    (size : ℕ) (made taken : List ℕ) (c : Bool) (s t : Pipes) (slots : List ℕ)
    → s.empty_fifo ≡ slots
    → producer_reads s ≡ some t
    → Inv size made taken false c s
    → Inv size made taken true c t
slot_read-Inv size made taken c s t [] e r inv = absurd (cc (waits_for_slot s e, r))
slot_read-Inv size made taken c s t (slot ∷ rest) e r inv =
    let fewer = ap length e in
    subst (Inv size made taken true c) (ap (pipes_or s) (sym (takes_slot s slot rest e) ∙ r))
      (record {
        items = inv.items;
        order = inv.order;
        whole = inv.whole;
        small = inv.small;
        slots = omega (arith, inv.slots, fewer);
        variable = inv.variable;
      })

item_written-Inv :
    (size : ℕ) (made taken : List ℕ) (c : Bool) (s : Pipes) (v : ℕ)
    → 4 * size ≤ buf_size
    → v < 2 ^ 32
    → Inv size made taken true c s
    → Inv size (made ++ v ∷ []) taken false c (producer_writes v s)
unfolding producer_writes
item_written-Inv size made taken c s v l b inv =
    let held : length s.full_fifo ≡ 4 * length inv.items =
      ap length inv.whole ∙ length-flat inv.items in
    let more = length-append inv.items (v ∷ []) in
    record {
      items = inv.items ++ v ∷ [];
      order = ap (λ r. r ++ v ∷ []) inv.order ∙ append_assoc taken inv.items (v ∷ []);
      whole =
          pipe_write-room s.full_fifo (int_bytes v) (omega (arith, held, l, inv.slots))
          ∙ ap (λ r. r ++ int_bytes v) inv.whole
          ∙ sym (flat_append inv.items v);
      small = Small-append inv.items v inv.small b;
      slots = omega (arith, inv.slots, more);
      variable = inv.variable;
    }

slot_written-Inv :
    (size : ℕ) (made taken : List ℕ) (p : Bool) (s : Pipes)
    → 4 * size ≤ buf_size
    → Inv size made taken p true s
    → Inv size made taken p false (consumer_writes s)
unfolding consumer_writes
slot_written-Inv size made taken p s l inv =
    let room = pipe_write-room s.empty_fifo (empty_slot ∷ []) (omega (arith, l, inv.slots)) in
    let longer = ap length room in
    let more = length-append s.empty_fifo (empty_slot ∷ []) in
    record {
      items = inv.items;
      order = inv.order;
      whole = inv.whole;
      small = inv.small;
      slots = omega (arith, inv.slots, longer, more);
      variable = inv.variable;
    }

waits_for_item : (s : Pipes) → s.full_fifo ≡ [] → consumer_reads s ≡ none
unfolding consumer_reads
waits_for_item s e = rw (consumer_reads, e) refl

takes_item :
    (s : Pipes) (v : ℕ) (rest : List ℕ)
    → s.full_fifo ≡ int_bytes v ++ rest
    → consumer_reads s ≡ some (record s { full_fifo = rest; item = int_bytes v ++ drop 4 s.item })
unfolding consumer_reads
takes_item s v rest e = rw (consumer_reads, e) refl

drop-whole : (n : ℕ) (xs : List ℕ) → length xs ≡ n → drop n xs ≡ []
drop-whole zero [] e = refl
drop-whole zero (x ∷ xs) e = absurd (omega (arith, e))
drop-whole (suc n) [] e = refl
drop-whole (suc n) (x ∷ xs) e = drop-whole n xs (omega (arith, e))

-- The consumer with a number in its variable.
read-Inv :
    (size : ℕ) (made taken : List ℕ) (p : Bool) (s : Pipes) (v : ℕ) (vs : List ℕ)
    → (inv : Inv size made taken p false s) → inv.items ≡ v ∷ vs
    → Inv size made (taken ++ v ∷ []) p true (record s { full_fifo = flat vs; item = int_bytes v })
read-Inv size made taken p s v vs inv e =
    let fewer = ap length e in
    record {
      items = vs;
      order = inv.order ∙ ap (λ r. taken ++ r) e ∙ sym (append_assoc taken (v ∷ []) vs);
      whole = refl;
      small = (subst Small e inv.small).1;
      slots = omega (arith, inv.slots, fewer);
      variable = refl;
    }

item_read-Inv :
    (size : ℕ) (made taken : List ℕ) (p : Bool) (s t : Pipes) (items : List ℕ)
    → (inv : Inv size made taken p false s) → inv.items ≡ items
    → consumer_reads s ≡ some t
    → Inv size made (taken ++ int_of t.item ∷ []) p true t
item_read-Inv size made taken p s t [] inv e r =
    absurd (cc (waits_for_item s (inv.whole ∙ ap flat e), r))
item_read-Inv size made taken p s t (v ∷ vs) inv e r =
    let read : Pipes = record s { full_fifo = flat vs; item = int_bytes v } in
    let after : read ≡ t =
      ap (λ d. (record s { full_fifo = flat vs; item = int_bytes v ++ d }))
        (sym (drop-whole 4 s.item inv.variable))
      ∙ ap (pipes_or s) (sym (takes_item s v (flat vs) (inv.whole ∙ ap flat e)) ∙ r) in
    subst (λ u. Inv size made (taken ++ int_of u.item ∷ []) p true u) after
      (subst (λ w. Inv size made (taken ++ w ∷ []) p true read)
        (sym (int_of-int_bytes v (subst Small e inv.small).0))
        (read-Inv size made taken p s v vs inv e))

-- In every order of the sections of the two, with at most 256 slots, numbers below 2^32 and a variable
-- of four bytes: the numbers produced are those consumed followed by those in the pipe, in order and
-- each as its four bytes, so that none is lost, torn or changed; and the empty slots, the numbers in the
-- pipe and what the two hold are together as many as the slots there were at the start.
pub Flow-Inv :
    {size : ℕ} {item made taken : List ℕ} {p c : Bool} {s : Pipes}
    → 4 * size ≤ buf_size
    → length item ≡ 4
    → Flow size item made taken p c s
    → Inv size made taken p c s
Flow-Inv {size} {item} l e Flow.starts = opened-Inv size item l e
Flow-Inv {size} l e (Flow.slot_read made taken c s t r read) =
    slot_read-Inv size made taken c s t _ refl read (Flow-Inv l e r)
Flow-Inv {size} l e (Flow.item_written made taken c s v r b) =
    item_written-Inv size made taken c s v l b (Flow-Inv l e r)
Flow-Inv {size} l e (Flow.item_read made taken p s t r read) =
    item_read-Inv size made taken p s t _ (Flow-Inv l e r) refl read
Flow-Inv {size} l e (Flow.slot_written made taken p s r) =
    slot_written-Inv size made taken p s l (Flow-Inv l e r)
