-- ===== src/ProdCons/Safety.antt =====
-- What the producer and the consumer of nanOS/Userland/SampleCodeModule/producerConsumer2.c share,
-- in every order of their steps.
use tpe_arqui.Prelude.{
  ℕ, ◌+◌, ◌-◌, ◌≤◌, ◌≡◌, refl, sym, ap, subst, arith, ◌==◌, Bool, false, not, if◌then◌else◌, ℤ,
  List, [], ◌∷◌, Option, none, some, one_if, inl, inr, Bool-cases,
}
use tpe_arqui.ProdCons.Contents.{
  contents, pushed, popped, produce_full, produce_room, consume_empty, consume_full,
}
use tpe_arqui.IntList.{same_int}
use tpe_arqui.ProdCons.{
  Role, producer, consumer, awake, leaving, queued, Shop, max_size, opened_shop, signal_cond,
  enter_queue, go_to_sleep, produce, consume,
}

-- How often a number occurs.
abbrev pub occurs : ℤ → List ℤ → ℕ
occurs v [] = 0
occurs v (x ∷ xs) = occurs v xs + one_if (same_int x v)

-- The numbers made and the numbers taken, and what they have led to.
pub record Inv (made taken : List ℤ) (s : Shop) : Type 0 where
  pub fits : s.buffer_size ≤ max_size
  pub bounded : s.index ≤ s.buffer_size
  pub kept : (v : ℤ) → occurs v made ≡ occurs v taken + occurs v (contents s.buffer s.index)

-- The lists after a section.
abbrev pub Made : List ℤ → List ℤ → ℤ → Bool × Shop → Type 0
Made made taken v (b, t) = Inv (if b then v ∷ made else made) taken t

abbrev pub with_taken : Option ℤ → List ℤ → List ℤ
with_taken none taken = taken
with_taken (some v) taken = v ∷ taken

abbrev pub Taken : List ℤ → List ℤ → Option ℤ × Shop → Type 0
Taken made taken (o, t) = Inv made (with_taken o taken) t

signal_cond_same :
    (s : Shop)
    → ((signal_cond s).buffer ≡ s.buffer)
      × ((signal_cond s).index ≡ s.index)
      × ((signal_cond s).buffer_size ≡ s.buffer_size)
unfolding signal_cond
signal_cond_same s = ground arith

signal_cond-Inv :
    (made taken : List ℤ) (s : Shop) → Inv made taken s → Inv made taken (signal_cond s)
signal_cond-Inv made taken s inv =
    let same = signal_cond_same s in
    record {
      fits = omega (arith, same.2, inv.fits);
      bounded = omega (arith, same.1, same.2, inv.bounded);
      kept = λ v. rw (same.0, same.1) (inv.kept v);
    }

produce-Inv :
    (made taken : List ℤ) (v : ℤ) (s : Shop) → Inv made taken s → Made made taken v (produce v s)
produce-Inv made taken v s inv = elim (Bool-cases (s.index == s.buffer_size)) [
  | inl e ↦
      subst (Made made taken v) (sym (produce_full v s e))
        (record { fits = inv.fits; bounded = inv.bounded; kept = inv.kept })
  | inr e ↦ subst (Made made taken v) (sym (produce_room v s e)) (
      signal_cond-Inv (v ∷ made) taken _ (record {
        fits = inv.fits;
        bounded = ground (arith, e, inv.bounded);
        kept = λ x. omega (arith, inv.kept x, ap (occurs x) (pushed s.buffer s.index v));
      }))
]

consume-Inv : (made taken : List ℤ) (s : Shop) → Inv made taken s → Taken made taken (consume s)
consume-Inv made taken s inv = elim (Bool-cases (s.index == 0)) [
  | inl e ↦
      subst (Taken made taken) (sym (consume_empty s e))
        (record { fits = inv.fits; bounded = inv.bounded; kept = inv.kept })
  | inr e ↦ subst (Taken made taken) (sym (consume_full s e)) (
      signal_cond-Inv made (s.buffer (s.index - 1) ∷ taken) _ (record {
        fits = inv.fits;
        bounded = omega (arith, inv.bounded);
        kept = λ x. omega (arith, inv.kept x, ap (occurs x) (popped s.buffer s.index e));
      }))
]

-- The steps in any order: sections of the two, which the key `p` holds up, and the two halves of
-- falling asleep; with the numbers made and taken, latest first.
pub data Run : List ℤ → List ℤ → Shop → Type 0 where
  opens :
      (memory : ℕ → ℤ) (buf_size : ℕ)
      → buf_size ≤ max_size
      → Run [] [] (opened_shop memory buf_size)
  produces :
      (made taken : List ℤ) (s : Shop) (v : ℤ)
      → Run made taken s
      → s.phase producer ≡ awake
      → s.paused ≡ false
      → Run (if (produce v s).0 then v ∷ made else made) taken (produce v s).1
  consumes :
      (made taken : List ℤ) (s : Shop)
      → Run made taken s
      → s.phase consumer ≡ awake
      → s.paused ≡ false
      → Run made (with_taken (consume s).0 taken) (consume s).1
  enters :
      (made taken : List ℤ) (s : Shop) (r : Role)
      → Run made taken s
      → s.phase r ≡ leaving
      → Run made taken (enter_queue r s)
  sleeps :
      (made taken : List ℤ) (s : Shop) (r : Role)
      → Run made taken s
      → s.phase r ≡ queued
      → Run made taken (go_to_sleep r s)
  pauses :
      (made taken : List ℤ) (s : Shop)
      → Run made taken s
      → Run made taken (record s { paused = not s.paused })

-- In every order of the two processes' sections and of the steps by which they fall asleep at the
-- condition, a wake-up that is lost between those included, with a buffer that fits in the page that
-- it gets: the buffer holds no more numbers than it has places, and each number made has been taken
-- or is in the buffer, as often as it was made.
pub Run-Inv : {made taken : List ℤ} {s : Shop} → Run made taken s → Inv made taken s
unfolding enter_queue go_to_sleep
Run-Inv (Run.opens memory buf_size l) = record { fits = l; bounded = omega arith; kept = λ v. refl }
Run-Inv (Run.produces made taken s v r a p) = produce-Inv made taken v s (Run-Inv r)
Run-Inv (Run.consumes made taken s r a p) = consume-Inv made taken s (Run-Inv r)
Run-Inv (Run.enters made taken s r before l) =
    let inv = Run-Inv before in record { fits = inv.fits; bounded = inv.bounded; kept = inv.kept }
Run-Inv (Run.sleeps made taken s r before l) =
    let inv = Run-Inv before in record { fits = inv.fits; bounded = inv.bounded; kept = inv.kept }
Run-Inv (Run.pauses made taken s r) =
    let inv = Run-Inv r in record { fits = inv.fits; bounded = inv.bounded; kept = inv.kept }
