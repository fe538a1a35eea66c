-- ===== src/ProdCons/Contents.antt =====
-- The buffer of nanOS/Userland/SampleCodeModule/producerConsumer2.c as a stack.
use tpe_arqui.Prelude.{
  ℕ, zero, suc, ◌+◌, ◌-◌, ◌≤◌, ◌≡◌, refl, ap, ◌∙◌, arith, ◌==◌, true, false, if◌then◌else◌, ℤ, List,
  [], ◌∷◌, none, some,
}
use tpe_arqui.ProdCons.{producer, consumer, leaving, Shop, set_phase, signal_cond, produce, consume}

-- The numbers in the buffer, the last one first.
abbrev pub contents : (ℕ → ℤ) → ℕ → List ℤ
contents buffer zero = []
contents buffer (suc n) = buffer n ∷ contents buffer n

contents-above :
    (buffer : ℕ → ℤ) (n i : ℕ) (v : ℤ)
    → n ≤ i
    → contents (λ a. if i == a then v else buffer a) n ≡ contents buffer n
contents-above buffer zero i v l = refl
contents-above buffer (suc n) i v l =
    let rest = contents-above buffer n i v (omega (arith, l)) in ground (arith, l, rest)

pub pushed :
    (buffer : ℕ → ℤ) (i : ℕ) (v : ℤ)
    → contents (λ a. if i == a then v else buffer a) (i + 1) ≡ v ∷ contents buffer i
pushed buffer i v =
    let next : i + 1 ≡ suc i = omega arith in
    let here : (if i == i then v else buffer i) ≡ v = ground arith in
    ap (contents (λ a. if i == a then v else buffer a)) next
    ∙ ap (λ x. x ∷ contents (λ a. if i == a then v else buffer a) i) here
    ∙ ap (λ xs. v ∷ xs) (contents-above buffer i i v (omega arith))

pub popped :
    (buffer : ℕ → ℤ) (i : ℕ)
    → (i == 0) ≡ false
    → contents buffer i ≡ buffer (i - 1) ∷ contents buffer (i - 1)
popped buffer zero e = absurd (ground (arith, e))
popped buffer (suc n) e =
    let back : n ≡ suc n - 1 = omega arith in ap (λ m. buffer m ∷ contents buffer m) back

pub produce_full :
    (v : ℤ) (s : Shop)
    → (s.index == s.buffer_size) ≡ true
    → produce v s ≡ (false, set_phase s producer leaving)
unfolding produce
produce_full v s e = rw (produce, e) refl

pub produce_room :
    (v : ℤ) (s : Shop)
    → (s.index == s.buffer_size) ≡ false
    → produce v s ≡ (
      true,
      signal_cond
          (record s { buffer = λ a. if s.index == a then v else s.buffer a; index = s.index + 1 }),
    )
unfolding produce
produce_room v s e = rw (produce, e) refl

pub consume_empty :
    (s : Shop) → (s.index == 0) ≡ true → consume s ≡ (none, set_phase s consumer leaving)
unfolding consume
consume_empty s e = rw (consume, e) refl

pub consume_full :
    (s : Shop)
    → (s.index == 0) ≡ false
    → consume s ≡ (some (s.buffer (s.index - 1)), signal_cond (record s { index = s.index - 1 }))
unfolding consume
consume_full s e = rw (consume, e) refl
