-- ===== src/Syscalls/Keys.antt =====
-- What `sys_read` of nanOS/Kernel/systemCalls.c reads from the keyboard, up to the point where it waits.
use tpe_arqui.Prelude.{
  ℕ, zero, suc, ◌+◌, ◌-◌, ◌≤◌, ◌<◌, ◌≡◌, refl, sym, ap, ap₂, subst, ◌∙◌, arith, Bool, true, false,
  ◌==◌, if◌then◌else◌, Bool-cases, inl, inr, ℤ, pos, negsuc, List, [], ◌∷◌,
}
use Prim.Native.Nat.{min}
use tpe_arqui.Keyboard.{Keyboard, choose_keyboard, get_char}
use tpe_arqui.Keyboard.Laws.{IsRing, key, Taken, get_char_lem}

abbrev pub is_minus_1 : ℤ → Bool
is_minus_1 (pos n) = false
is_minus_1 (negsuc zero) = true
is_minus_1 (negsuc (suc n)) = false

-- The loop, with `n` bytes to read: the characters, and the bytes that are left to read where it blocks
-- the process.
unfoldable pub read_keys : ℕ → Keyboard → List ℤ × ℕ × Keyboard
read_keys zero s = ([], 0, s)
read_keys (suc n) s =
    let (c, t) = get_char s in
    let (chars, left, u) = read_keys n t in
    if is_minus_1 c then ([], suc n, t) else (c ∷ chars, left, u)

-- The characters of `k` keys that wait, from the `j`-th on.
abbrev pub typed : ℕ → Keyboard → ℕ → List ℤ
typed zero s j = []
typed (suc k) s j = choose_keyboard s (key s j) ∷ typed k s (j + 1)

empty_char : (s : Keyboard) → (s.buff_size == 0) ≡ true → get_char s ≡ (negsuc 0, s)
unfolding get_char
empty_char s e = rw (get_char, e) refl

same_chars : (s : Keyboard) (k : ℕ) → choose_keyboard (get_char s).1 k ≡ choose_keyboard s k
unfolding get_char choose_keyboard
same_chars s k = ground arith

stops :
    (n : ℕ) (s t : Keyboard) (c : ℤ)
    → get_char s ≡ (c, t)
    → is_minus_1 c ≡ true
    → read_keys (suc n) s ≡ ([], suc n, t)
unfolding read_keys
stops n s t c e m = rw (read_keys, e, m) refl

goes_on :
    (n : ℕ) (s : Keyboard)
    → is_minus_1 (get_char s).0 ≡ false
    → read_keys (suc n) s
      ≡ (let (chars, left, u) = read_keys n (get_char s).1 in ((get_char s).0 ∷ chars, left, u))
unfolding read_keys
goes_on n s m = rw (read_keys, m) refl

-- What a run of the loop has done that was to read `n` bytes.
pub record Read (s : Keyboard) (n : ℕ) (chars : List ℤ) (left : ℕ) (u : Keyboard) : Type 0 where
  pub ring : IsRing u
  pub got : chars ≡ typed (min n s.buff_size) s 0
  pub wanted : left ≡ n - min n s.buff_size
  pub waiting : u.buff_size ≡ s.buff_size - min n s.buff_size

typed-later :
    (s t : Keyboard) (k j : ℕ)
    → ((i : ℕ) → i < t.buff_size → key t i ≡ key s (i + 1))
    → ((i : ℕ) → choose_keyboard t i ≡ choose_keyboard s i)
    → j + k ≤ t.buff_size
    → typed k t j ≡ typed k s (j + 1)
typed-later s t zero j later chars l = refl
typed-later s t (suc k) j later chars l =
    ap₂ (λ c cs. c ∷ cs) (chars (key t j) ∙ ap (choose_keyboard s) (later j (omega (arith, l))))
      (typed-later s t k (j + 1) later chars (omega (arith, l)))

-- Every key that waits has a character.
abbrev pub HasChars : Keyboard → Type 0
HasChars s = (j : ℕ) → j < s.buff_size → is_minus_1 (choose_keyboard s (key s j)) ≡ false

HasChars-later :
    (s t : Keyboard)
    → t.buff_size + 1 ≡ s.buff_size
    → ((i : ℕ) → i < t.buff_size → key t i ≡ key s (i + 1))
    → ((i : ℕ) → choose_keyboard t i ≡ choose_keyboard s i)
    → HasChars s
    → HasChars t
HasChars-later s t size later chars h = λ j l.
    ap is_minus_1 (chars (key t j) ∙ ap (choose_keyboard s) (later j l))
    ∙ h (j + 1) (omega (arith, l, size))

abbrev Reads : Keyboard → ℕ → List ℤ × ℕ × Keyboard → Type 0
Reads s n (chars, left, u) = Read s n chars left u

Read-next :
    (s t : Keyboard) (n : ℕ) (c : ℤ) (chars : List ℤ) (left : ℕ) (u : Keyboard)
    → Taken s c t
    → ((i : ℕ) → choose_keyboard t i ≡ choose_keyboard s i)
    → Read t n chars left u
    → Read s (suc n) (c ∷ chars) left u
Read-next s t n c chars left u taken same r =
    let size = taken.size in
    let fewer : min (suc n) s.buff_size ≡ suc (min n t.buff_size) = omega (arith, size) in
    record {
      ring = r.ring;
      got =
          ap₂ (λ d ds. d ∷ ds) (taken.char ∙ same (key s 0))
            (r.got ∙ typed-later s t (min n t.buff_size) 0 taken.left same (omega arith))
          ∙ sym (ap (λ k. typed k s 0) fewer);
      wanted = r.wanted ∙ omega (arith, fewer);
      waiting = r.waiting ∙ omega (arith, fewer, size);
    }

read_nothing : (s : Keyboard) → read_keys 0 s ≡ ([], 0, s)
unfolding read_keys
read_nothing s = refl

none_held :
    (s : Keyboard) (n : ℕ) → IsRing s → (s.buff_size == 0) ≡ true → Read s (suc n) [] (suc n) s
none_held s n v e =
    let empty : s.buff_size ≡ 0 = ground (arith, e) in
    let none_read : min (suc n) s.buff_size ≡ 0 = omega (arith, empty) in
    record {
      ring = v;
      got = sym (ap (λ k. typed k s 0) none_read);
      wanted = omega (arith, empty);
      waiting = omega (arith, empty);
    }

-- While every key that waits has a character, the loop of `sys_read` for `n` bytes reads the characters
-- of the oldest keys, in order, as many as are asked for and wait, takes those keys from the ring, and
-- waits only if fewer keys waited than it was to read.
pub read_keys_lem :
    (n : ℕ) (s : Keyboard)
    → IsRing s
    → HasChars s
    → let (chars, left, u) = read_keys n s in Read s n chars left u
read_keys_lem zero s v h =
    let none_wanted : min 0 s.buff_size ≡ 0 = omega arith in
    subst (Reads s 0) (sym (read_nothing s)) (record {
      ring = v;
      got = sym (ap (λ k. typed k s 0) none_wanted);
      wanted = omega arith;
      waiting = omega arith;
    })
read_keys_lem (suc n) s v h = elim (Bool-cases (s.buff_size == 0)) [
  | inl e ↦
      subst (Reads s (suc n)) (sym (stops n s s (negsuc 0) (empty_char s e) refl))
        (none_held s n v e)
  | inr e ↦
      let held : 0 < s.buff_size = ground (arith, e) in
      let taken = get_char_lem s v held in
      let t = (get_char s).1 in
      let same : (i : ℕ) → choose_keyboard t i ≡ choose_keyboard s i = λ i. same_chars s i in
      let char : is_minus_1 (get_char s).0 ≡ false =
        ap is_minus_1 (taken.char ∙ same (key s 0)) ∙ h 0 held in
      let rest = read_keys_lem n t taken.ring (HasChars-later s t taken.size taken.left same h) in
      subst (Reads s (suc n)) (sym (goes_on n s char))
        (Read-next s t n (get_char s).0 _ _ _ taken same rest)
]
