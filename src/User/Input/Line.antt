-- ===== src/User/Input/Line.antt =====
-- What `fill_buffer` of nanOS/Userland/SampleCodeModule/stdio.c makes of the keys typed on a line.
use tpe_arqui.Prelude.{
  ℕ, suc, ◌+◌, ◌-◌, ◌≤◌, ◌<◌, ◌≡◌, ◌≢◌, refl, sym, ap, subst, ◌∙◌, arith, ltb, ◌==◌, Bool, true,
  false, not, ◌&&◌, if◌then◌else◌, Option, none, some, List, [], ◌∷◌, ◌++◌, length, tally,
}
use tpe_arqui.User.Input.{buffer_size, Stdin, shows, take_key, fill_from, fill_buffer}

-- What the keys leave of a line, its last character first: a key that is no Backspace is added, a
-- Backspace takes the last one away.
abbrev pub edited : List ℕ → List ℕ → List ℕ
edited line [] = line
edited [] (c ∷ keys) = edited (if c == 8 then [] else c ∷ []) keys
edited (d ∷ line) (c ∷ keys) = edited (if c == 8 then line else c ∷ d ∷ line) keys

-- One key of it.
abbrev after_key : List ℕ → ℕ → List ℕ
after_key [] c = if c == 8 then [] else c ∷ []
after_key (d ∷ line) c = if c == 8 then line else c ∷ d ∷ line

edited-cons :
    (line : List ℕ) (c : ℕ) (keys : List ℕ)
    → edited line (c ∷ keys) ≡ edited (after_key line c) keys
edited-cons [] c keys = refl
edited-cons (d ∷ line) c keys = refl

-- The buffer's first characters are the line's, the last one first.
abbrev pub Shows : (ℕ → ℕ) → List ℕ → Type 0
Shows buffer [] = Unit {0}
Shows buffer (c ∷ line) = (buffer (length line) ≡ c) × Shows buffer line

Shows-beyond :
    (buffer : ℕ → ℕ) (line : List ℕ) (i c : ℕ)
    → length line ≤ i
    → Shows buffer line
    → Shows (λ a. if i == a then c else buffer a) line
Shows-beyond buffer [] i c l h = tt
Shows-beyond buffer (d ∷ line) i c l (e, h) =
    (ground (arith, l, e), Shows-beyond buffer line i c (omega (arith, l)) h)

Shows-next :
    (buffer : ℕ → ℕ) (line : List ℕ) (c : ℕ)
    → Shows buffer line
    → Shows (λ a. if length line == a then c else buffer a) (c ∷ line)
Shows-next buffer line c h =
    (ground arith, Shows-beyond buffer line (length line) c (omega arith) h)

-- What one key leaves: the index and the buffer of the line.
abbrev Taken : List ℕ → ℕ × Stdin → Type 0
Taken line (j, t) = (j ≡ length line) × Shows t.buffer line

take_key_letter :
    (s : Stdin) (i c : ℕ)
    → (c == 8) ≡ false
    → take_key s i c
      ≡ (i + 1, shows (record s { buffer = λ a. if i == a then c else s.buffer a }) c)
unfolding take_key
take_key_letter s i c e = ground (arith, e)

take_key_backspace :
    (s : Stdin) (i c : ℕ)
    → (c == 8) ≡ true
    → ((take_key s i c).0 ≡ i - 1) × ((take_key s i c).1.buffer ≡ s.buffer)
unfolding take_key
take_key_backspace s i c e = ground (arith, e)

after_key_letter : (line : List ℕ) (c : ℕ) → (c == 8) ≡ false → after_key line c ≡ c ∷ line
after_key_letter [] c e = ap (λ b. if b then [] else c ∷ []) e
after_key_letter (d ∷ line) c e = ap (λ b. if b then line else c ∷ d ∷ line) e

length-after_key : (line : List ℕ) (c : ℕ) → length (after_key line c) ≤ 1 + length line
length-after_key [] c = ground arith
length-after_key (d ∷ line) c = ground arith

take_key-Taken :
    (s : Stdin) (line : List ℕ) (c : ℕ) (b : Bool)
    → (c == 8) ≡ b
    → Shows s.buffer line
    → Taken (after_key line c) (take_key s (length line) c)
take_key-Taken s [] c true e h =
    let (j, same) = take_key_backspace s 0 c e in
    subst (λ b. Taken (if b then [] else c ∷ []) (take_key s 0 c)) (sym e) (omega (arith, j), tt)
take_key-Taken s (d ∷ line) c true e h =
    let (j, same) = take_key_backspace s (suc (length line)) c e in
    subst (λ b. Taken (if b then line else c ∷ d ∷ line) (take_key s (suc (length line)) c)) (sym e)
      (omega (arith, j), subst (λ b. Shows b line) (sym same) h.1)
take_key-Taken s line c false e h =
    subst (λ l. Taken l (take_key s (length line) c)) (sym (after_key_letter line c e))
      (subst (Taken (c ∷ line)) (sym (take_key_letter s (length line) c e))
        (omega arith, Shows-next s.buffer line c h))

-- The line that stands in the buffer and the keys that are left.
abbrev pub Filled : List ℕ → List ℕ → Option (ℕ × Stdin) → Type 0
Filled line rest none = ⊥
Filled line rest (some (j, t)) = (j ≡ length line) × Shows t.buffer line × (t.keys ≡ rest)

fill_from-stop :
    (keys : List ℕ) (s : Stdin) (i : ℕ)
    → fill_from (10 ∷ keys) s i
      ≡ some ((take_key s i 10).0, record (take_key s i 10).1 { keys = keys })
unfolding fill_from
fill_from-stop keys s i = refl

fill_from-go :
    (c : ℕ) (keys : List ℕ) (s : Stdin) (i : ℕ)
    → c ≢ 10
    → (take_key s i c).0 < buffer_size - 1
    → fill_from (c ∷ keys) s i
      ≡ fill_from keys (record (take_key s i c).1 { keys = keys }) (take_key s i c).0
unfolding fill_from
fill_from-go c keys s i n l =
    let b : not (c == 10) && ltb (take_key s i c).0 (buffer_size - 1) ≡ true =
      ground (arith, n, l) in
    rw (fill_from, b) refl

fill_from-Filled :
    (typed rest line : List ℕ) (s : Stdin)
    → tally 10 typed ≡ 0
    → length line + length typed < buffer_size - 1
    → Shows s.buffer line
    → Filled (10 ∷ edited line typed) rest (fill_from (typed ++ 10 ∷ rest) s (length line))
fill_from-Filled [] rest line s n l h =
    let (j, held) = take_key-Taken s line 10 false refl h in
    let letter = after_key_letter line 10 refl in
    subst (Filled (10 ∷ line) rest) (sym (fill_from-stop rest s (length line)))
      (j ∙ ap length letter, subst (Shows (take_key s (length line) 10).1.buffer) letter held, refl)
fill_from-Filled (c ∷ typed) rest line s n l h =
    let (j, held) = take_key-Taken s line c _ refl h in
    let shorter = length-after_key line c in
    let n1 : c ≢ 10 = ground (arith, n) in
    let n2 : tally 10 typed ≡ 0 = ground (arith, n) in
    let u : Stdin = record (take_key s (length line) c).1 { keys = typed ++ 10 ∷ rest } in
    let fewer : length (after_key line c) + length typed < buffer_size - 1 =
      omega (arith, l, shorter) in
    let room : (take_key s (length line) c).0 < buffer_size - 1 = omega (arith, j, fewer) in
    subst (λ l. Filled (10 ∷ l) rest (fill_from (c ∷ (typed ++ 10 ∷ rest)) s (length line)))
      (sym (edited-cons line c typed))
      (subst (Filled (10 ∷ edited (after_key line c) typed) rest)
        (sym (fill_from-go c (typed ++ 10 ∷ rest) s (length line) n1 room))
        (subst
          (λ i.
            Filled (10 ∷ edited (after_key line c) typed) rest (fill_from (typed ++ 10 ∷ rest) u i))
          (sym j) (fill_from-Filled typed rest (after_key line c) u n2 fewer held)))

-- The keys of a line, of which `typed` are before Enter and fewer than 1023, leave in the buffer what
-- they leave of the line, with Backspace taken into account, and the newline behind it; `fill_buffer`
-- stops there, and leaves the keys typed behind Enter for the next line.
pub fill_buffer_lem :
    (s : Stdin) (typed rest : List ℕ)
    → tally 10 typed ≡ 0
    → length typed < buffer_size - 1
    → s.keys ≡ typed ++ 10 ∷ rest
    → Filled (10 ∷ edited [] typed) rest (fill_buffer s)
unfolding fill_buffer
fill_buffer_lem s typed rest n l e =
    subst (λ keys. Filled (10 ∷ edited [] typed) rest (fill_from keys s 0)) (sym e)
      (fill_from-Filled typed rest [] s n (omega (arith, l)) tt)
