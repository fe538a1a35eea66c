-- ===== src/User/Shell/Arguments.antt =====
-- `build_arguments` of nanOS/Userland/SampleCodeModule/executer.c, and the name and the arguments of
-- a command in shell.c.
use tpe_arqui.Prelude.{
  ℕ, ◌+◌, ◌≤◌, ◌<◌, ◌≡◌, ◌≢◌, refl, sym, ap, ◌∙◌, arith, ltb, ◌==◌, Bool, true, false,
  if◌then◌else◌, Option, none, some, List, [], ◌∷◌, ◌++◌, length, tally, tally-append,
}
use mathlib.Core.List.{append_assoc, append-nil}
use tpe_arqui.User.Shell.{split_arguments, build_arguments, max_args}

-- The words with one blank between them.
abbrev pub unwords : List (List ℕ) → List ℕ
unwords [] = []
unwords (w ∷ []) = w
unwords (w ∷ v ∷ ws) = w ++ 32 ∷ unwords (v ∷ ws)

-- No word has a blank in it.
abbrev pub NoBlanks : List (List ℕ) → Type 0
NoBlanks [] = Unit {0}
NoBlanks (w ∷ ws) = (tally 32 w ≡ 0) × NoBlanks ws

-- What `split_arguments` makes of `arg` behind the word `word`.
pub record Split (word arg : List ℕ) (words : List (List ℕ)) : Type 0 where
  pub joined : unwords words ≡ word ++ arg
  pub no_blanks : NoBlanks words
  pub count : length words ≡ 1 + tally 32 arg

unwords-cons :
    (w : List ℕ) (ws : List (List ℕ)) → 0 < length ws → unwords (w ∷ ws) ≡ w ++ 32 ∷ unwords ws
unwords-cons w [] l = absurd (omega arith)
unwords-cons w (v ∷ ws) l = refl

Split-blank :
    (word arg : List ℕ) (c : ℕ) (words : List (List ℕ))
    → tally 32 word ≡ 0
    → c ≡ 32
    → Split [] arg words
    → Split word (c ∷ arg) (word ∷ words)
Split-blank word arg c words b e s = record {
  joined =
      unwords-cons word words (omega (arith, s.count))
      ∙ ap (λ r. word ++ 32 ∷ r) s.joined
      ∙ ap (λ d. word ++ d ∷ arg) (sym e);
  no_blanks = (b, s.no_blanks);
  count = ground (arith, s.count, e);
}

Split-letter :
    (word arg : List ℕ) (c : ℕ) (words : List (List ℕ))
    → c ≢ 32
    → Split (word ++ c ∷ []) arg words
    → Split word (c ∷ arg) words
Split-letter word arg c words n s = record {
  joined = s.joined ∙ append_assoc word (c ∷ []) arg;
  no_blanks = s.no_blanks;
  count = ground (arith, s.count, n);
}

Split-either :
    (word arg : List ℕ) (b : Bool) (first second : List (List ℕ))
    → (b ≡ true → Split word arg first)
    → (b ≡ false → Split word arg second)
    → Split word arg (if b then first else second)
Split-either word arg true first second f g = f refl
Split-either word arg false first second f g = g refl

split_arguments-Split :
    (word arg : List ℕ) → tally 32 word ≡ 0 → Split word arg (split_arguments word arg)
unfolding split_arguments
split_arguments-Split word [] b = record {
  joined = sym (append-nil word);
  no_blanks = (b, tt);
  count = refl;
}
split_arguments-Split word (c ∷ arg) b =
    Split-either word (c ∷ arg) (c == 32) _ _
      (λ e. Split-blank word arg c _ b (ground (arith, e)) (split_arguments-Split [] arg refl))
      (λ e. Split-letter word arg c _ (ground (arith, e)) (
        split_arguments-Split (word ++ c ∷ []) arg
          (let longer = tally-append 32 word (c ∷ []) in ground (arith, longer, b, e))))

-- What `build_arguments` has made of an argument string.
abbrev pub Builds : List ℕ → Option (List (List ℕ)) → Type 0
Builds arg none = max_args ≤ tally 32 arg + 2
Builds arg (some words) = (unwords words ≡ arg) × NoBlanks words × (length words + 1 < max_args)

built :
    (arg : List ℕ) (words : List (List ℕ)) (b : Bool)
    → Split [] arg words
    → ltb (length words + 1) max_args ≡ b
    → Builds arg (if b then some words else none)
built arg words true s e = (s.joined, s.no_blanks, ground (arith, e))
built arg words false s e = ground (arith, e, s.count)

-- `build_arguments` takes the string apart at its blanks: the words, none with a blank in it, joined
-- by single blanks are the string again. Where there are 30 blanks or more, the pointers run over
-- into the strings.
pub build_arguments_lem : (arg : List ℕ) → Builds arg (build_arguments arg)
unfolding build_arguments
build_arguments_lem [] = (refl, tt, omega arith)
build_arguments_lem (c ∷ arg) =
    built (c ∷ arg) (split_arguments [] (c ∷ arg)) _ (split_arguments-Split [] (c ∷ arg) refl) refl
