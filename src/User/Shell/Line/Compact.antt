-- ===== src/User/Shell/Line/Compact.antt =====
-- What `readline_no_spaces` of nanOS/Userland/SampleCodeModule/stdio.c keeps of the line.
use tpe_arqui.Prelude.{
  ℕ, zero, suc, ◌+◌, ◌-◌, ◌≡◌, ◌⊎◌, inl, inr, refl, sym, ap, subst, ◌∙◌, arith, ltb, Bool, true,
  false, ◌&&◌, Bool-cases, if◌then◌else◌, pos, List, [], ◌∷◌, ◌++◌, length, length-append, take,
}
use mathlib.Core.List.{append_assoc, append-nil}
use tpe_arqui.Libc.Ctype.{isspace}
use tpe_arqui.User.Shell.{free_places, squeeze, last_or}

-- What is typed, without the white space at its front and the white space behind white space, where
-- `space` is what stands before.
abbrev pub compact : Bool → List ℕ → List ℕ
compact space [] = []
compact space (c ∷ line) =
    let s = isspace (pos c) in let rest = compact s line in if space && s then rest else c ∷ rest

squeeze_stops :
    (maxlen : ℕ) (str : List ℕ) (space : Bool) (c : ℕ) (line : List ℕ)
    → ltb (length str) (free_places maxlen) ≡ false
    → squeeze maxlen str space (c ∷ line) ≡ str
unfolding squeeze
squeeze_stops maxlen str space c line e = rw e refl

squeeze_skips :
    (maxlen : ℕ) (str : List ℕ) (space : Bool) (c : ℕ) (line : List ℕ)
    → ltb (length str) (free_places maxlen) ≡ true
    → space && isspace (pos c) ≡ true
    → squeeze maxlen str space (c ∷ line) ≡ squeeze maxlen str (isspace (pos c)) line
unfolding squeeze
squeeze_skips maxlen str space c line e b = rw (e, b) refl

squeeze_adds :
    (maxlen : ℕ) (str : List ℕ) (space : Bool) (c : ℕ) (line : List ℕ)
    → ltb (length str) (free_places maxlen) ≡ true
    → space && isspace (pos c) ≡ false
    → squeeze maxlen str space (c ∷ line) ≡ squeeze maxlen (str ++ c ∷ []) (isspace (pos c)) line
unfolding squeeze
squeeze_adds maxlen str space c line e b = rw (e, b) refl

compact_skips :
    (space : Bool) (c : ℕ) (line : List ℕ)
    → space && isspace (pos c) ≡ true
    → compact space (c ∷ line) ≡ compact (isspace (pos c)) line
compact_skips space c line b = rw b refl

compact_adds :
    (space : Bool) (c : ℕ) (line : List ℕ)
    → space && isspace (pos c) ≡ false
    → compact space (c ∷ line) ≡ c ∷ compact (isspace (pos c)) line
compact_adds space c line b = rw b refl

-- With `n` places left, the loop adds the first `n` of what is to be kept.
pub squeeze-compact :
    (maxlen : ℕ) (str : List ℕ) (space : Bool) (line : List ℕ) (n : ℕ)
    → length str + n ≡ free_places maxlen
    → squeeze maxlen str space line ≡ str ++ take n (compact space line)
unfolding squeeze
squeeze-compact maxlen str space [] zero e = sym (append-nil str)
squeeze-compact maxlen str space [] (suc n) e = sym (append-nil str)
squeeze-compact maxlen str space (c ∷ line) zero e =
    squeeze_stops maxlen str space c line (ground (arith, e)) ∙ sym (append-nil str)
squeeze-compact maxlen str space (c ∷ line) (suc n) e =
    let room : ltb (length str) (free_places maxlen) ≡ true = ground (arith, e) in
    elim (Bool-cases (space && isspace (pos c))) [
      | inl b ↦
          squeeze_skips maxlen str space c line room b
          ∙ squeeze-compact maxlen str (isspace (pos c)) line (suc n) e
          ∙ ap (λ r. str ++ take (suc n) r) (sym (compact_skips space c line b))
      | inr b ↦
          let longer = length-append str (c ∷ []) in
          squeeze_adds maxlen str space c line room b
          ∙ squeeze-compact maxlen (str ++ c ∷ []) (isspace (pos c)) line n
              (omega (arith, e, longer))
          ∙ append_assoc str (c ∷ []) (take n (compact (isspace (pos c)) line))
          ∙ ap (λ r. str ++ take (suc n) r) (sym (compact_adds space c line b))
    ]

pub trimmed_same :
    (b : Bool) (c : ℕ) (str : List ℕ)
    → (if ltb 0 (length (c ∷ str)) && b then take (length (c ∷ str) - 1) (c ∷ str) else c ∷ str)
      ≡ (if b then take (length str) (c ∷ str) else c ∷ str)
trimmed_same b c str = ground arith

-- At most one character goes, and it is white space.
abbrev pub Trims : List ℕ → List ℕ → Type 0
Trims str r = (str ≡ r) ⊎ ((c : ℕ) × (isspace (pos c) ≡ true) × (str ≡ r ++ c ∷ []))

split_last :
    (c : ℕ) (str : List ℕ) → c ∷ str ≡ take (length str) (c ∷ str) ++ last_or (c ∷ str) 0 ∷ []
split_last c [] = refl
split_last c (d ∷ str) = ap (λ r. c ∷ r) (split_last d str)

cut_last :
    (b : Bool) (c : ℕ) (str : List ℕ)
    → isspace (pos (last_or (c ∷ str) 0)) ≡ b
    → Trims (c ∷ str) (if b then take (length str) (c ∷ str) else c ∷ str)
cut_last true c str e = inr (last_or (c ∷ str) 0, e, split_last c str)
cut_last false c str e = inl refl

pub trim-Trims :
    (str : List ℕ)
    → Trims str (
        if ltb 0 (length str) && isspace (pos (last_or str 0))
        then take (length str - 1) str
        else str)
trim-Trims [] = inl refl
trim-Trims (c ∷ str) =
    let b = isspace (pos (last_or (c ∷ str) 0)) in
    subst (Trims (c ∷ str)) (sym (trimmed_same b c str)) (cut_last b c str refl)
