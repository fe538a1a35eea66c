-- ===== src/User/Shell/Line.antt =====
-- The line that `readline_no_spaces` of nanOS/Userland/SampleCodeModule/stdio.c leaves.
pub mod Compact
use tpe_arqui.Prelude.{
  ℕ, suc, ◌+◌, ◌-◌, ◌^◌, ◌≤◌, ◌<◌, ◌≡◌, refl, sym, subst, ◌∙◌, arith, ltb, Bool, true, false, ◌&&◌,
  if◌then◌else◌, pos, List, [], ◌∷◌, ◌++◌, length, length-append, length-take_le, take,
}
use tpe_arqui.Libc.Ctype.{isspace}
use tpe_arqui.User.Shell.Line.Compact.{compact, Trims, squeeze-compact, trim-Trims, trimmed_same}
use tpe_arqui.User.Shell.{free_places, squeeze, last_or, readline_no_spaces}

-- No white space follows white space, or the front, where `space` is what stands before.
abbrev pub tidy : Bool → List ℕ → Bool
tidy space [] = true
tidy space (c ∷ str) =
    let s = isspace (pos c) in let rest = tidy s str in if space && s then false else rest

-- Whether white space stands last, or before the front of nothing.
abbrev pub ends_in_space : Bool → List ℕ → Bool
ends_in_space space [] = space
ends_in_space space (c ∷ str) = ends_in_space (isspace (pos c)) str

tidy-append :
    (space : Bool) (str : List ℕ) (c : ℕ)
    → tidy space str ≡ true
    → ends_in_space space str && isspace (pos c) ≡ false
    → tidy space (str ++ c ∷ []) ≡ true
tidy-append space [] c t e = ground (arith, e)
tidy-append space (d ∷ str) c t e =
    let rest = tidy-append (isspace (pos d)) str c in ground (arith, rest, t, e)

ends_in_space-append :
    (space : Bool) (str : List ℕ) (c : ℕ) → ends_in_space space (str ++ c ∷ []) ≡ isspace (pos c)
ends_in_space-append space [] c = refl
ends_in_space-append space (d ∷ str) c = ends_in_space-append (isspace (pos d)) str c

-- What holds of the loop's `str` and `state`.
abbrev pub Tidy : List ℕ → ℕ → Type 0
Tidy str maxlen = (tidy true str ≡ true) × (length str ≤ free_places maxlen)

-- What one character adds.
abbrev added : List ℕ → Bool → ℕ → List ℕ
added str space c = if space && isspace (pos c) then str else str ++ c ∷ []

added-Tidy :
    (maxlen : ℕ) (str : List ℕ) (space : Bool) (c : ℕ)
    → Tidy str maxlen
    → ends_in_space true str ≡ space
    → length str < free_places maxlen
    → Tidy (added str space c) maxlen × (ends_in_space true (added str space c) ≡ isspace (pos c))
added-Tidy maxlen str space c t e l =
    let tidied = tidy-append true str c t.0 in
    let longer = length-append str (c ∷ []) in
    let ended = ends_in_space-append true str c in ground (arith, t, e, l, tidied, longer, ended)

either-Tidy :
    (maxlen : ℕ) (b : Bool) (first second : List ℕ)
    → (b ≡ true → Tidy first maxlen)
    → Tidy second maxlen
    → Tidy (if b then first else second) maxlen
either-Tidy maxlen true first second f g = f refl
either-Tidy maxlen false first second f g = g

squeeze-Tidy :
    (maxlen : ℕ) (str : List ℕ) (space : Bool) (line : List ℕ)
    → Tidy str maxlen
    → ends_in_space true str ≡ space
    → Tidy (squeeze maxlen str space line) maxlen
unfolding squeeze
squeeze-Tidy maxlen str space [] t e = t
squeeze-Tidy maxlen str space (c ∷ line) t e =
    either-Tidy maxlen (ltb (length str) (free_places maxlen)) _ str
      (λ room.
        let next = added-Tidy maxlen str space c t e (ground (arith, room)) in
        squeeze-Tidy maxlen (added str space c) (isspace (pos c)) line next.0 next.1)
      t

-- Without its last character, which is white space.
trimmed-Tidy :
    (b : Bool) (c : ℕ) (str : List ℕ)
    → tidy b (c ∷ str) ≡ true
    → isspace (pos (last_or (c ∷ str) 0)) ≡ true
    → (tidy b (take (length str) (c ∷ str)) ≡ true)
      × (ends_in_space b (take (length str) (c ∷ str)) ≡ false)
trimmed-Tidy b c [] t e = (refl, ground (arith, t, e))
trimmed-Tidy b c (d ∷ str) t e =
    let rest = trimmed-Tidy (isspace (pos c)) d str in ground (arith, rest, t, e)

last-ends_in_space :
    (b : Bool) (c : ℕ) (str : List ℕ)
    → ends_in_space b (c ∷ str) ≡ isspace (pos (last_or (c ∷ str) 0))
last-ends_in_space b c [] = refl
last-ends_in_space b c (d ∷ str) = last-ends_in_space (isspace (pos c)) d str

trim-ends_in_space :
    (str : List ℕ) → ends_in_space true str ≡ false → ends_in_space false str ≡ false
trim-ends_in_space [] e = absurd (ground (arith, e))
trim-ends_in_space (c ∷ str) e = e

either_end :
    (b : Bool) (c : ℕ) (str : List ℕ)
    → isspace (pos (last_or (c ∷ str) 0)) ≡ b
    → tidy true (c ∷ str) ≡ true
    → let r = if b then take (length str) (c ∷ str) else c ∷ str in
      (tidy true r ≡ true) × (ends_in_space false r ≡ false) × (length r ≤ suc (length str))
either_end true c str e t =
    let trimmed = trimmed-Tidy true c str t e in
    (
      trimmed.0,
      trim-ends_in_space (take (length str) (c ∷ str)) trimmed.1,
      omega (arith, length-take_le (length str) (c ∷ str) (omega arith)),
    )
either_end false c str e t = (t, last-ends_in_space false c str ∙ e, omega arith)

trim-Tidy :
    (str : List ℕ)
    → tidy true str ≡ true
    → let r =
        if ltb 0 (length str) && isspace (pos (last_or str 0))
        then take (length str - 1) str
        else str in
      (tidy true r ≡ true) × (ends_in_space false r ≡ false) × (length r ≤ length str)
trim-Tidy [] t = (refl, refl, omega arith)
trim-Tidy (c ∷ str) t =
    let b = isspace (pos (last_or (c ∷ str) 0)) in
    subst
      (λ r. (tidy true r ≡ true) × (ends_in_space false r ≡ false) × (length r ≤ suc (length str)))
      (sym (trimmed_same b c str)) (either_end b c str refl t)

-- `readline_no_spaces` with at least one place, for the 0, keeps of the line that is typed the
-- characters that are not white space at the front or behind white space, the first `maxlen - 1` of
-- them, and of these all but a last one that is white space. So no white space stands at the front or
-- at the end of what it leaves and none behind other white space, and it has at most `maxlen - 1`
-- characters.
pub readline_no_spaces_lem :
    (line : List ℕ) (maxlen : ℕ)
    → 0 < maxlen
    → maxlen < 2 ^ 32
    → let r = readline_no_spaces line maxlen in
      Trims (take (maxlen - 1) (compact true line)) r
      × (tidy true r ≡ true)
      × (ends_in_space false r ≡ false)
      × (length r ≤ maxlen - 1)
unfolding readline_no_spaces
readline_no_spaces_lem line maxlen positive small =
    let places : maxlen - 1 ≡ free_places maxlen = omega (arith, positive, small) in
    let str = squeeze maxlen [] true line in
    let kept = squeeze-compact maxlen [] true line (maxlen - 1) (omega (arith, places)) in
    let before = squeeze-Tidy maxlen [] true line (refl, omega arith) refl in
    let after = trim-Tidy str before.0 in
    (
      subst (λ t. Trims t (readline_no_spaces line maxlen)) kept (trim-Trims str),
      after.0,
      after.1,
      omega (arith, before.1, after.2, places),
    )
