-- ===== src/User/Commands/Table.antt =====
-- `execute` of nanOS/Userland/SampleCodeModule/commands.c finds a command by its name.
use tpe_arqui.Prelude.{
  ℕ, zero, suc, ◌+◌, ◌≡◌, ◌≢◌, refl, sym, ap, subst, ◌∙◌, arith, Bool, true, false, not, ◌&&◌,
  Option, none, some, List, [], ◌∷◌, get_elem?, Bool-cases, inl, inr,
}
use tpe_arqui.Mutex.{same_name}
use tpe_arqui.Mutex.Keys.{same_name_iff}
use tpe_arqui.User.Commands.{commands, Started, execute_from, execute, validity_of}

abbrev absent : List ℕ → List (List ℕ) → Bool
absent name [] = true
absent name (n ∷ names) = not (same_name name n) && absent name names

-- No name is there twice.
abbrev distinct : List (List ℕ) → Bool
distinct [] = true
distinct (n ∷ names) = absent n names && distinct names

-- What the search for `name` from the command `i` on has started.
abbrev pub Starts : List (List ℕ) → ℕ → List ℕ → List ℕ → Bool → List Started → Type 0
Starts names i name args foreground [] = (j : ℕ) → get_elem? names j ≢ some name
Starts names i name args foreground (s ∷ []) =
    (j : ℕ) × (s.command ≡ i + j)
    × (get_elem? names j ≡ some name)
    × (s.args ≡ args)
    × (s.foreground ≡ foreground)
Starts names i name args foreground (_ ∷ _ ∷ _) = ⊥

execute_from-absent :
    (names : List (List ℕ)) (i : ℕ) (name args : List ℕ) (foreground : Bool)
    → absent name names ≡ true
    → execute_from names i name args foreground ≡ []
unfolding execute_from
execute_from-absent [] i name args foreground a = refl
execute_from-absent (n ∷ names) i name args foreground a =
    let rest = execute_from-absent names (i + 1) name args foreground in ground (arith, a, rest)

-- The name in an `Option`.
abbrev name_or : Option (List ℕ) → List ℕ
name_or none = []
name_or (some n) = n

not_there :
    (n : List ℕ) (names : List (List ℕ)) (name : List ℕ)
    → n ≢ name
    → ((j : ℕ) → get_elem? names j ≢ some name)
    → (j : ℕ) → get_elem? (n ∷ names) j ≢ some name
not_there n names name d h zero = λ e. d (ap name_or e)
not_there n names name d h (suc j) = h j

none_there : (name : List ℕ) (j : ℕ) → get_elem? {A = List ℕ} [] j ≢ some name
none_there name j = λ e. absurd cc

Starts-later :
    (n : List ℕ) (names : List (List ℕ)) (i : ℕ) (name args : List ℕ) (foreground : Bool)
    (started : List Started)
    → n ≢ name
    → Starts names (i + 1) name args foreground started
    → Starts (n ∷ names) i name args foreground started
Starts-later n names i name args foreground [] d h = λ j. not_there n names name d h j
Starts-later n names i name args foreground (s ∷ []) d (j, at, here, a, f) =
    (suc j, at ∙ omega arith, here, a, f)
Starts-later n names i name args foreground (s ∷ t ∷ rest) d h = h

starts_nothing :
    (i : ℕ) (name args : List ℕ) (foreground : Bool) → execute_from [] i name args foreground ≡ []
unfolding execute_from
starts_nothing i name args foreground = refl

starts_found :
    (n : List ℕ) (names : List (List ℕ)) (i : ℕ) (name args : List ℕ) (foreground : Bool)
    → name ≡ n
    → same_name name n ≡ true
    → distinct (n ∷ names) ≡ true
    → execute_from (n ∷ names) i name args foreground
      ≡ record { command = i; args = args; foreground = foreground } ∷ []
unfolding execute_from
starts_found n names i name args foreground q e d =
    let gone : absent name names ≡ true = ap (λ m. absent m names) q ∙ ground (arith, d) in
    let rest = execute_from-absent names (i + 1) name args foreground gone in
    rw (execute_from, e, rest) refl

starts_later :
    (n : List ℕ) (names : List (List ℕ)) (i : ℕ) (name args : List ℕ) (foreground : Bool)
    → same_name name n ≡ false
    → execute_from (n ∷ names) i name args foreground
      ≡ execute_from names (i + 1) name args foreground
unfolding execute_from
starts_later n names i name args foreground e = rw (execute_from, e) refl

commands_distinct : distinct commands ≡ true
unfolding same_name
commands_distinct = refl

execute_from-Starts :
    (names : List (List ℕ)) (i : ℕ) (name args : List ℕ) (foreground : Bool)
    → distinct names ≡ true
    → Starts names i name args foreground (execute_from names i name args foreground)
execute_from-Starts [] i name args foreground d =
    subst (Starts [] i name args foreground) (sym (starts_nothing i name args foreground))
      (none_there name)
execute_from-Starts (n ∷ names) i name args foreground d = elim (Bool-cases (same_name name n)) [
  | inl e ↦
      let same : name ≡ n = (same_name_iff name n).0 e in
      subst (Starts (n ∷ names) i name args foreground)
        (sym (starts_found n names i name args foreground same e d))
        (0, omega arith, ap some (sym same), refl, refl)
  | inr e ↦
      let differ : n ≢ name = λ q. absurd (cc (e, (same_name_iff name n).1 (sym q))) in
      subst (Starts (n ∷ names) i name args foreground)
        (sym (starts_later n names i name args foreground e))
        (Starts-later n names i name args foreground _ differ
          (execute_from-Starts names (i + 1) name args foreground (ground (arith, d))))
]

-- A name of the table starts its command, once, with the arguments it is given, and `execute` returns
-- `VALID`; any other name starts nothing, and `execute` returns `UNSUPPORTED`.
pub execute_lem :
    (name args : List ℕ) (foreground : Bool)
    → let (v, started) = execute name args foreground in
      Starts commands 0 name args foreground started × (v ≡ validity_of started)
unfolding execute
execute_lem name args foreground =
    (execute_from-Starts commands 0 name args foreground commands_distinct, refl)
