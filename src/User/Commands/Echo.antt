-- ===== src/User/Commands/Echo.antt =====
-- `echo` of nanOS/Userland/SampleCodeModule/commands.c, with the arguments that `build_arguments` of
-- executer.c makes.
use tpe_arqui.Prelude.{
  ℕ, ◌+◌, ◌≤◌, ◌≡◌, refl, sym, ap, ◌∙◌, Option, none, some, List, [], ◌∷◌, ◌++◌, tally,
}
use mathlib.Core.List.{append_assoc}
use tpe_arqui.User.Commands.{echo}
use tpe_arqui.User.Shell.{build_arguments, max_args}
use tpe_arqui.User.Shell.Arguments.{unwords, Builds, build_arguments_lem}

echo-unwords : (w : List ℕ) (ws : List (List ℕ)) → echo (w ∷ ws) ≡ unwords (w ∷ ws) ++ 32 ∷ 10 ∷ []
unfolding echo
echo-unwords w [] = refl
echo-unwords w (v ∷ ws) =
    ap (λ r. w ++ 32 ∷ r) (echo-unwords v ws)
    ∙ sym (append_assoc w (32 ∷ unwords (v ∷ ws)) (32 ∷ 10 ∷ []))

-- What `echo` puts out for the argument string of the shell.
abbrev pub Echoes : List ℕ → Option (List (List ℕ)) → Type 0
Echoes arg none = max_args ≤ tally 32 arg + 2
Echoes arg (some []) = arg ≡ []
Echoes arg (some (w ∷ ws)) = echo (w ∷ ws) ≡ arg ++ 32 ∷ 10 ∷ []

built-Echoes : (arg : List ℕ) (words : Option (List (List ℕ))) → Builds arg words → Echoes arg words
built-Echoes arg none b = b
built-Echoes arg (some []) (joined, _, _) = sym joined
built-Echoes arg (some (w ∷ ws)) (joined, _, _) =
    echo-unwords w ws ∙ ap (λ s. s ++ 32 ∷ 10 ∷ []) joined

-- The shell's `echo` puts out its argument string, a blank and a newline, if there is an argument and
-- there are fewer than 30 blanks.
pub echo-build_arguments : (arg : List ℕ) → Echoes arg (build_arguments arg)
echo-build_arguments arg = built-Echoes arg (build_arguments arg) (build_arguments_lem arg)
