-- ===== src/User/Commands.antt =====
-- The commands of the shell: nanOS/Userland/SampleCodeModule/commands.c. A command is given by what
-- it reads of its arguments and by what it returns or calls; a missing argument that it reads is
-- `none`.
pub mod Table
pub mod Clock
pub mod Echo
use Prim.Native.Char.{code}
use Prim.Native.String.{String}
use tpe_arqui.Prelude.{
  ℕ, zero, suc, ◌+◌, ◌%◌, ltb, ◌==◌, Bool, not, if◌then◌else◌, ℤ, pos, negsuc, Option, none, some,
  List, [], ◌∷◌, ◌++◌, get_or, length,
}
use tpe_arqui.Libc.Copy.{Memory}
use tpe_arqui.Libc.Numbers.{atoi}
use tpe_arqui.Mutex.{same_name}
use tpe_arqui.User.Clock.{set_gmt}
use tpe_arqui.User.Format.{Output, int_arg, fprintformat}
use tpe_arqui.User.Shell.{isnum}

-- The bytes of a text.
abbrev pub codes : String → List ℕ
codes String.[] = []
codes (String.◌∷◌ c s) = code c ∷ codes s

pub data Validity : Type 0 where
  valid unsupported invalid_args : Validity

-- The names in `commands`.
abbrev pub commands : List (List ℕ)
commands =
    codes "help"
    ∷ codes "set_GMT"
    ∷ codes "fractals"
    ∷ codes "time"
    ∷ codes "clear"
    ∷ codes "echo"
    ∷ codes "char_color"
    ∷ codes "bg_color"
    ∷ codes "test"
    ∷ codes "philo"
    ∷ codes "philogui"
    ∷ codes "prodcon"
    ∷ codes "prodcon2"
    ∷ codes "write"
    ∷ codes "read"
    ∷ codes "test2"
    ∷ codes "kill"
    ∷ codes "print"
    ∷ codes "ps"
    ∷ codes "fg"
    ∷ codes "ipcs"
    ∷ codes "shell"
    ∷ []

-- A call of `execp` with the function of a command and the arguments, and of `set_foreground` with the
-- new process if it runs in the foreground.
pub record Started : Type 0 where
  pub command : ℕ
  pub args : List ℕ
  pub foreground : Bool

-- The loop of `execute`, from the command `i` on.
unfoldable pub execute_from : List (List ℕ) → ℕ → List ℕ → List ℕ → Bool → List Started
execute_from [] i name args foreground = []
execute_from (n ∷ names) i name args foreground =
    let rest = execute_from names (i + 1) name args foreground in
    if same_name name n
    then record { command = i; args = args; foreground = foreground } ∷ rest
    else rest

abbrev pub validity_of : List Started → Validity
validity_of [] = unsupported
validity_of (s ∷ rest) = valid

unfoldable pub execute : List ℕ → List ℕ → Bool → Validity × List Started
unfolding execute_from
execute name args foreground =
    let started = execute_from commands 0 name args foreground in (validity_of started, started)

-- `atoi` of an argument.
abbrev pub number_of : List ℕ → Option ℤ
number_of str = atoi (suc (suc (length str))) (λ a. get_or str a 0) 0

-- `set_GMT`: the new `GMT`. Then it shows the time.
unfoldable pub set_gmt_command : ℤ → List (List ℕ) → Option (Validity × ℤ)
unfolding set_gmt
set_gmt_command gmt (arg ∷ []) =
    if not (isnum arg) then some (invalid_args, gmt) else (elim (number_of arg) [
      | none ↦ none
      | some n ↦
          let (r, now) = set_gmt gmt n in some ((if r == 0 then invalid_args else valid), now)
    ])
set_gmt_command gmt _ = some (invalid_args, gmt)

-- The index of the fractal that `fractals` draws, of `size` ones.
abbrev pub in_fractals : ℕ → ℤ → Option ℕ
in_fractals size (pos n) = if ltb n size then some n else none
in_fractals size (negsuc n) = none

abbrev pub one_less : ℤ → ℤ
one_less (pos zero) = negsuc 0
one_less (pos (suc n)) = pos n
one_less (negsuc n) = negsuc (n + 1)

-- `some none` is `INVALID_ARGS`; no fractal is drawn.
unfoldable pub fractals : ℕ → ℕ → List (List ℕ) → Option (Option ℕ)
fractals size seconds [] = some (in_fractals size (pos (seconds % size)))
fractals size seconds (arg ∷ []) =
    if not (isnum arg)
    then some none
    else (elim (number_of arg) [ none ↦ none | some n ↦ some (in_fractals size (one_less n)) ])
fractals size seconds (_ ∷ _ ∷ _) = some none

-- The number of philosophers, or of places in the buffer, with which `philosophersProblem`,
-- `producerConsumer` and `producerConsumer2` start: `some none` is `INVALID_ARGS`. They read `argv[0]`
-- whether or not there is one.
abbrev pub at_least_one : ℤ → Option ℕ
at_least_one (pos zero) = none
at_least_one (pos (suc n)) = some (suc n)
at_least_one (negsuc n) = none

unfoldable pub problem_size : ℕ → List (List ℕ) → Option (Option ℕ)
problem_size default [] = none
problem_size default (arg ∷ rest) =
    if isnum arg
    then (elim (number_of arg) [ none ↦ none | some n ↦ some (at_least_one n) ])
    else some (at_least_one (pos default))

-- One `printf` behind another.
abbrev pub then_prints : Option Output → Option Output → Option Output
then_prints none second = none
then_prints (some first) none = none
then_prints (some (n, out)) (some (k, rest)) = some (n + k, out ++ rest)

unfoldable pub print_with_time_format : ℕ → Memory → ℕ → ℕ → Option Output
print_with_time_format fuel m aux n =
    let digits = fprintformat fuel m aux (codes "%d") (int_arg (pos n) ∷ []) in
    if ltb n 10 then then_prints (fprintformat fuel m aux (codes "0") []) digits else digits

unfoldable pub get_time : ℕ → Memory → ℕ → ℕ → ℕ → ℕ → Option Output
unfolding print_with_time_format
get_time fuel m aux h min s = then_prints (fprintformat fuel m aux (codes "Current time: ") []) (
    then_prints (print_with_time_format fuel m aux h) (
      then_prints (fprintformat fuel m aux (codes ":") []) (
        then_prints (print_with_time_format fuel m aux min) (
          then_prints (fprintformat fuel m aux (codes ":") []) (
            then_prints (print_with_time_format fuel m aux s)
              (fprintformat fuel m aux (10 ∷ []) []))))))

-- What `echo` puts out.
unfoldable pub echo : List (List ℕ) → List ℕ
echo [] = 10 ∷ []
echo (arg ∷ rest) = arg ++ 32 ∷ echo rest
