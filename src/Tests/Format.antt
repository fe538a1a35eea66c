-- ===== src/Tests/Format.antt =====
-- Formatted output and input, stdio.c of nanOS/Userland/SampleCodeModule, and the commands of the
-- shell, commands.c there.
use tpe_arqui.Prelude.{
  ◌≡◌, refl, arith, true, List, [], ◌∷◌, ◌++◌, length, negsuc, some, if◌then◌else◌, ◌==◌,
}
use tpe_arqui.Libc.Copy.{Memory}
use tpe_arqui.User.Format.{fprintformat, scanned_int, scanf_from, readline}
use tpe_arqui.User.Format.Printing.{
  Piece, plain, number, text, percent, format_of, args_of, rendered, fprintformat-rendered,
}
use tpe_arqui.User.Format.Scanning.{scanf_from-decimal}
use tpe_arqui.User.Shell.{build_arguments}
use tpe_arqui.User.Commands.{codes, commands, execute, validity_of, get_time}
use tpe_arqui.User.Commands.Table.{Starts, execute_lem}
use tpe_arqui.User.Commands.Clock.{two_digits, get_time_lem}
use tpe_arqui.User.Commands.Echo.{Echoes, echo-build_arguments}

-- "ab" stands at 10 and "-42" at 20.
abbrev memory : Memory
memory a =
    if a == 10
    then b'a'
    else if a == 11
    then b'b'
    else if a == 20
    then 45
    else if a == 21
    then 52
    else if a == 22
    then 50
    else 0

-- "<%d %s%%"
abbrev pieces : List Piece
pieces = plain 60 ∷ number (negsuc 41) ∷ plain 32 ∷ text 10 (b'a' ∷ b'b' ∷ []) ∷ percent ∷ []

fprintformat-rendered_example :
    fprintformat 9 memory 1000 (format_of pieces) (args_of pieces)
    ≡ some (length (rendered pieces), rendered pieces)
fprintformat-rendered_example = fprintformat-rendered 9 memory 1000 pieces (
  omega arith,
  (
    omega arith,
    omega arith,
    (omega arith, ((refl, omega arith, (refl, omega arith, refl)), omega arith, omega arith, tt)),
  ),
)

rendered_text : rendered pieces ≡ codes "<-42 ab%"
rendered_text = refl

scanf_from-decimal_example :
    scanf_from 65 memory 20 (37 ∷ b'd' ∷ []) ≡ some (1, scanned_int (negsuc 41) ∷ [])
scanf_from-decimal_example =
    scanf_from-decimal 65 memory 20 (negsuc 41)
      (refl, omega arith, (refl, omega arith, (refl, omega arith, refl))) (omega arith)
      (omega arith)

line_read : readline 64 (b'h' ∷ b'i' ∷ 10 ∷ b'x' ∷ []) ≡ some (b'h' ∷ b'i' ∷ [], b'x' ∷ [])
unfolding readline
line_read = refl

execute_lem_example :
    let (v, started) = execute (codes "echo") (codes "a b") true in
    Starts commands 0 (codes "echo") (codes "a b") true started × (v ≡ validity_of started)
execute_lem_example = execute_lem (codes "echo") (codes "a b") true

half_past_seven :
    get_time 3 memory 1000 7 30 5
    ≡ some (
      23,
      codes "Current time: "
          ++ two_digits 7
          ++ codes ":"
          ++ two_digits 30
          ++ codes ":"
          ++ two_digits 5
          ++ 10 ∷ [],
    )
half_past_seven =
    get_time_lem 3 memory 1000 7 30 5 (omega arith) (omega arith) (omega arith) (omega arith)

echoed_words : Echoes (b'a' ∷ 32 ∷ b'b' ∷ []) (build_arguments (b'a' ∷ 32 ∷ b'b' ∷ []))
echoed_words = echo-build_arguments (b'a' ∷ 32 ∷ b'b' ∷ [])
