-- ===== src/Tests/User.antt =====
-- The shell's line, its arguments, the clock and the random numbers, in
-- nanOS/Userland/SampleCodeModule.
use tpe_arqui.Prelude.{
  take, ℕ, ◌≤◌, ◌<◌, ◌≡◌, refl, arith, true, false, List, [], ◌∷◌, length, pos, negsuc, some,
}
use tpe_arqui.Libc.Ctype.{isspace}
use tpe_arqui.User.Shell.{readline_no_spaces, build_arguments}
use tpe_arqui.User.Shell.Line.Compact.{compact, Trims}
use tpe_arqui.User.Shell.Line.{tidy, ends_in_space, readline_no_spaces_lem}
use tpe_arqui.User.Shell.Arguments.{Builds, build_arguments_lem}
use tpe_arqui.User.Input.{Stdin, fill_buffer}
use tpe_arqui.User.Input.Line.{Filled, fill_buffer_lem}
use tpe_arqui.User.Clock.{
  hour, set_gmt, hours_on, hour_lem, rand_int_range, Between, rand_int_range-Between,
}

-- "  ps  & "
abbrev spaced : List ℕ
spaced = 32 ∷ 32 ∷ b'p' ∷ b's' ∷ 32 ∷ 32 ∷ b'&' ∷ 32 ∷ []

readline_no_spaces_lem_example :
    let r = readline_no_spaces spaced 100 in
    Trims (take 99 (compact true spaced)) r
    × (tidy true r ≡ true)
    × (ends_in_space false r ≡ false)
    × (length r ≤ 99)
readline_no_spaces_lem_example = readline_no_spaces_lem spaced 100 (omega arith) (omega arith)

spaced_line : readline_no_spaces spaced 100 ≡ b'p' ∷ b's' ∷ 32 ∷ b'&' ∷ []
unfolding readline_no_spaces isspace
spaced_line = refl

build_arguments_lem_example :
    Builds (b'a' ∷ 32 ∷ b'b' ∷ []) (build_arguments (b'a' ∷ 32 ∷ b'b' ∷ []))
build_arguments_lem_example = build_arguments_lem (b'a' ∷ 32 ∷ b'b' ∷ [])

two_words : build_arguments (b'a' ∷ 32 ∷ b'b' ∷ []) ≡ some ((b'a' ∷ []) ∷ (b'b' ∷ []) ∷ [])
unfolding build_arguments
two_words = refl

-- The keys "a", "x", Backspace, "b", Enter, "c".
abbrev typing : Stdin
typing = record {
  buffer = λ _. 0;
  buffi = 0;
  keys = b'a' ∷ b'x' ∷ 8 ∷ b'b' ∷ 10 ∷ b'c' ∷ [];
  shown = [];
}

fill_buffer_lem_example : Filled (10 ∷ b'b' ∷ b'a' ∷ []) (b'c' ∷ []) (fill_buffer typing)
fill_buffer_lem_example =
    fill_buffer_lem typing (b'a' ∷ b'x' ∷ 8 ∷ b'b' ∷ []) (b'c' ∷ []) refl (omega arith) refl

-- At 2 o'clock, three hours back.
hour_lem_example :
    let (r, now) = set_gmt (pos 0) (negsuc 2) in
    (hour now 2 ≡ pos (hours_on 2 now)) × (hours_on 2 now < 24)
hour_lem_example = hour_lem (pos 0) (negsuc 2) 2 refl (omega arith)

rand_int_range-Between_example : Between 3 10 (rand_int_range 1 3 10).0
rand_int_range-Between_example = rand_int_range-Between 1 3 10 (omega arith)
