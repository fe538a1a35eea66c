-- ===== src/User/Shell.antt =====
-- From a line to a command and its arguments: `readline_no_spaces` of stdio.c, shell.c, and
-- `build_arguments` of executer.c, all in nanOS/Userland/SampleCodeModule.
pub mod Line
pub mod Arguments
use tpe_arqui.Prelude.{
  ℕ, ◌+◌, ◌-◌, ◌%◌, ◌^◌, ltb, ◌==◌, Bool, true, false, not, ◌&&◌, ◌||◌, if◌then◌else◌, pos, Option,
  none, some, List, [], ◌∷◌, ◌++◌, length, take, drop, get_or,
}
use tpe_arqui.Libc.Ctype.{isspace, isdigit}

-- `maxlen - 1` on `unsigned int`.
abbrev pub free_places : ℕ → ℕ
free_places maxlen = (maxlen + 2 ^ 32 - 1) % 2 ^ 32

-- The loop of `readline_no_spaces`, over the characters up to the newline: `str` is what it has
-- written, and `space` whether the last of them was white space or nothing.
unfoldable pub squeeze : ℕ → List ℕ → Bool → List ℕ → List ℕ
squeeze maxlen str space [] = str
squeeze maxlen str space (c ∷ line) =
    let s = isspace (pos c) in
    let skips = space && s in
    let rest = squeeze maxlen (if skips then str else str ++ c ∷ []) s line in
    if ltb (length str) (free_places maxlen) then rest else str

abbrev pub last_or : List ℕ → ℕ → ℕ
last_or [] d = d
last_or (c ∷ []) d = c
last_or (c ∷ e ∷ str) d = last_or (e ∷ str) d

-- Its end: the last character goes if it is white space.
unfoldable pub readline_no_spaces : List ℕ → ℕ → List ℕ
unfolding squeeze
readline_no_spaces line maxlen =
    let str = squeeze maxlen [] true line in
    if ltb 0 (length str) && isspace (pos (last_or str 0)) then take (length str - 1) str else str

-- The name, whose length is the result.
unfoldable pub extract_cmd_name : List ℕ → List ℕ
extract_cmd_name [] = []
extract_cmd_name (c ∷ str) = let rest = extract_cmd_name str in if c == 32 then [] else c ∷ rest

-- `check_foreground(buffer + name_len)`: with no arguments it reads the two characters before, and
-- `none` is a read before the line. The second part is what is left behind the name.
unfoldable pub check_foreground : List ℕ → ℕ → Option (Bool × List ℕ)
check_foreground buffer name_len =
    let args = drop name_len buffer in
    let len = length args in
    let last = get_or buffer (name_len + len - 1) 0 in
    let before = get_or buffer (name_len + len - 2) 0 in
    if not (last == 38)
    then some (true, args)
    else if len == 1
    then some (false, [])
    else if ltb (name_len + len) 2
    then none
    else if before == 32
    then some (false, take (len - 2) args)
    else some (true, args)

-- What `shell` hands to `execute`.
pub record Command : Type 0 where
  pub name : List ℕ
  pub args : List ℕ
  pub foreground : Bool

abbrev pub rest_of : List ℕ → List ℕ
rest_of [] = []
rest_of (c ∷ args) = args

-- One round of the loop of `shell`, on a line that is not empty.
unfoldable pub shell_command : List ℕ → Option Command
unfolding extract_cmd_name check_foreground
shell_command buffer =
    let cmd_name = extract_cmd_name buffer in
    elim (check_foreground buffer (length cmd_name)) [
      | none ↦ none
      | some (foreground, args) ↦
          some (record { name = cmd_name; args = rest_of args; foreground = foreground })
    ]

-- `isnum`, behind the sign.
unfoldable pub digits_up_to_space : List ℕ → Bool
digits_up_to_space [] = true
digits_up_to_space (c ∷ str) =
    let rest = digits_up_to_space str in (c == 32) || (isdigit (pos c) && rest)

unfoldable pub isnum : List ℕ → Bool
unfolding digits_up_to_space
isnum str =
    let first = get_or str 0 0 in
    let second = get_or str 1 0 in
    let minus = first == 45 in
    if not (isdigit (pos first)) && not minus
    then false
    else if minus && not (isdigit (pos second))
    then false
    else digits_up_to_space (if minus then drop 1 str else str)

-- The strings that the pointers of `build_arguments` point to: `word` is the one being copied.
unfoldable pub split_arguments : List ℕ → List ℕ → List (List ℕ)
split_arguments word [] = word ∷ []
split_arguments word (c ∷ arg) =
    let ended = word ∷ split_arguments [] arg in
    let going = split_arguments (word ++ c ∷ []) arg in if c == 32 then ended else going

abbrev pub max_args : ℕ
max_args = 32

-- One pointer is the function and one is NULL: `none` where they do not fit before the strings.
unfoldable pub build_arguments : List ℕ → Option (List (List ℕ))
unfolding split_arguments
build_arguments [] = some []
build_arguments (c ∷ arg) =
    let arguments = split_arguments [] (c ∷ arg) in
    if ltb (length arguments + 1) max_args then some arguments else none
