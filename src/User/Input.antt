-- ===== src/User/Input.antt =====
-- The line that the user types: `fill_buffer` and `getchar` of
-- nanOS/Userland/SampleCodeModule/stdio.c.
pub mod Line
use tpe_arqui.Prelude.{
  ℕ, zero, suc, ◌+◌, ◌-◌, ◌≤◌, ◌<◌, ◌≡◌, ◌≢◌, refl, arith, ltb, ◌==◌, Bool, true, false, not, ◌&&◌,
  ◌||◌, if◌then◌else◌, Option, none, some, List, [], ◌∷◌, ◌++◌,
}

abbrev pub buffer_size : ℕ
buffer_size = 1024

-- The statics, the keys that `read` will give, and what `putchar` has shown, latest first.
pub record Stdin : Type 0 where
  pub buffer : ℕ → ℕ
  pub buffi : ℕ
  pub keys : List ℕ
  pub shown : List ℕ

abbrev pub shows : Stdin → ℕ → Stdin
shows s c = record s { shown = c ∷ s.shown }

-- One key, at the index `i`: the new index.
unfoldable pub take_key : Stdin → ℕ → ℕ → ℕ × Stdin
take_key s i c =
    let kept = record s { buffer = λ a. if i == a then c else s.buffer a } in
    if (c == 8) && ltb 0 i
    then (i - 1, (if s.buffer (i - 1) == 9 then s else shows s c))
    else if not (c == 8)
    then (i + 1, shows kept c)
    else (i, s)

-- The loop of `fill_buffer`, over the keys; `none` while it waits for one.
unfoldable pub fill_from : List ℕ → Stdin → ℕ → Option (ℕ × Stdin)
unfolding take_key
fill_from [] s i = none
fill_from (c ∷ keys) s i =
    let (j, t) = take_key s i c in
    let u = record t { keys = keys } in
    elim (not (c == 10) && ltb j (buffer_size - 1)) [
      | true ↦ fill_from keys u j
      | false ↦ some (j, u)
    ]

unfoldable pub fill_buffer : Stdin → Option (ℕ × Stdin)
unfolding fill_from
fill_buffer s = fill_from s.keys s 0

abbrev pub next_char : Stdin → ℕ × Stdin
next_char s =
    let c = s.buffer s.buffi in
    let j = s.buffi + 1 in
    (c, record s { buffi = (if (c == 10) || (j == buffer_size) then 0 else j) })

unfoldable pub getchar : Stdin → Option (ℕ × Stdin)
unfolding fill_buffer
getchar s =
    if s.buffi == 0
    then (elim (fill_buffer s) [ none ↦ none | some (i, t) ↦ some (next_char t) ])
    else some (next_char s)
