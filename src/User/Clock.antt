-- ===== src/User/Clock.antt =====
-- The clock and the random numbers: time.c and random.c of nanOS/Userland/SampleCodeModule. What the
-- system call `time` reads is an argument.
use native.Mathlib.Nat.{mod-lt}
use tpe_arqui.Prelude.{
  ℕ, ◌+◌, ◌-◌, ◌*◌, ◌/◌, ◌%◌, ◌^◌, ◌≤◌, ◌<◌, ◌≡◌, arith, leb, ltb, Bool, true, false, if◌then◌else◌,
  ℤ, pos, negsuc,
}

-- A natural number and an integer added.
abbrev pub plus : ℕ → ℤ → ℤ
plus t (pos g) = pos (t + g)
plus t (negsuc g) = if ltb g t then pos (t - g - 1) else negsuc (g - t)

-- `gmt >= MIN_GMT && gmt <= MAX_GMT`: from -12 to 14.
abbrev pub valid_gmt : ℤ → Bool
valid_gmt (pos g) = leb g 14
valid_gmt (negsuc g) = leb g 11

-- `setGMT`, from one value of the global `GMT` to the next.
unfoldable pub set_gmt : ℤ → ℤ → ℕ × ℤ
set_gmt current gmt = if valid_gmt gmt then (1, gmt) else (0, current)

abbrev pub in_day : ℤ → ℤ
in_day (pos h) = if leb h 23 then pos h else (if ltb h 24 then negsuc (23 - h) else pos (h - 24))
in_day (negsuc h) = plus 24 (negsuc h)

unfoldable pub hour : ℤ → ℕ → ℤ
hour gmt time = in_day (plus time gmt)

-- The hour of the day that many hours on.
abbrev pub hours_on : ℕ → ℤ → ℕ
hours_on time (pos g) = (time + g) % 24
hours_on time (negsuc g) = (time + 23 - g) % 24

-- Whatever `setGMT` is given, from a valid `GMT` on, `hour` then is an hour of the day: the one that
-- the clock shows, moved by `GMT` round the day.
pub hour_lem :
    (current gmt : ℤ) (time : ℕ)
    → valid_gmt current ≡ true
    → time < 24
    → let (r, now) = set_gmt current gmt in
      (hour now time ≡ pos (hours_on time now)) × (hours_on time now < 24)
unfolding set_gmt hour
hour_lem (pos c) (pos g) time v l = ground (arith, v, l)
hour_lem (pos c) (negsuc g) time v l = ground (arith, v, l)
hour_lem (negsuc c) (pos g) time v l = ground (arith, v, l)
hour_lem (negsuc c) (negsuc g) time v l = ground (arith, v, l)

-- The value and the next state, on `unsigned long`.
unfoldable pub rand_int : ℕ → ℕ × ℕ
rand_int next = let n = (next * 1103515245 + 12345) % 2 ^ 64 in ((n / 65536) % 2 ^ 32 % 32768, n)

-- Its calls are with bounds that are not negative; -1 is `negsuc 0`.
unfoldable pub rand_int_range : ℕ → ℕ → ℕ → ℤ × ℕ
unfolding rand_int
rand_int_range next low top =
    if leb top low
    then (negsuc 0, next)
    else (let (n, after) = rand_int next in (pos (n % (top - low) + low), after))

-- From the lower bound on and below the upper bound.
abbrev pub Between : ℕ → ℕ → ℤ → Type 0
Between low top (pos n) = (low ≤ n) × (n < top)
Between low top (negsuc n) = ⊥

-- `rand_int_range` of a range that is not empty gives a number in it.
pub rand_int_range-Between :
    (next low top : ℕ) → low < top → Between low top (rand_int_range next low top).0
unfolding rand_int_range
rand_int_range-Between next low top l =
    let r = (rand_int next).0 in
    let less : r % (top - low) < top - low = mod-lt r (omega (arith, l)) in
    let test : leb top low ≡ false = ground (arith, l) in
    rw (Between, test) (omega arith, omega (arith, less))
