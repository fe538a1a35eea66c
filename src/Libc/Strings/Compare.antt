-- ===== src/Libc/Strings/Compare.antt =====
-- `strcmp` of nanOS/Kernel/strings.c decides whether two strings are equal.
use tpe_arqui.Prelude.{
  ℕ, zero, suc, ◌+◌, ◌≤◌, ◌<◌, ◌≡◌, ◌↔◌, refl, sym, subst, arith, ltb, ◌==◌, Bool, true, false, not,
  ◌&&◌, ℤ, pos, Option, none, some,
}
use tpe_arqui.Libc.Copy.{Memory}
use tpe_arqui.Libc.Strings.{char_sub, uint_max, strncmp_from, strcmp}
use tpe_arqui.Libc.Strings.Laws.{IsString}

-- What a finished comparison of strings of `a` and `b` characters has found.
abbrev pub Compared : Memory → ℕ → ℕ → ℕ → ℕ → Option ℤ → Type 0
Compared m s t a b none = ⊥
Compared m s t a b (some d) = (d ≡ pos 0) ↔ ((a ≡ b) × ((k : ℕ) → k < a → m (s + k) ≡ m (t + k)))

char_sub_zero : (x y : ℕ) → x < 256 → y < 256 → (char_sub x y ≡ pos 0) ↔ (x ≡ y)
char_sub_zero x y p q = ground arith

-- The test of the loop of `strncmp`.
abbrev goes_on : Memory → ℕ → ℕ → ℕ → Bool
goes_on m s t i =
    let a = m (s + i) in
    let b = m (t + i) in ltb i uint_max && (not (a == 0) && (not (b == 0) && (a == b)))

strncmp_from_more :
    (fuel : ℕ) (m : Memory) (s t i : ℕ)
    → goes_on m s t i ≡ true
    → strncmp_from (suc fuel) m s t uint_max i ≡ strncmp_from fuel m s t uint_max (i + 1)
unfolding strncmp_from
strncmp_from_more fuel m s t i e = ground (arith, e)

strncmp_from_end :
    (fuel : ℕ) (m : Memory) (s t i : ℕ)
    → goes_on m s t i ≡ false
    → strncmp_from (suc fuel) m s t uint_max i ≡ some (char_sub (m (s + i)) (m (t + i)))
unfolding strncmp_from
strncmp_from_end fuel m s t i e = ground (arith, e)

-- Where the loop ends, all before being equal, the two characters are equal if the strings are.
same_iff_ended :
    (m : Memory) (s t a b i : ℕ)
    → IsString m s a
    → IsString m t b
    → a < uint_max
    → i ≤ a
    → i ≤ b
    → ((k : ℕ) → k < i → m (s + k) ≡ m (t + k))
    → goes_on m s t i ≡ false
    → (m (s + i) ≡ m (t + i)) ↔ ((a ≡ b) × ((k : ℕ) → k < a → m (s + k) ≡ m (t + k)))
same_iff_ended m s t a b i ha hb small la lb same e = (
  λ h. (
    ground (arith, h, e, ha.inside i, hb.inside i, ha.ended, hb.ended, la, lb, small),
    λ k l. ground (arith, h, e, ha.inside i, same k, l, la, lb, small),
  ),
  λ (p, q). ground (arith, p, q i, ha.ended, hb.ended, la, lb),
)

strncmp_from_either :
    (fuel : ℕ) (m : Memory) (s t a b i : ℕ) (c : Bool)
    → IsString m s a
    → IsString m t b
    → ((k : ℕ) → m k < 256)
    → a < uint_max
    → i ≤ a
    → i ≤ b
    → ((k : ℕ) → k < i → m (s + k) ≡ m (t + k))
    → goes_on m s t i ≡ c
    → (i + 1 ≤ a
        → i + 1 ≤ b
        → ((k : ℕ) → k < i + 1 → m (s + k) ≡ m (t + k))
        → Compared m s t a b (strncmp_from fuel m s t uint_max (i + 1)))
    → Compared m s t a b (strncmp_from (suc fuel) m s t uint_max i)
strncmp_from_either fuel m s t a b i true ha hb bytes small la lb same e ih =
    subst (Compared m s t a b) (sym (strncmp_from_more fuel m s t i e)) (
      ih (ground (arith, e, ha.ended, la)) (ground (arith, e, hb.ended, lb))
        (λ k l. ground (arith, e, same k, l)))
strncmp_from_either fuel m s t a b i false ha hb bytes small la lb same e ih =
    let (to_, from_) = same_iff_ended m s t a b i ha hb small la lb same e in
    let (zero_to, zero_from) =
      char_sub_zero (m (s + i)) (m (t + i)) (bytes (s + i)) (bytes (t + i)) in
    subst (Compared m s t a b) (sym (strncmp_from_end fuel m s t i e))
      (λ z. to_ (zero_to z), λ z. zero_from (from_ z))

-- The comparison at the place `i`, where all before is equal.
Compared-strncmp_from :
    (fuel : ℕ) (m : Memory) (s t a b i : ℕ)
    → IsString m s a
    → IsString m t b
    → ((k : ℕ) → m k < 256)
    → a < uint_max
    → i ≤ a
    → i ≤ b
    → ((k : ℕ) → k < i → m (s + k) ≡ m (t + k))
    → a < fuel + i
    → Compared m s t a b (strncmp_from fuel m s t uint_max i)
Compared-strncmp_from zero m s t a b i ha hb bytes small la lb same f = absurd (omega arith)
Compared-strncmp_from (suc fuel) m s t a b i ha hb bytes small la lb same f =
    let rest = Compared-strncmp_from fuel m s t a b (i + 1) ha hb bytes small in
    strncmp_from_either fuel m s t a b i (goes_on m s t i) ha hb bytes small la lb same refl
      (λ x y z. rest x y z (omega arith))

-- `strcmp` of two strings, with more fuel than the first has characters, always finishes, and its
-- result is 0 if and only if the strings are equal.
pub strcmp_lem :
    (fuel : ℕ) (m : Memory) (s t a b : ℕ)
    → IsString m s a
    → IsString m t b
    → ((k : ℕ) → m k < 256)
    → a < uint_max
    → a < fuel
    → Compared m s t a b (strcmp fuel m s t)
unfolding strcmp
strcmp_lem fuel m s t a b ha hb bytes small f =
    Compared-strncmp_from fuel m s t a b 0 ha hb bytes small (omega arith) (omega arith)
      (λ k l. absurd (omega arith)) (omega arith)
