-- ===== src/Libc/Strings/Laws.antt =====
-- What the loops of nanOS/Kernel/strings.c do on strings that end.
use tpe_arqui.Prelude.{
  ℕ, zero, suc, ◌+◌, ◌≤◌, ◌<◌, ◌≡◌, ◌≢◌, ◌⊎◌, refl, sym, subst, arith, ◌==◌, Bool, true, false,
  Option, none, some,
}
use tpe_arqui.Libc.Copy.{store, Memory}
use tpe_arqui.Libc.Strings.{str_len_from, str_len, strcpy_from, strcpy, strcpyto}

-- The string at `s` has `n` characters.
pub record IsString (m : Memory) (s n : ℕ) : Type 0 where
  pub inside : (k : ℕ) → k < n → m (s + k) ≢ 0
  pub ended : m (s + n) ≡ 0

str_len_from_lem :
    (fuel : ℕ) (m : Memory) (s n i : ℕ)
    → IsString m s n
    → i ≤ n
    → n < fuel + i
    → str_len_from fuel m s i ≡ some n
unfolding str_len_from
str_len_from_lem zero m s n i h l f = absurd (omega arith)
str_len_from_lem (suc fuel) m s n i h l f =
    let rest = str_len_from_lem fuel m s n (i + 1) h in
    ground (arith, rest, h.inside i, h.ended, l, f)

-- With more fuel than the string has characters, `str_len` returns their number.
pub str_len_lem :
    (fuel : ℕ) (m : Memory) (s n : ℕ) → IsString m s n → n < fuel → str_len fuel m s ≡ some n
unfolding str_len
str_len_lem fuel m s n h f = str_len_from_lem fuel m s n 0 h (omega arith) (omega arith)

-- `strcpyto` hands `UINT_MAX` to an `int`, which makes it -1: it copies nothing, whatever the
-- source, and writes the empty string.
pub strcpyto_empty :
    (fuel : ℕ) (m : Memory) (to from limit : ℕ)
    → strcpyto (suc fuel) m to from limit ≡ some (0, store m to 0)
unfolding strcpyto
strcpyto_empty fuel m to from limit = ground arith

-- What a finished `strcpy` of `n` characters has done.
pub record Copied (m : Memory) (to from n i : ℕ) (count : ℕ) (m' : Memory) : Type 0 where
  pub returned : count ≡ n
  pub copied : (k : ℕ) → i ≤ k → k ≤ n → m' (to + k) ≡ m (from + k)
  pub outside : (a : ℕ) → (a < to + i) ⊎ (to + n < a) → m' a ≡ m a

abbrev pub Copies : Memory → ℕ → ℕ → ℕ → ℕ → Option (ℕ × Memory) → Type 0
Copies m to from n i none = ⊥
Copies m to from n i (some (count, m')) = Copied m to from n i count m'

Copies-store :
    (m : Memory) (to from n i : ℕ) (out : Option (ℕ × Memory))
    → (from + n < to) ⊎ (to + n < from)
    → i < n
    → Copies (store m (to + i) (m (from + i))) to from n (i + 1) out
    → Copies m to from n i out
Copies-store m to from n i none d l c = c
Copies-store m to from n i (some (count, m')) d l c = record {
  returned = c.returned;
  copied = λ k lo hi. ground (arith, c.copied k, c.outside (to + k), d, l, lo, hi);
  outside = λ a o. ground (arith, c.outside a, d, l, o);
}

IsString-store :
    (m : Memory) (to from n i : ℕ)
    → IsString m from n
    → (from + n < to) ⊎ (to + n < from)
    → i < n
    → IsString (store m (to + i) (m (from + i))) from n
IsString-store m to from n i h d l = record {
  inside = λ k b. ground (arith, h.inside k, d, l, b);
  ended = ground (arith, h.ended, d, l);
}

strcpy_from_more :
    (fuel : ℕ) (m : Memory) (to from i : ℕ)
    → (m (from + i) == 0) ≡ false
    → strcpy_from (suc fuel) m to from i
      ≡ strcpy_from fuel (store m (to + i) (m (from + i))) to from (i + 1)
unfolding strcpy_from
strcpy_from_more fuel m to from i e = ground (arith, e)

strcpy_from_end :
    (fuel : ℕ) (m : Memory) (to from i : ℕ)
    → (m (from + i) == 0) ≡ true
    → strcpy_from (suc fuel) m to from i ≡ some (i, store m (to + i) 0)
unfolding strcpy_from
strcpy_from_end fuel m to from i e = ground (arith, e)

strcpy_from_either :
    (fuel : ℕ) (m : Memory) (to from n i : ℕ) (b : Bool)
    → IsString m from n
    → (from + n < to) ⊎ (to + n < from)
    → i ≤ n
    → (m (from + i) == 0) ≡ b
    → (i < n
        → Copies
            (store m (to + i) (m (from + i)))
            to
            from
            n
            (i + 1)
            (strcpy_from fuel (store m (to + i) (m (from + i))) to from (i + 1)))
    → Copies m to from n i (strcpy_from (suc fuel) m to from i)
unfolding strcpy_from
strcpy_from_either fuel m to from n i true h d l e ih =
    subst (Copies m to from n i) (sym (strcpy_from_end fuel m to from i e)) (record {
      returned = ground (arith, h.inside i, e, l);
      copied = λ k lo hi. ground (arith, h.inside i, h.ended, e, l, lo, hi);
      outside = λ a o. ground (arith, h.inside i, e, l, o);
    })
strcpy_from_either fuel m to from n i false h d l e ih =
    let more : i < n = ground (arith, h.ended, e, l) in
    subst (Copies m to from n i) (sym (strcpy_from_more fuel m to from i e))
      (Copies-store m to from n i _ d more (ih more))

strcpy_from_lem :
    (fuel : ℕ) (m : Memory) (to from n i : ℕ)
    → IsString m from n
    → (from + n < to) ⊎ (to + n < from)
    → i ≤ n
    → n < fuel + i
    → Copies m to from n i (strcpy_from fuel m to from i)
strcpy_from_lem zero m to from n i h d l f = absurd (omega arith)
strcpy_from_lem (suc fuel) m to from n i h d l f =
    strcpy_from_either fuel m to from n i (m (from + i) == 0) h d l refl (λ more.
      strcpy_from_lem fuel (store m (to + i) (m (from + i))) to from n (i + 1)
        (IsString-store m to from n i h d more) d (omega arith) (omega arith))

-- `strcpy` of a string that does not overlap with its destination, with more fuel than it has
-- characters, returns their number, copies the string with its end, and writes nowhere else.
pub strcpy_lem :
    (fuel : ℕ) (m : Memory) (to from n : ℕ)
    → IsString m from n
    → (from + n < to) ⊎ (to + n < from)
    → n < fuel
    → Copies m to from n 0 (strcpy fuel m to from)
unfolding strcpy
strcpy_lem fuel m to from n h d f =
    strcpy_from_lem fuel m to from n 0 h d (omega arith) (omega arith)
