-- ===== src/Libc/Ctype.antt =====
-- The classes of characters of nanOS/Kernel/ctype.c, on any `int`.
use tpe_arqui.Prelude.{
  ℕ, ◌+◌, ◌≤◌, ◌≡◌, arith, leb, ltb, ◌==◌, Bool, false, not, ◌&&◌, ◌||◌, ℤ, pos, negsuc, one_if,
}

-- `c >= first && c <= last`, and `c == code`, for a code that is not negative.
abbrev pub between : ℕ → ℕ → ℤ → Bool
between first last (pos c) = leb first c && leb c last
between first last (negsuc c) = false

abbrev pub is_code : ℕ → ℤ → Bool
is_code code (pos c) = c == code
is_code code (negsuc c) = false

unfoldable pub isdigit : ℤ → Bool
isdigit c = between 48 57 c

unfoldable pub islower : ℤ → Bool
islower c = between 97 122 c

unfoldable pub isupper : ℤ → Bool
isupper c = between 65 90 c

unfoldable pub isalpha : ℤ → Bool
unfolding islower isupper
isalpha c = islower c || isupper c

unfoldable pub isalnum : ℤ → Bool
unfolding isalpha isdigit
isalnum c = isalpha c || isdigit c

unfoldable pub isblank : ℤ → Bool
isblank c = is_code 9 c || is_code 32 c

-- `c > 0x1F && c != 0x7F`
unfoldable pub isprint : ℤ → Bool
isprint (pos c) = ltb 0x1F c && not (c == 0x7F)
isprint (negsuc c) = false

unfoldable pub iscntrl : ℤ → Bool
unfolding isprint
iscntrl c = not (isprint c)

unfoldable pub isgraph : ℤ → Bool
unfolding isprint
isgraph c = isprint c && not (is_code 32 c)

unfoldable pub ispunct : ℤ → Bool
unfolding isgraph isalnum
ispunct c = isgraph c && not (isalnum c)

unfoldable pub isspace : ℤ → Bool
unfolding isblank
isspace c = isblank c || (is_code 11 c || (is_code 12 c || (is_code 13 c || is_code 10 c)))

unfoldable pub isxdigit : ℤ → Bool
unfolding isdigit
isxdigit c = isdigit c || (between 97 102 c || between 65 70 c)

-- Every `int` is in exactly one of the classes: control characters, the space, punctuation,
-- digits, lower case letters, upper case letters. A hexadecimal digit is a letter or a digit, and
-- white space is a control character or the space.
pub ctype_lem :
    (c : ℤ)
    → (one_if (iscntrl c)
          + one_if (is_code 32 c)
          + one_if (ispunct c)
          + one_if (isdigit c)
          + one_if (islower c)
          + one_if (isupper c)
        ≡ 1)
      × (one_if (isxdigit c) ≤ one_if (isalnum c))
      × (one_if (isspace c) ≤ one_if (iscntrl c || is_code 32 c))
unfolding iscntrl ispunct isdigit islower isupper isxdigit isalnum isspace
ctype_lem (pos c) = ground arith
ctype_lem (negsuc c) = ground arith
