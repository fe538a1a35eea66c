-- ===== src/Tests/Libc.antt =====
-- Characters and strings: nanOS/Kernel/ctype.c and nanOS/Kernel/strings.c.
use tpe_arqui.Prelude.{
  ◌+◌, ◌≤◌, ◌≡◌, refl, arith, inl, pos, negsuc, some, if◌then◌else◌, ◌==◌, ◌||◌, one_if,
}
use tpe_arqui.Libc.Copy.{store, Memory}
use tpe_arqui.Libc.Ctype.{
  is_code, iscntrl, ispunct, isdigit, islower, isupper, isxdigit, isalnum, isspace, ctype_lem,
}
use tpe_arqui.Libc.Strings.{str_len, strcmp, strcpy, strcpyto}
use tpe_arqui.Libc.Strings.Laws.{IsString, Copies, str_len_lem, strcpy_lem, strcpyto_empty}
use tpe_arqui.Libc.Numbers.{itoa}
use tpe_arqui.Libc.Numbers.Laws.{ReadsBack, atoi-itoa}
use tpe_arqui.Libc.Strings.Compare.{Compared, strcmp_lem}

-- "ab" at 10 and "ac" at 20.
abbrev two_strings : Memory
two_strings a =
    if a == 10
    then 97
    else if a == 11
    then 98
    else if a == 20
    then 97
    else if a == 21
    then 99
    else 0

ab-IsString : IsString two_strings 10 2
ab-IsString = record { inside = λ k l. ground (arith, l); ended = refl }

ac-IsString : IsString two_strings 20 2
ac-IsString = record { inside = λ k l. ground (arith, l); ended = refl }

str_len_ab : str_len 3 two_strings 10 ≡ some 2
str_len_ab = str_len_lem 3 two_strings 10 2 ab-IsString (omega arith)

string_copied : Copies two_strings 30 10 2 0 (strcpy 3 two_strings 30 10)
string_copied = strcpy_lem 3 two_strings 30 10 2 ab-IsString (inl (omega arith)) (omega arith)

compared : Compared two_strings 10 20 2 2 (strcmp 3 two_strings 10 20)
compared =
    strcmp_lem 3 two_strings 10 20 2 2 ab-IsString ac-IsString (λ k. ground arith) (omega arith)
      (omega arith)

copies_nothing : strcpyto 1 two_strings 30 10 32 ≡ some (0, store two_strings 30 0)
copies_nothing = strcpyto_empty 0 two_strings 30 10 32

-- The letter `a`, a hexadecimal digit.
letter_a :
    (one_if (iscntrl (pos 97))
        + one_if (is_code 32 (pos 97))
        + one_if (ispunct (pos 97))
        + one_if (isdigit (pos 97))
        + one_if (islower (pos 97))
        + one_if (isupper (pos 97))
      ≡ 1)
    × (one_if (isxdigit (pos 97)) ≤ one_if (isalnum (pos 97)))
    × (one_if (isspace (pos 97)) ≤ one_if (iscntrl (pos 97) || is_code 32 (pos 97)))
letter_a = ctype_lem (pos 97)

-- The number -42.
atoi-itoa_example : ReadsBack 11 100 (negsuc 41) (itoa 10 two_strings (negsuc 41) 100 10)
atoi-itoa_example =
    atoi-itoa 10 10 two_strings (negsuc 41) 100 (omega arith) (omega arith) (omega arith)
      (omega arith)
