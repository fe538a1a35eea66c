-- ===== src/Prelude/Count.antt =====
-- How often an address or a page stands in a list of them.
use Prim.Native.Nat.{ℕ, ◌+◌}
use mathlib.Core.Path.{◌≡◌}
use mathlib.Core.Bool.{Bool, true, false}
use mathlib.Core.List.{List, [], ◌∷◌, ◌++◌}
use native.Mathlib.Omega.{arith}
use tpe_arqui.Prelude.Tests.{◌==◌}

abbrev pub one_if : Bool → ℕ
one_if true = 1
one_if false = 0

abbrev pub tally : ℕ → List ℕ → ℕ
tally wanted [] = 0
tally wanted (first ∷ others) = tally wanted others + one_if (first == wanted)

-- The entries of two lists are tallied one list after the other.
pub tally-append :
    (wanted : ℕ) (front back : List ℕ)
    → tally wanted (front ++ back) ≡ tally wanted front + tally wanted back
tally-append wanted [] back = omega arith
tally-append wanted (first ∷ others) back = omega (arith, tally-append wanted others back)
