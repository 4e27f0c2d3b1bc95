-- ===== src/Prelude/Count.antt =====
-- How often a number stands in a list, as a native number, and the laws that conservation
-- arguments use.
use Prim.Native.Nat.{ℕ, ◌+◌}
use mathlib.Core.Path.{◌≡◌}
use mathlib.Core.List.{List, [], ◌∷◌, ◌++◌}
use native.Mathlib.Omega.{arith}
use sthreads.Prelude.Tests.{◌==◌, if◌then◌else◌}

abbrev pub one_if : ℕ → ℕ → ℕ
one_if p x = if x == p then 1 else 0

abbrev pub count : ℕ → List ℕ → ℕ
count p [] = 0
count p (x ∷ xs) = one_if p x + count p xs

pub count-append : (p : ℕ) (xs ys : List ℕ) → count p (xs ++ ys) ≡ count p xs + count p ys
count-append p [] ys = omega arith
count-append p (x ∷ xs) ys = omega (arith, count-append p xs ys)
