-- ===== src/Base/Counts.antt =====
-- How often a number stands in a list.
use Prim.Native.Nat.{ℕ, ◌+◌, ◌≤◌}
use mathlib.Core.Path.{◌≡◌, refl}
use mathlib.Core.Bool.{Bool, true, false}
use mathlib.Core.List.{List, [], ◌∷◌, ◌++◌}
use native.Mathlib.Omega.{arith}
use gate_lock_home_node.Base.Tests.{◌==◌}
use gate_lock_home_node.Base.Lists.{elem, drop, length}

abbrev pub bit : Bool → ℕ
bit true = 1
bit false = 0

abbrev pub count : ℕ → List ℕ → ℕ
count j [] = 0
count j (x ∷ xs) = bit (j == x) + count j xs

pub count-append : (j : ℕ) (xs ys : List ℕ) → count j (xs ++ ys) ≡ count j xs + count j ys
count-append j [] ys = omega arith
count-append j (x ∷ xs) ys = omega (arith, count-append j xs ys)

pub elem-count : (j : ℕ) (xs : List ℕ) → elem j xs ≡ true → 1 ≤ count j xs
elem-count j [] h = cc
elem-count j (x ∷ xs) h = ground (arith, elem-count j xs)

pub drop_past : {A : Type 0} (xs ys : List A) → drop (length xs) (xs ++ ys) ≡ ys
drop_past [] ys = refl
drop_past (x ∷ xs) ys = drop_past xs ys

pub drop_own : {A : Type 0} (xs : List A) → drop (length xs) xs ≡ []
drop_own [] = refl
drop_own (x ∷ xs) = drop_own xs
