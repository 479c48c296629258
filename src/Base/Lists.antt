-- ===== src/Base/Lists.antt =====
-- Lists measured and indexed by native numbers, under the library's names, and Boolean membership.
use Prim.Native.Nat.{ℕ, zero, suc, ◌+◌, ◌≤◌}
use mathlib.Core.Path.{◌≡◌, refl, ap, sym, ◌∙◌}
use mathlib.Core.Bool.{Bool, false, ◌||◌}
use mathlib.Core.List.{List, [], ◌∷◌, ◌++◌, map, append_assoc}
use mathlib.Core.Option.{Option, none, some}
use native.Mathlib.Omega.{arith}
use gate_lock_home_node.Base.Tests.{◌==◌, if◌then◌else◌}

module _ {ℓ} {A : Type ℓ} where
  abbrev pub length : List A → ℕ
  length [] = 0
  length (x ∷ xs) = suc (length xs)

  abbrev pub take : ℕ → List A → List A
  take zero xs = []
  take (suc n) [] = []
  take (suc n) (x ∷ xs) = x ∷ take n xs

  abbrev pub drop : ℕ → List A → List A
  drop zero xs = xs
  drop (suc n) [] = []
  drop (suc n) (x ∷ xs) = drop n xs

  abbrev pub replicate : ℕ → A → List A
  replicate zero a = []
  replicate (suc n) a = a ∷ replicate n a

  abbrev pub get_elem? : List A → ℕ → Option A
  get_elem? [] i = none
  get_elem? (x ∷ xs) zero = some x
  get_elem? (x ∷ xs) (suc i) = get_elem? xs i

  -- A write out of bounds changes nothing.
  abbrev pub set : List A → ℕ → A → List A
  set [] i v = []
  set (x ∷ xs) zero v = v ∷ xs
  set (x ∷ xs) (suc i) v = x ∷ set xs i v

module _ {ℓ} {A : Type ℓ} where
  pub length-append : (xs ys : List A) → length (xs ++ ys) ≡ length xs + length ys
  length-append [] ys = omega arith
  length-append (x ∷ xs) ys = omega (arith, length-append xs ys)

  pub take-append-drop : (n : ℕ) (xs : List A) → take n xs ++ drop n xs ≡ xs
  take-append-drop zero xs = refl
  take-append-drop (suc n) [] = refl
  take-append-drop (suc n) (x ∷ xs) = rw (take-append-drop n xs)

  pub take_all : (n : ℕ) (xs : List A) → length xs ≤ n → take n xs ≡ xs
  take_all zero [] h = refl
  take_all zero (x ∷ xs) h = absurd (omega arith)
  take_all (suc n) [] h = refl
  take_all (suc n) (x ∷ xs) h = ap (◌∷◌ x) (take_all n xs (omega arith))

module _ {ℓ κ} {A : Type ℓ} {B : Type κ} (f : A → B) where
  pub length-map : (xs : List A) → length (map f xs) ≡ length xs
  length-map [] = refl
  length-map (x ∷ xs) = ap suc (length-map xs)

module _ {ℓ κ} {A : Type ℓ} {B : Type κ} (f : A → List B) where
  -- The lists of all items, joined.
  abbrev pub flat_map : List A → List B
  flat_map [] = []
  flat_map (x ∷ xs) = f x ++ flat_map xs

  pub flat_map-append : (xs ys : List A) → flat_map (xs ++ ys) ≡ flat_map xs ++ flat_map ys
  flat_map-append [] ys = refl
  flat_map-append (x ∷ xs) ys =
      ap (λ (zs : List B). f x ++ zs) (flat_map-append xs ys)
      ∙ sym (append_assoc (f x) (flat_map xs) (flat_map ys))

pub take-take {ℓ} : {A : Type ℓ} (n : ℕ) (xs : List A) → take n (take n xs) ≡ take n xs
take-take zero xs = refl
take-take (suc n) [] = refl
take-take (suc n) (x ∷ xs) = ap (◌∷◌ x) (take-take n xs)

-- Whether a number stands in a list.
abbrev pub elem : ℕ → List ℕ → Bool
elem j [] = false
elem j (x ∷ xs) = (j == x) || elem j xs

-- No number stands twice in the list.
abbrev pub Distinct : List ℕ → Type 0
Distinct [] = Unit {0}
Distinct (x ∷ xs) = (elem x xs ≡ false) × Distinct xs

pub elem-append : (j : ℕ) (xs ys : List ℕ) → elem j (xs ++ ys) ≡ (elem j xs || elem j ys)
elem-append j [] ys = refl
elem-append j (x ∷ xs) ys = ground (arith, elem-append j xs ys)

pub Distinct-snoc :
    (xs : List ℕ) (i : ℕ) → Distinct xs → elem i xs ≡ false → Distinct (xs ++ i ∷ [])
Distinct-snoc [] i d h = ground arith
Distinct-snoc (x ∷ xs) i d h =
    (ground (arith, elem-append x xs (i ∷ [])), Distinct-snoc xs i d.1 (ground arith))

-- A map of objects by their addresses, with one object replaced.
abbrev pub update {ℓ} : {A : Type ℓ} → (ℕ → A) → ℕ → A → ℕ → A
update f i v j = if j == i then v else f j
