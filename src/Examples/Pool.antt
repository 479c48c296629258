-- ===== src/Examples/Pool.antt =====
-- A pool of four blocks in the place of bank_pool.h, with the laws that the server relies on.
use gate_lock_home_node.Base.{
  ℕ, zero, suc, ◌<◌, sym, ◌∙◌, true, ◌≡◌, refl, false, Option, none, some, List, [], ◌∷◌, arith,
  elem, ◌==◌, ◌||◌, if◌then◌else◌,
}
use gate_lock_home_node.Http.Types.{Bank, BankLaws}
use gate_lock_home_node.Node.Requests.Full.{HasBlocks}

abbrev first_free : List ℕ → Option ℕ
first_free used =
    if elem 0 used
    then (if elem 1 used
        then (if elem 2 used then (if elem 3 used then none else some 3) else some 2)
        else some 1)
    else some 0

abbrev hand_out : Option ℕ → List ℕ → Option ℕ × List ℕ
hand_out none used = (none, used)
hand_out (some i) used = (some i, i ∷ used)

abbrev give_back : List ℕ → ℕ → List ℕ
give_back [] i = []
give_back (x ∷ xs) i = let rest = give_back xs i in if x == i then rest else x ∷ rest

-- The state of the pool is the list of the blocks that are handed out.
abbrev pub pool : Bank (List ℕ)
pool = record {
  register_pool = λ n. [];
  alloc = λ used. hand_out (first_free used) used;
  free = give_back;
  held = λ used i. elem i used;
}

elem-give_back :
    (used : List ℕ) (i j : ℕ) → elem j (give_back used i) ≡ (if j == i then false else elem j used)
elem-give_back [] i j = ground arith
elem-give_back (x ∷ xs) i j = ground (arith, elem-give_back xs i j)

hand_out-fresh :
    (used : List ℕ) (i : ℕ) → (hand_out (first_free used) used).0 ≡ some i → elem i used ≡ false
hand_out-fresh used i h = ground arith

hand_out-held :
    (o : Option ℕ) (used : List ℕ) (i j : ℕ)
    → (hand_out o used).0 ≡ some i
    → elem j (hand_out o used).1 ≡ (j == i || elem j used)
hand_out-held none used i j h = cc
hand_out-held (some k) used i j h = ground arith

hand_out-none :
    (o : Option ℕ) (used : List ℕ) (j : ℕ)
    → (hand_out o used).0 ≡ none
    → elem j (hand_out o used).1 ≡ elem j used
hand_out-none none used j h = refl
hand_out-none (some k) used j h = cc

pub pool-BankLaws : BankLaws pool
pool-BankLaws = record {
  alloc_fresh = λ b i h. hand_out-fresh b i h;
  alloc_held = λ b i j h. hand_out-held (first_free b) b i j h;
  alloc_none = λ b j h. hand_out-none (first_free b) b j h;
  free_held = λ b i j. elem-give_back b i j;
}

hand_out_same : (o : Option ℕ) (used : List ℕ) → (hand_out o used).0 ≡ o
hand_out_same none used = refl
hand_out_same (some i) used = refl

all_used : (used : List ℕ) (i : ℕ) → first_free used ≡ none → i < 4 → elem i used ≡ true
all_used used zero h l = ground arith
all_used used (suc zero) h l = ground arith
all_used used (suc (suc zero)) h l = ground arith
all_used used (suc (suc (suc zero))) h l = ground arith
all_used used (suc (suc (suc (suc i)))) h l = absurd (omega arith)

pub pool-HasBlocks : HasBlocks pool 4
pool-HasBlocks b i h l = all_used b i (sym (hand_out_same (first_free b) b) ∙ h) l
