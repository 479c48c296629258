-- ===== src/Base/Strings.antt =====
-- Laws of the C string functions: what `strncpy` leaves in a buffer, and `strcmp` as an order.
use gate_lock_home_node.Base.Tests.{◌==◌, Bool-cases}
use Prim.Native.Nat.{ℕ, zero, suc, ◌-◌, ◌<◌, ◌≤◌, Ordering}
use mathlib.Core.Path.{◌≡◌, refl, ap, sym, ◌∙◌}
use mathlib.Core.Logic.{inl, inr}
use mathlib.Core.Bool.{true, false}
use mathlib.Core.List.{List, [], ◌∷◌, ◌++◌, append-nil}
use native.Mathlib.Omega.{arith}
use gate_lock_home_node.Base.Lists.{take, drop, replicate, elem, length, length-append, take_all}
use gate_lock_home_node.Base.Text.{
  cstr, strncpy, strnlen, compare_text, strcmp, same_text, snprintf_text,
}

-- A string holds no NUL.
pub cstr_no_nul : (s : List ℕ) → elem 0 (cstr s) ≡ false
unfolding cstr
cstr_no_nul [] = refl
cstr_no_nul (c ∷ s) = ground (arith, cstr_no_nul s)

pub cstr_of_no_nul : (t : List ℕ) → elem 0 t ≡ false → cstr t ≡ t
unfolding cstr
cstr_of_no_nul [] h = refl
cstr_of_no_nul (c ∷ t) h = ground (arith, cstr_of_no_nul t)

pub cstr-cstr : (s : List ℕ) → cstr (cstr s) ≡ cstr s
cstr-cstr s = cstr_of_no_nul (cstr s) (cstr_no_nul s)

padded :
    (t : List ℕ) (n m : ℕ) (rest : List ℕ)
    → elem 0 t ≡ false
    → n ≤ m
    → cstr rest ≡ []
    → cstr (take n (t ++ replicate m 0) ++ rest) ≡ take n t
unfolding cstr
padded t zero m rest h le e = e
padded [] (suc n) zero rest h le e = absurd (omega arith)
padded [] (suc n) (suc m) rest h le e = refl
padded (c ∷ t) (suc n) zero rest h le e = absurd (omega arith)
padded (c ∷ t) (suc n) (suc m) rest h le e =
    let tail : elem 0 t ≡ false = ground arith in
    ground (arith, padded t n (suc m) rest tail (omega arith) e)

-- After `strncpy(dst, src, n)` the buffer holds the first n bytes of the source's string, if what
-- follows those n bytes begins with a NUL or is empty.
pub cstr-strncpy :
    (dst src : List ℕ) (n : ℕ)
    → cstr (drop n dst) ≡ []
    → cstr (strncpy dst src n) ≡ take n (cstr src)
unfolding strncpy
cstr-strncpy dst src n h = padded (cstr src) n n (drop n dst) (cstr_no_nul src) (omega arith) h

-- `strcmp` is a strict total order on strings.
compare_text-swap : (a b : List ℕ) → compare_text a b ≡ Ordering.gt → compare_text b a ≡ Ordering.lt
unfolding compare_text
compare_text-swap [] [] h = cc
compare_text-swap [] (y ∷ b) h = cc
compare_text-swap (x ∷ a) [] h = refl
compare_text-swap (x ∷ a) (y ∷ b) h = ground (arith, compare_text-swap a b)

compare_text_trans :
    (a b c : List ℕ)
    → compare_text a b ≡ Ordering.gt
    → compare_text b c ≡ Ordering.gt
    → compare_text a c ≡ Ordering.gt
unfolding compare_text
compare_text_trans [] [] c h k = cc
compare_text_trans [] (y ∷ b) c h k = cc
compare_text_trans (x ∷ a) [] [] h k = cc
compare_text_trans (x ∷ a) [] (z ∷ c) h k = cc
compare_text_trans (x ∷ a) (y ∷ b) [] h k = refl
compare_text_trans (x ∷ a) (y ∷ b) (z ∷ c) h k = ground (arith, compare_text_trans a b c)

compare_text-eq : (a b : List ℕ) → compare_text a b ≡ Ordering.eq → a ≡ b
unfolding compare_text
compare_text-eq [] [] h = refl
compare_text-eq [] (y ∷ b) h = cc
compare_text-eq (x ∷ a) [] h = cc
compare_text-eq (x ∷ a) (y ∷ b) h = ground (arith, compare_text-eq a b)

compare_text_refl : (a : List ℕ) → compare_text a a ≡ Ordering.eq
unfolding compare_text
compare_text_refl [] = refl
compare_text_refl (x ∷ a) = ground (arith, compare_text_refl a)

pub strcmp-swap : (a b : List ℕ) → strcmp a b ≡ Ordering.gt → strcmp b a ≡ Ordering.lt
unfolding strcmp
strcmp-swap a b h = compare_text-swap (cstr a) (cstr b) h

pub strcmp_trans :
    (a b c : List ℕ)
    → strcmp a b ≡ Ordering.gt
    → strcmp b c ≡ Ordering.gt
    → strcmp a c ≡ Ordering.gt
unfolding strcmp
strcmp_trans a b c h k = compare_text_trans (cstr a) (cstr b) (cstr c) h k

pub strcmp-eq : (a b : List ℕ) → strcmp a b ≡ Ordering.eq → cstr a ≡ cstr b
unfolding strcmp
strcmp-eq a b h = compare_text-eq (cstr a) (cstr b) h

-- `strcmp` returns 0 exactly at equal strings.
pub same_text→eq : (a b : List ℕ) → same_text a b ≡ true → cstr a ≡ cstr b
unfolding same_text
same_text→eq a b h = ground (arith, strcmp-eq a b)

pub same_text_of_eq : (a b : List ℕ) → cstr a ≡ cstr b → same_text a b ≡ true
unfolding same_text strcmp
same_text_of_eq a b e = rw (same_text, e, compare_text_refl)

take-cstr : (t : List ℕ) → take (length (cstr t)) t ≡ cstr t
unfolding cstr
take-cstr [] = refl
take-cstr (c ∷ t) = elim (Bool-cases (c == 0)) [
  | inl e ↦ rw e refl
  | inr e ↦ rw e (ap (◌∷◌ c) (take-cstr t))
]

pub length-padding : (t : List ℕ) (n m : ℕ) → n ≤ m → length (take n (t ++ replicate m 0)) ≡ n
length-padding t zero m h = refl
length-padding [] (suc n) zero h = absurd (omega arith)
length-padding [] (suc n) (suc m) h = ap suc (length-padding [] n m (omega arith))
length-padding (c ∷ t) (suc n) m h = ap suc (length-padding t n m (omega arith))

drop_of_length : (n : ℕ) (xs : List ℕ) → length xs ≡ n → drop n xs ≡ []
drop_of_length zero [] h = refl
drop_of_length zero (x ∷ xs) h = absurd (omega arith)
drop_of_length (suc n) [] h = refl
drop_of_length (suc n) (x ∷ xs) h = drop_of_length n xs (omega arith)

-- `strncpy` by the size of the whole array fills the array.
length-strncpy : (dst src : List ℕ) (n : ℕ) → drop n dst ≡ [] → length (strncpy dst src n) ≡ n
unfolding strncpy
length-strncpy dst src n h = rw (h, append-nil) (length-padding (cstr src) n n (omega arith))

pub drop-strncpy : (dst src : List ℕ) (n : ℕ) → drop n dst ≡ [] → drop n (strncpy dst src n) ≡ []
drop-strncpy dst src n h = drop_of_length n _ (length-strncpy dst src n h)

cstr_nil : cstr [] ≡ []
unfolding cstr
cstr_nil = refl

-- What `strnlen` then measures is the source's string, cut to the array.
pub take-strnlen-strncpy :
    (dst src : List ℕ) (n : ℕ)
    → drop n dst ≡ []
    → take (strnlen (strncpy dst src n) n) (strncpy dst src n) ≡ take n (cstr src)
unfolding strnlen
take-strnlen-strncpy dst src n h =
    let whole : take n (strncpy dst src n) ≡ strncpy dst src n =
      take_all n _ (omega (arith, length-strncpy dst src n h)) in
    let ended : cstr (drop n dst) ≡ [] = rw h cstr_nil in
    rw whole (take-cstr (strncpy dst src n) ∙ cstr-strncpy dst src n ended)

take-append_exact : (n : ℕ) (xs ys : List ℕ) → length xs ≡ n → take n (xs ++ ys) ≡ xs
take-append_exact zero [] ys h = refl
take-append_exact zero (x ∷ xs) ys h = absurd (omega arith)
take-append_exact (suc n) [] ys h = absurd (omega arith)
take-append_exact (suc n) (x ∷ xs) ys h = ap (◌∷◌ x) (take-append_exact n xs ys (omega arith))

-- Whatever stood in the buffer, its first n bytes then hold the string cut to n bytes.
pub cstr-take-strncpy :
    (dst src : List ℕ) (n : ℕ) → cstr (take n (strncpy dst src n)) ≡ take n (cstr src)
unfolding strncpy
cstr-take-strncpy dst src n =
    ap cstr (
      take-append_exact n (take n (cstr src ++ replicate n 0)) (drop n dst)
        (length-padding (cstr src) n n (omega arith)))
    ∙ ap cstr (sym (append-nil (take n (cstr src ++ replicate n 0))))
    ∙ padded (cstr src) n n [] (cstr_no_nul src) (omega arith) cstr_nil

pub cstr-append-nul : (xs ys : List ℕ) → cstr (xs ++ 0 ∷ ys) ≡ cstr xs
unfolding cstr
cstr-append-nul [] ys = refl
cstr-append-nul (x ∷ xs) ys = ground (arith, cstr-append-nul xs ys)

no_nul-take : (n : ℕ) (t : List ℕ) → elem 0 t ≡ false → elem 0 (take n t) ≡ false
no_nul-take zero t h = refl
no_nul-take (suc n) [] h = refl
no_nul-take (suc n) (c ∷ t) h = ground (arith, no_nul-take n t)

-- `snprintf` with a "%s" writes the string cut to the room that is left beside the NUL.
pub cstr-snprintf_text :
    (dst : List ℕ) (n : ℕ) (src : List ℕ) → cstr (snprintf_text dst n src) ≡ take (n - 1) (cstr src)
unfolding snprintf_text
cstr-snprintf_text dst n src =
    cstr-append-nul (take (n - 1) (cstr src)) _
    ∙ cstr_of_no_nul (take (n - 1) (cstr src)) (no_nul-take (n - 1) (cstr src) (cstr_no_nul src))

length-take_min : (n : ℕ) (t : List ℕ) → length (take n t) ≤ n
length-take_min zero t = omega arith
length-take_min (suc n) [] = omega arith
length-take_min (suc n) (c ∷ t) = omega (arith, length-take_min n t)

length-drop_sub : (n : ℕ) (t : List ℕ) → length (drop n t) ≡ length t - n
length-drop_sub zero t = omega arith
length-drop_sub (suc n) [] = omega arith
length-drop_sub (suc n) (c ∷ t) = omega (arith, length-drop_sub n t)

-- It keeps to an array of n bytes.
pub length-snprintf_text :
    (dst : List ℕ) (n : ℕ) (src : List ℕ)
    → 0 < n
    → length dst ≡ n
    → length (snprintf_text dst n src) ≡ n
unfolding snprintf_text
length-snprintf_text dst n src h k =
    let text : List ℕ = take (n - 1) (cstr src) in
    omega (
      arith,
      length-append text (0 ∷ drop (suc (length text)) dst),
      length-drop_sub (suc (length text)) dst,
      length-take_min (n - 1) (cstr src),
    )

cstr-take-nul : (n : ℕ) (t r : List ℕ) → length t < n → cstr (take n (t ++ (0 ∷ r))) ≡ cstr t
unfolding cstr
cstr-take-nul zero t r h = absurd (omega arith)
cstr-take-nul (suc n) [] r h = refl
cstr-take-nul (suc n) (c ∷ t) r h = ground (arith, cstr-take-nul n t r)

-- The first n bytes hold the whole string, whatever stands in the array.
pub cstr-take-snprintf_text :
    (dst : List ℕ) (n : ℕ) (src : List ℕ)
    → 0 < n
    → cstr (take n (snprintf_text dst n src)) ≡ take (n - 1) (cstr src)
unfolding snprintf_text
cstr-take-snprintf_text dst n src h =
    let text : List ℕ = take (n - 1) (cstr src) in
    cstr-take-nul n text (drop (suc (length text)) dst)
      (omega (arith, length-take_min (n - 1) (cstr src)))
    ∙ cstr_of_no_nul text (no_nul-take (n - 1) (cstr src) (cstr_no_nul src))
