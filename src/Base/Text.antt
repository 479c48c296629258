-- ===== src/Base/Text.antt =====
-- C strings and character arrays: a `char *` or `char[n]` is its list of bytes, and a string ends
-- at the first NUL or at the end of the list.
use Prim.Native.Nat.{ℕ, suc, ◌-◌, compare, Ordering}
use Prim.Native.Char.{code}
use Prim.Native.String.{String}
use mathlib.Core.Bool.{Bool, true, false}
use mathlib.Core.List.{List, [], ◌∷◌, ◌++◌}
use gate_lock_home_node.Base.Tests.{◌==◌, if◌then◌else◌}
use gate_lock_home_node.Base.Lists.{length, take, drop, replicate}

-- The bytes of an ASCII literal.
abbrev pub codes : String → List ℕ
codes String.[] = []
codes (String.◌∷◌ c s) = code c ∷ codes s

-- The string that a `char *` points to: its bytes before the first NUL.
unfoldable pub cstr : List ℕ → List ℕ
cstr [] = []
cstr (c ∷ cs) = if c == 0 then [] else c ∷ cstr cs

-- strncpy(dst, src, n): the string of `src` cut to n bytes and padded with NULs to n bytes; the
-- rest of `dst` stays.
unfoldable pub strncpy : List ℕ → List ℕ → ℕ → List ℕ
strncpy dst src n = take n (cstr src ++ replicate n 0) ++ drop n dst

-- The sign of strcmp(a, b) at two strings without NULs, bytes compared unsigned.
unfoldable pub compare_text : List ℕ → List ℕ → Ordering
compare_text [] [] = Ordering.eq
compare_text [] (y ∷ ys) = Ordering.lt
compare_text (x ∷ xs) [] = Ordering.gt
compare_text (x ∷ xs) (y ∷ ys) = elim (compare x y) [
  | Ordering.lt ↦ Ordering.lt
  | Ordering.gt ↦ Ordering.gt
  | Ordering.eq ↦ compare_text xs ys
]

unfoldable pub strcmp : List ℕ → List ℕ → Ordering
unfolding compare_text cstr
strcmp a b = compare_text (cstr a) (cstr b)

-- `strcmp(a, b) == 0`.
unfoldable pub same_text : List ℕ → List ℕ → Bool
unfolding strcmp
same_text a b = elim (strcmp a b) [ Ordering.eq ↦ true | _ ↦ false ]

-- strnlen(s, n): the length of the string in the first n bytes.
unfoldable pub strnlen : List ℕ → ℕ → ℕ
unfolding cstr
strnlen s n = length (cstr (take n s))

-- snprintf(dst, n, "%s", src) with 0 < n: the string cut to n - 1 bytes and its NUL.
unfoldable pub snprintf_text : List ℕ → ℕ → List ℕ → List ℕ
unfolding cstr
snprintf_text dst n src =
    let text : List ℕ = take (n - 1) (cstr src) in text ++ (0 ∷ drop (suc (length text)) dst)
