-- ===== src/Base/Int.antt =====
-- The C type `int`, where a result can be negative, and ESP-IDF's error codes over it.
use Prim.Native.Nat.{ℕ}
use mathlib.Core.Path.{◌≡◌}
use mathlib.Core.Bool.{Bool, true, false}
use native.Mathlib.Omega.{arith}
use gate_lock_home_node.Base.Tests.{◌==◌}

-- `negsuc n` is -(n + 1).
pub data ℤ : Type 0 where
  pos : ℕ → ℤ
  negsuc : ℕ → ℤ

abbrev pub eq_int : ℤ → ℤ → Bool
eq_int (pos a) (pos b) = a == b
eq_int (negsuc a) (negsuc b) = a == b
eq_int (pos a) (negsuc b) = false
eq_int (negsuc a) (pos b) = false

abbrev pub EspErr : Type 0
EspErr = ℤ

-- ESP_OK, ESP_FAIL and ESP_ERR_INVALID_ARG of esp_err.h.
abbrev pub esp_ok : EspErr
esp_ok = pos 0

abbrev pub esp_fail : EspErr
esp_fail = negsuc 0

abbrev pub esp_err_invalid_arg : EspErr
esp_err_invalid_arg = pos 0x102

-- `err == ESP_OK`.
abbrev pub is_ok : EspErr → Bool
is_ok (pos n) = n == 0
is_ok (negsuc n) = false

pub is_ok→eq : (e : EspErr) → is_ok e ≡ true → e ≡ esp_ok
is_ok→eq (pos n) h = ground arith
is_ok→eq (negsuc n) h = cc

pub eq_int→eq : (a b : ℤ) → eq_int a b ≡ true → a ≡ b
eq_int→eq (pos a) (pos b) h = ground arith
eq_int→eq (negsuc a) (negsuc b) h = ground arith
eq_int→eq (pos a) (negsuc b) h = cc
eq_int→eq (negsuc a) (pos b) h = cc
