-- ===== src/Ota/Version.antt =====
-- components/ota-service/ota_service.c: `is_update_available` and `detect_last_invalid_app`.
pub mod Order
use gate_lock_home_node.Base.{
  ℕ, Bool, true, false, Option, none, some, List, [], ◌∷◌, EspErr, esp_ok, esp_fail, is_ok,
  Ordering, cstr, strcmp, same_text, if◌then◌else◌,
}
use gate_lock_home_node.Ota.Types.{err_ota_invalid_version}

-- The answer of `esp_ota_get_partition_description`: its result, and the field `version`.
pub record Description : Type 0 where
  pub result : EspErr
  pub version : List ℕ

abbrev is_empty : List ℕ → Bool
is_empty [] = true
is_empty (_ ∷ _) = false

abbrev pub is_gt : Ordering → Bool
is_gt Ordering.gt = true
is_gt Ordering.eq = false
is_gt Ordering.lt = false

unfoldable pub is_update_available : Description → Option (List ℕ) → Bool
unfolding cstr
is_update_available running none = false
is_update_available running (some new_version) =
    if is_empty (cstr new_version)
    then false
    else if is_ok running.result
    then is_gt (strcmp new_version running.version)
    else false

unfoldable pub detect_last_invalid_app : Option Description → List ℕ → EspErr
detect_last_invalid_app none new_version = esp_ok
detect_last_invalid_app (some invalid) new_version =
    if is_ok invalid.result
    then (if same_text invalid.version new_version then err_ota_invalid_version else esp_ok)
    else esp_fail
