-- ===== src/Ota/Version/Order.antt =====
-- The versions of components/ota-service/ota_service.c as an order.
use gate_lock_home_node.Base.{
  ℕ, ◌≡◌, ◌↔◌, refl, true, false, Option, none, some, List, ◌∷◌, arith, is_ok, Ordering, cstr,
  strcmp, strcmp-swap, strcmp_trans, same_text→eq, same_text_of_eq, ◌<◌,
}
use gate_lock_home_node.Ota.Types.{err_ota_invalid_version}
use gate_lock_home_node.Ota.Version.{Description, is_update_available, detect_last_invalid_app}

-- An update is offered only by a version that is greater, as `strcmp` orders texts.
pub is_update_available-gt :
    (running : Description) (new : List ℕ)
    → is_update_available running (some new) ≡ true
    → strcmp new running.version ≡ Ordering.gt
unfolding is_update_available
is_update_available-gt running new h = ground arith

-- If a running version is updated to a new one, then once the new version runs, the one left
-- behind is not offered as an update.
is_update_available_asymm :
    (running later : Description) (new : List ℕ)
    → is_update_available running (some new) ≡ true
    → later.version ≡ new
    → is_update_available later (some running.version) ≡ false
unfolding is_update_available
is_update_available_asymm running later new h e =
    ground (arith, is_update_available-gt running new, strcmp-swap new running.version)

-- If a middle version is an update of the running one, and a new version is an update of the
-- middle one, then the new version is an update of the running one.
is_update_available_trans :
    (running middle : Description) (new : List ℕ)
    → is_update_available running (some middle.version) ≡ true
    → is_update_available middle (some new) ≡ true
    → is_update_available running (some new) ≡ true
unfolding is_update_available
is_update_available_trans running middle new h k = ground (
  arith,
  is_update_available-gt running middle.version,
  is_update_available-gt middle new,
  strcmp_trans new middle.version running.version,
)

-- If a middle version is an update of an old one, and a late version an update of the middle one,
-- then the late version is an update of the old one, each is greater than those before it, as
-- `strcmp` orders texts, and neither the middle nor the late version offers one that was left behind.
pub is_update_available_order :
    (old middle late : Description)
    → is_update_available old (some middle.version) ≡ true
    → is_update_available middle (some late.version) ≡ true
    → (is_update_available old (some late.version) ≡ true)
      × (strcmp middle.version old.version ≡ Ordering.gt)
      × (strcmp late.version middle.version ≡ Ordering.gt)
      × (strcmp late.version old.version ≡ Ordering.gt)
      × (is_update_available middle (some old.version) ≡ false)
      × (is_update_available late (some middle.version) ≡ false)
      × (is_update_available late (some old.version) ≡ false)
is_update_available_order old middle late h k =
    let skip = is_update_available_trans old middle late.version h k in
    (
      skip,
      is_update_available-gt old middle.version h,
      is_update_available-gt middle late.version k,
      is_update_available-gt old late.version skip,
      is_update_available_asymm old middle middle.version h refl,
      is_update_available_asymm middle late late.version k refl,
      is_update_available_asymm old late late.version skip refl,
    )

invalid_app_same :
    (invalid : Description) (new : List ℕ)
    → detect_last_invalid_app (some invalid) new ≡ err_ota_invalid_version
    → (is_ok invalid.result ≡ true) × (cstr invalid.version ≡ cstr new)
unfolding detect_last_invalid_app
invalid_app_same invalid new h = ground (arith, same_text→eq invalid.version new)

-- The last invalid partition can be read and holds the version.
abbrev Refused : Option Description → List ℕ → Type 0
Refused none new = ⊥
Refused (some invalid) new = (is_ok invalid.result ≡ true) × (cstr invalid.version ≡ cstr new)

-- A version is refused exactly if there is a last invalid partition, it can be read, and it holds
-- that version; where there is none, no version is refused.
pub detect_last_invalid_app_iff :
    (last : Option Description) (new : List ℕ)
    → (detect_last_invalid_app last new ≡ err_ota_invalid_version) ↔ Refused last new
unfolding detect_last_invalid_app
detect_last_invalid_app_iff none new = (λ h. ground arith, λ h. absurd h)
detect_last_invalid_app_iff (some invalid) new =
    (invalid_app_same invalid new, λ h. ground (arith, same_text_of_eq invalid.version new))

-- Versions are compared as texts: while a version runs whose first character is greater than the
-- digit 1, no version that begins with the digit 1 is offered, as 10.0 while 9.0 runs.
pub later_version_refused :
    (running : Description) (digit : ℕ) (old new : List ℕ)
    → b'1' < digit
    → running.version ≡ digit ∷ old
    → is_update_available running (some (b'1' ∷ new)) ≡ false
unfolding is_update_available strcmp
later_version_refused running digit old new h e = ground arith
