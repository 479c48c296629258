-- ===== src/Examples/Control.antt =====
-- The theorems on the versions, the redirects and the other functions of
-- components/ota-service/ota_service.c, applied to the same update.
use gate_lock_home_node.Base.{
  Ordering, pos, ◌≡◌, ◌≢◌, ◌↔◌, ◌⊎◌, refl, true, false, none, some, [], ◌∷◌, arith, esp_ok, codes,
  cstr, is_ok, strcmp,
}
use gate_lock_home_node.Ota.Types.{
  Ota, semaphore_take, semaphore_give, mark_app_valid, err_ota_invalid_version,
  err_ota_service_init_fail, err_ota_service_validation_pending,
}
use gate_lock_home_node.Ota.Events.{on_header, http_event_handler, same_text_nocase}
use gate_lock_home_node.Ota.Events.Redirect.{http_event_handler-location}
use gate_lock_home_node.Ota.Version.{is_update_available, detect_last_invalid_app}
use gate_lock_home_node.Ota.Version.Order.{
  is_update_available_order, detect_last_invalid_app_iff, later_version_refused,
}
use gate_lock_home_node.Ota.Task.{ota_cycle}
use gate_lock_home_node.Ota.Control.{InitEnv, pd_fail, ota_set_valid, ota_service_init}
use gate_lock_home_node.Ota.Control.Pending.{ota_set_valid_blocked, ota_service_init_result}
use gate_lock_home_node.Examples.Update.{idle, version_of, cycle}

is_newer : is_update_available (version_of (codes "1.0")) (some (codes "1.1")) ≡ true
unfolding is_update_available strcmp cstr
is_newer = refl

is_newest : is_update_available (version_of (codes "1.1")) (some (codes "1.2")) ≡ true
unfolding is_update_available strcmp cstr
is_newest = refl

is_update_available_order_example :
    (is_update_available (version_of (codes "1.0")) (some (codes "1.2")) ≡ true)
    × (strcmp (codes "1.1") (codes "1.0") ≡ Ordering.gt)
    × (strcmp (codes "1.2") (codes "1.1") ≡ Ordering.gt)
    × (strcmp (codes "1.2") (codes "1.0") ≡ Ordering.gt)
    × (is_update_available (version_of (codes "1.1")) (some (codes "1.0")) ≡ false)
    × (is_update_available (version_of (codes "1.2")) (some (codes "1.1")) ≡ false)
    × (is_update_available (version_of (codes "1.2")) (some (codes "1.0")) ≡ false)
is_update_available_order_example =
    is_update_available_order (version_of (codes "1.0")) (version_of (codes "1.1"))
      (version_of (codes "1.2")) is_newer is_newest

detect_last_invalid_app_iff_example :
    (detect_last_invalid_app (some (version_of (codes "1.1"))) (codes "1.1")
      ≡ err_ota_invalid_version)
    ↔ ((is_ok esp_ok ≡ true) × (cstr (codes "1.1") ≡ cstr (codes "1.1")))
detect_last_invalid_app_iff_example =
    detect_last_invalid_app_iff (some (version_of (codes "1.1"))) (codes "1.1")

-- Version 10.0 while 9.0 runs.
later_version_refused_example :
    is_update_available (version_of (codes "9.0")) (some (codes "10.0")) ≡ false
later_version_refused_example =
    later_version_refused (version_of (codes "9.0")) 57 (codes ".0") (codes "0.0") (omega arith)
      refl

-- An update that waits for the verification.
abbrev waiting : Ota
waiting = record idle { validation_pending = true; update_pending = true }

ota_set_valid_blocked_example :
    ota_cycle cycle (ota_set_valid true waiting).1
    ≡ some (record waiting { calls = semaphore_take ∷ semaphore_give ∷ mark_app_valid ∷ [] })
ota_set_valid_blocked_example = ota_set_valid_blocked cycle waiting refl refl

abbrev fresh : InitEnv
fresh = record {
  new_client = some 1;
  new_semaphore = some 2;
  task_result = pos 1;
  state_result = esp_ok;
  pending_verify = true;
}

ota_service_init_result_example :
    let (r, t) = ota_service_init fresh idle in
    ((r ≡ err_ota_service_init_fail) ↔ (
      (fresh.new_client ≡ none) ⊎ ((fresh.new_semaphore ≡ none) ⊎ (fresh.task_result ≡ pd_fail))))
    × ((r ≡ err_ota_service_validation_pending) ↔ (
        (r ≢ err_ota_service_init_fail)
        × (is_ok fresh.state_result ≡ true)
        × (fresh.pending_verify ≡ true)))
    × ((t.validation_pending ≡ true)
        ↔ ((idle.validation_pending ≡ true) ⊎ (r ≡ err_ota_service_validation_pending)))
ota_service_init_result_example = ota_service_init_result fresh idle

is_location : same_text_nocase (cstr (codes "location")) (codes "Location") ≡ true
unfolding same_text_nocase cstr
is_location = refl

http_event_handler-location_example :
    let t = http_event_handler (on_header (codes "location") (codes "http://a/b")) idle in
    (cstr t.response_buffer ≡ codes "http://a/b") × (t.data_len ≡ 10) × (t.expect_redirect ≡ true)
unfolding cstr
http_event_handler-location_example =
    http_event_handler-location (codes "location") (codes "http://a/b") idle is_location
