-- ===== src/Ota/Control.antt =====
-- components/ota-service/ota_service.c: what the other components call.
pub mod Pending
use gate_lock_home_node.Base.{
  ℕ, Bool, true, false, Option, none, some, EspErr, esp_ok, is_ok, ℤ, pos, eq_int, if◌then◌else◌,
}
use gate_lock_home_node.Ota.Types.{
  Ota, client_init, create_semaphore, create_task, register_event, post_event, semaphore_give,
  mark_app_valid, mark_app_invalid, made, err_ota_service_init_fail,
  err_ota_service_validation_pending, routine_event_reboot_required,
  routine_event_verification_pending,
}

unfoldable pub update_pending : Ota → Bool
update_pending s = s.update_pending

unfoldable pub ota_process_start : Ota → EspErr × Ota
ota_process_start s = (esp_ok, made semaphore_give s)

-- `esp_ota_mark_app_invalid_rollback_and_reboot` does not come back if it succeeds; the model goes
-- on behind it, as the source does if it fails.
unfoldable pub ota_set_valid : Bool → Ota → EspErr × Ota
unfolding ota_process_start update_pending
ota_set_valid true s =
    let t : Ota = made mark_app_valid s in
    (esp_ok, if update_pending t then (ota_process_start t).1 else t)
ota_set_valid false s = (esp_ok, made mark_app_invalid s)

-- pdFAIL of FreeRTOS, a BaseType_t.
abbrev pub pd_fail : ℤ
pd_fail = pos 0

-- The answers of the outside to `ota_service_init`: the client, the semaphore, the result of
-- `xTaskCreate` (a BaseType_t, negative where there is no memory), the result of `esp_ota_get_state_partition` and whether the state is
-- ESP_OTA_IMG_PENDING_VERIFY.
pub record InitEnv : Type 0 where
  pub new_client : Option ℕ
  pub new_semaphore : Option ℕ
  pub task_result : ℤ
  pub state_result : EspErr
  pub pending_verify : Bool

abbrev is_some : Option ℕ → Bool
is_some none = false
is_some (some _) = true

unfoldable pub check_running : InitEnv → Ota → EspErr × Ota
check_running env s =
    if is_ok env.state_result
    then (if env.pending_verify
        then (
          err_ota_service_validation_pending,
          made (post_event routine_event_verification_pending)
              (record s { validation_pending = true }),
        )
        else (esp_ok, s))
    else (esp_ok, s)

unfoldable pub ota_service_init : InitEnv → Ota → EspErr × Ota
unfolding check_running
ota_service_init env s =
    let t : Ota = made client_init (record s { client = env.new_client }) in
    let u : Ota = made create_semaphore (record t { start_update = env.new_semaphore }) in
    let v : Ota = made create_task u in
    let w : Ota =
      made (register_event routine_event_verification_pending)
        (made (register_event routine_event_reboot_required) v) in
    if is_some env.new_client
    then (if is_some env.new_semaphore
        then (if eq_int env.task_result pd_fail
            then (err_ota_service_init_fail, v)
            else check_running env w)
        else (err_ota_service_init_fail, u))
    else (err_ota_service_init_fail, t)
