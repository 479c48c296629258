-- ===== src/Ota/Task.antt =====
-- components/ota-service/ota_service.c: one round of the loop of `ota_task`, from the semaphore to
-- the next wait. The stages stand in the order of the source, last stage first.
pub mod Quiet
pub mod Install
pub mod Cycle
pub mod Redirected
use gate_lock_home_node.Base.{
  ℕ, Bool, true, false, Option, none, some, List, EspErr, is_ok, eq_int, cstr, if◌then◌else◌,
}
use gate_lock_home_node.Ota.Types.{
  Ota, semaphore_take, set_url, client_open, client_perform, client_close, fetch_headers,
  get_status_code, ota_abort, ota_end, set_boot_partition, post_event, made, zeros,
  max_http_recv_buffer, err_ota_invalid_version, routine_event_reboot_required,
}
use gate_lock_home_node.Ota.Events.{HttpEvent, http_events}
use gate_lock_home_node.Ota.Manifest.{FetchEnv, fetch_ota_manifest}
use gate_lock_home_node.Ota.Version.{Description, is_update_available, detect_last_invalid_app}
use gate_lock_home_node.Ota.Download.{Round, download}

-- The answers of the outside to one round: the manifest's URL is set at build time, the header size
-- is that of the image format.
pub record CycleEnv : Type 0 where
  pub manifest_url : List ℕ
  pub header_size : ℕ
  pub fetch : FetchEnv
  pub last_invalid : Option Description
  pub running : Description
  pub performed : EspErr
  pub headers : List HttpEvent
  pub reopened : EspErr
  pub redirect_headers : List HttpEvent
  pub next_partition : Option ℕ
  pub rounds : List Round
  pub complete : Bool
  pub end_result : EspErr
  pub set_boot_result : EspErr

-- `esp_ota_end`, `esp_ota_set_boot_partition` and the event that asks for the reboot.
unfoldable pub install : CycleEnv → ℕ → Ota → Ota
install env partition s =
    let t : Ota = made (ota_end s.update_handle) s in
    let u : Ota = made (set_boot_partition partition) t in
    if is_ok env.end_result
    then (if is_ok env.set_boot_result
        then made (post_event routine_event_reboot_required) u
        else u)
    else made client_close t

-- What follows the download, by its result.
unfoldable pub after_download : CycleEnv → ℕ → Option (Bool × Ota) → Option Ota
unfolding install
after_download env partition none = none
after_download env partition (some (false, s)) = some s
after_download env partition (some (true, s)) = some (
    if env.complete
    then install env partition s
    else made (ota_abort s.update_handle) (made client_close s))

unfoldable pub to_partition : CycleEnv → Option ℕ → Ota → Option Ota
unfolding after_download
to_partition env none s = some s
to_partition env (some partition) s =
    after_download env partition (download env.header_size partition env.rounds false 0 s)

-- The address of the redirect is opened, and the buffer cleared for the firmware.
unfoldable pub open_redirect : Ota → Ota
open_redirect s =
    let t : Ota =
      made client_open (made (set_url (cstr s.response_buffer)) (made client_close s)) in
    record t { response_buffer = zeros max_http_recv_buffer }

-- `if (ota_service_state.expect_redirect==true)`.
unfoldable pub follow_redirect : CycleEnv → Bool → Ota → Option Ota
unfolding to_partition open_redirect
follow_redirect env false s = to_partition env env.next_partition s
follow_redirect env true s =
    let u : Ota = open_redirect s in
    if is_ok env.reopened
    then to_partition env env.next_partition
        (http_events env.redirect_headers (made fetch_headers (made get_status_code u)))
    else some (made client_close u)

unfoldable pub after_redirect : CycleEnv → Ota → Option Ota
unfolding follow_redirect
after_redirect env s = follow_redirect env s.expect_redirect s

-- The request for the firmware's URL.
unfoldable pub request_firmware : CycleEnv → Ota → Option Ota
unfolding after_redirect
request_firmware env s =
    let t : Ota =
      http_events env.headers
        (made client_perform (made (set_url (cstr s.manifest.firmware_url)) s)) in
    if is_ok env.performed
    then after_redirect env (made client_close t)
    else some (made client_close t)

-- The two tests of the version in the manifest.
unfoldable pub check_version : CycleEnv → Ota → Option Ota
unfolding request_firmware
check_version env s =
    if eq_int (detect_last_invalid_app env.last_invalid s.manifest.version) err_ota_invalid_version
    then some s
    else (if is_update_available env.running (some s.manifest.version)
        then request_firmware env s
        else some s)

unfoldable pub after_fetch : CycleEnv → Option (EspErr × Ota) → Option Ota
unfolding check_version
after_fetch env none = none
after_fetch env (some (err, s)) = if is_ok err then check_version env s else some s

-- The result of the wait for the semaphore is only logged. `none` means that the round does not end.
unfoldable pub ota_cycle : CycleEnv → Ota → Option Ota
unfolding after_fetch
ota_cycle env s =
    let t : Ota = made semaphore_take s in
    if s.validation_pending
    then some (record t { update_pending = true })
    else after_fetch env
        (fetch_ota_manifest env.fetch env.manifest_url (record t { update_pending = false }))
