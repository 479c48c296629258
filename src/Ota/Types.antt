-- ===== src/Ota/Types.antt =====
-- components/ota-service/ota_service.c and ota_service.h: the data of the update service, and the
-- calls that it makes on esp_http_client, esp_ota_ops, FreeRTOS and the event adapter.
use gate_lock_home_node.Base.{
  ℕ, Bool, Option, List, ◌∷◌, ◌++◌, ◌+◌, negsuc, pos, EspErr, take, drop, length, replicate,
}

abbrev pub max_http_recv_buffer : ℕ
max_http_recv_buffer = 1024

abbrev pub err_ota_service_init_fail : EspErr
err_ota_service_init_fail = negsuc 0

abbrev pub err_ota_service_validation_pending : EspErr
err_ota_service_validation_pending = pos 5

abbrev pub err_ota_invalid_version : EspErr
err_ota_invalid_version = negsuc 1

abbrev pub routine_event_reboot_required : ℕ
routine_event_reboot_required = 1

abbrev pub routine_event_verification_pending : ℕ
routine_event_verification_pending = 2

-- manifest_t: three character arrays of 64, 512 and 65 bytes.
pub record Manifest : Type 0 where
  pub version : List ℕ
  pub firmware_url : List ℕ
  pub checksum : List ℕ
  pub firmware_size : ℕ
  pub update_available : Bool

-- The calls, by their arguments. A partition, a client and an update are known by numbers.
pub data Call : Type 0 where
  semaphore_take semaphore_give : Call
  set_url : List ℕ → Call
  client_init client_open client_perform client_close fetch_headers get_status_code : Call
  client_read : ℕ → Call
  ota_begin : ℕ → Call
  ota_write : ℕ → List ℕ → Call
  ota_abort ota_end : ℕ → Call
  set_boot_partition : ℕ → Call
  mark_app_valid mark_app_invalid : Call
  post_event register_event : ℕ → Call
  create_semaphore create_task : Call

-- `ota_service_state`, the variable `update_handle` that lives in `ota_task`, and the calls made so
-- far, the newest first.
pub record Ota : Type 0 where
  pub start_update : Option ℕ
  pub validation_pending : Bool
  pub update_pending : Bool
  pub client : Option ℕ
  pub response_buffer : List ℕ
  pub manifest : Manifest
  pub data_len : ℕ
  pub expect_redirect : Bool
  pub update_handle : ℕ
  pub calls : List Call

abbrev pub made : Call → Ota → Ota
made c s = record s { calls = c ∷ s.calls }

-- n NULs, as `memset` writes them.
unfoldable pub zeros : ℕ → List ℕ
zeros n = replicate n 0

-- An array after bytes were written into it from a place on.
unfoldable pub write_at : List ℕ → ℕ → List ℕ → List ℕ
write_at buffer offset bytes = take offset buffer ++ bytes ++ drop (offset + length bytes) buffer
