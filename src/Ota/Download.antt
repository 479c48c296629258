-- ===== src/Ota/Download.antt =====
-- components/ota-service/ota_service.c: the loop of `ota_task` that reads the firmware and writes
-- it to the update partition.
pub mod Flash
use gate_lock_home_node.Base.{
  ℕ, zero, suc, ◌==◌, ltb, Bool, true, false, Option, none, some, List, [], ◌∷◌, EspErr, is_ok,
  length, if◌then◌else◌,
}
use gate_lock_home_node.Ota.Types.{
  Ota, client_read, client_close, ota_begin, ota_write, ota_abort, made, write_at,
  max_http_recv_buffer,
}

-- What one round meets: the result of the read (negative, or the bytes stored), then, as far as the
-- round asks for them, the results of `esp_ota_begin` with the handle that it makes and of
-- `esp_ota_write`, whether `errno` is ECONNRESET or ENOTCONN, and whether all data was received.
pub record Round : Type 0 where
  pub failed : Bool
  pub body : List ℕ
  pub begin_result : EspErr
  pub begin_handle : ℕ
  pub write_result : EspErr
  pub connection_lost : Bool
  pub complete : Bool

-- What a round decides: to stop with a value of `read_success`, or to go on with the values of
-- `image_header_was_checked` and `attempts`.
pub data Next : Type 0 where
  stop : Bool → Ota → Next
  go_on : Bool → ℕ → Ota → Next

-- The write of a chunk.
unfoldable pub write_chunk : Round → ℕ → Ota → Next
write_chunk r attempts s =
    let t : Ota = made (ota_write s.update_handle r.body) s in
    if is_ok r.write_result
    then go_on true attempts t
    else stop false (made (ota_abort s.update_handle) (made client_close t))

-- The first chunk has to hold the headers of the image; `header_size` is the size of the three
-- structures together.
unfoldable pub first_chunk : ℕ → ℕ → Round → ℕ → Ota → Next
unfolding write_chunk
first_chunk header_size partition r attempts s =
    let t : Ota = made (ota_begin partition) s in
    if ltb header_size (length r.body)
    then (if is_ok r.begin_result
        then write_chunk r attempts (record t { update_handle = r.begin_handle })
        else stop false (made client_close t))
    else stop false (made client_close s)

-- A read of no bytes: the first one is passed over.
unfoldable pub no_chunk : Round → Bool → ℕ → Ota → Next
no_chunk r checked zero s = go_on checked 1 s
no_chunk r checked (suc attempts) s =
    if r.connection_lost
    then stop false s
    else if r.complete
    then stop true s
    else go_on checked (suc attempts) s

unfoldable pub download_round : ℕ → ℕ → Round → Bool → ℕ → Ota → Next
unfolding first_chunk write_chunk no_chunk
download_round header_size partition r checked attempts s =
    let t : Ota = made (client_read max_http_recv_buffer) s in
    let u : Ota = record t { response_buffer = write_at s.response_buffer 0 r.body } in
    if r.failed
    then stop false (made client_close t)
    else if length r.body == 0
    then no_chunk r checked attempts t
    else if checked
    then write_chunk r attempts u
    else first_chunk header_size partition r attempts u

-- The loop over the rounds to come; `none` means that it is still running when they end.
unfoldable pub download : ℕ → ℕ → List Round → Bool → ℕ → Ota → Option (Bool × Ota)
download header_size partition [] checked attempts s = none
download header_size partition (r ∷ rs) checked attempts s =
    elim (download_round header_size partition r checked attempts s) [
      | stop success t ↦ some (success, t)
      | go_on checked' attempts' t ↦ download header_size partition rs checked' attempts' t
    ]
