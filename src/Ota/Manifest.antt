-- ===== src/Ota/Manifest.antt =====
-- components/ota-service/ota_service.c: `fetch_ota_manifest`.
pub mod Buffer
pub mod Loading
pub mod Fetch
pub mod Ending
use gate_lock_home_node.Base.{
  ℕ, ◌+◌, ◌-◌, ◌==◌, leb, Bool, false, Option, none, some, List, [], ◌∷◌, ℤ, pos, negsuc, EspErr,
  esp_ok, esp_fail, is_ok, eq_int, cstr, length, strncpy, if◌then◌else◌,
}
use Prim.Native.Nat.{◌%◌, ◌^◌}
use gate_lock_home_node.Ota.Types.{
  Ota, Manifest, set_url, client_open, client_close, fetch_headers, get_status_code, client_read,
  made, zeros, write_at, max_http_recv_buffer,
}
use gate_lock_home_node.Ota.Events.{HttpEvent, http_events}

-- An answer of `esp_http_client_read` to a request for some bytes: a negative result, or the bytes
-- that it stored; and what `esp_http_client_is_complete_data_received` says after it.
pub record Read : Type 0 where
  pub failed : Bool
  pub body : List ℕ
  pub complete : Bool

-- What cJSON finds in the text: the items that are strings, and the number `firmware_size`.
pub record Json : Type 0 where
  pub version : Option (List ℕ)
  pub firmware_url : Option (List ℕ)
  pub checksum : Option (List ℕ)
  pub firmware_size : Option ℤ

-- The answers of the outside to one fetch.
pub record FetchEnv : Type 0 where
  pub opened : EspErr
  pub headers : List HttpEvent
  pub reads : List (ℕ → Read)
  pub status_code : ℤ
  pub parse : List ℕ → Option Json

-- The loop `while (1)` over the answers to come; `none` means that it is still reading when they
-- end. The result is `err`, `total_read` and the state.
unfoldable pub read_manifest : List (ℕ → Read) → ℕ → Ota → Option (EspErr × ℕ × Ota)
read_manifest [] total_read s = none
read_manifest (read ∷ reads) total_read s =
    let room : ℕ = max_http_recv_buffer - total_read - 1 in
    let r : Read = read room in
    let t : Ota = made (client_read room) s in
    let total : ℕ = total_read + length r.body in
    let u : Ota = record t { response_buffer = write_at s.response_buffer total_read r.body } in
    let again = read_manifest reads total_read t in
    let more = read_manifest reads total u in
    if r.failed
    then some (esp_fail, total_read, t)
    else if length r.body == 0
    then (if r.complete then some (esp_ok, total_read, t) else again)
    else if leb (max_http_recv_buffer - 1) total
    then some (esp_ok, total, u)
    else more

abbrev pub copy_item : List ℕ → Option (List ℕ) → ℕ → List ℕ
copy_item field none n = field
copy_item field (some text) n = strncpy field text n

-- `manifest->firmware_size = jsz->valueint`: an int stored in a 32-bit size_t.
abbrev pub size_of_int : ℤ → ℕ
size_of_int (pos n) = n % 2 ^ 32
size_of_int (negsuc n) = (2 ^ 32 - 1 - n) % 2 ^ 32

abbrev pub copy_size : ℕ → Option ℤ → ℕ
copy_size size none = size
copy_size size (some n) = size_of_int n

unfoldable pub fill_manifest : Json → Manifest → Manifest
fill_manifest json m = record m {
  version = copy_item m.version json.version (64 - 1);
  firmware_url = copy_item m.firmware_url json.firmware_url (512 - 1);
  checksum = copy_item m.checksum json.checksum (65 - 1);
  firmware_size = copy_size m.firmware_size json.firmware_size;
}

-- What follows the loop: the terminating NUL, the status code, the JSON text and the close.
unfoldable pub parse_manifest : EspErr → Option Json → Ota → EspErr × Ota
unfolding fill_manifest
parse_manifest err none s = (esp_fail, s)
parse_manifest err (some json) s = (err, record s { manifest = fill_manifest json s.manifest })

unfoldable pub finish_fetch : FetchEnv → EspErr → ℕ → Ota → EspErr × Ota
unfolding parse_manifest
finish_fetch env err total_read s =
    let t : Ota =
      made get_status_code
        (record s { response_buffer = write_at s.response_buffer total_read (0 ∷ []) }) in
    let (e, u) =
      if eq_int env.status_code (pos 200)
      then parse_manifest err (env.parse (cstr t.response_buffer)) t
      else (esp_fail, t) in
    (e, made client_close u)

abbrev pub empty_manifest : Manifest
empty_manifest = record {
  version = zeros 64;
  firmware_url = zeros 512;
  checksum = zeros 65;
  firmware_size = 0;
  update_available = false;
}

unfoldable pub after_loop : FetchEnv → Option (EspErr × ℕ × Ota) → Option (EspErr × Ota)
unfolding finish_fetch
after_loop env none = none
after_loop env (some (err, total_read, s)) = some (finish_fetch env err total_read s)

-- The two `memset`s and the request.
unfoldable pub request_manifest : List ℕ → Ota → Ota
request_manifest manifest_url s = made client_open (
    made (set_url manifest_url)
      (record s { manifest = empty_manifest; response_buffer = zeros max_http_recv_buffer }))

-- Both pointers are those of static data in `ota_task`, so the test for NULL never holds.
unfoldable pub fetch_ota_manifest : FetchEnv → List ℕ → Ota → Option (EspErr × Ota)
unfolding after_loop read_manifest request_manifest
fetch_ota_manifest env manifest_url s =
    let t : Ota = request_manifest manifest_url s in
    if is_ok env.opened
    then after_loop env (read_manifest env.reads 0 (http_events env.headers (made fetch_headers t)))
    else some (env.opened, t)
