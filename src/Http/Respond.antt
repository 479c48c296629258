-- ===== src/Http/Respond.antt =====
-- components/http-server/http_server.c: the responses that are sent at once, each call's result
-- checked or ignored as in the source.
pub mod Issued
use gate_lock_home_node.Base.{
  ℕ, Option, none, some, List, ◌∷◌, EspErr, ℤ, pos, esp_ok, esp_err_invalid_arg, is_ok, eq_int,
  codes, cstr, take, if◌then◌else◌,
}
use Prim.Native.String.{String}
use gate_lock_home_node.Http.Types.{
  Call, resp_set_status, resp_set_type, resp_set_hdr, resp_send_chunk, resp_send, Status, status,
  code_error, Httpd, Server,
}

-- A function of http_server.c runs on the server's static data.
abbrev pub M : Type 0 → Type 0 → Type 0
M S A = Server S → A × Server S

infixl 5 ◌>>=◌ ◌>>◌
abbrev pub ◌>>=◌ : {S A B : Type 0} → M S A → (A → M S B) → M S B
◌>>=◌ m f s = f (m s).0 (m s).1

abbrev pub ◌>>◌ : {S A B : Type 0} → M S A → M S B → M S B
◌>>◌ m k s = k (m s).1

abbrev pub return : {S A : Type 0} → A → M S A
return a s = (a, s)

-- `error_msg ? error_msg : …`, as the bytes that `strlen` counts.
unfoldable pub message : Option (List ℕ) → String → List ℕ
message none default = codes default
message (some msg) default = cstr msg

-- The `switch` on the status code.
unfoldable pub status_text : ℤ → Status
status_text code =
    if eq_int code (pos 400)
    then status "400 Bad Request"
    else if eq_int code (pos 401)
    then status "401 Unauthorized"
    else if eq_int code (pos 403)
    then status "403 Forbidden"
    else if eq_int code (pos 404)
    then status "404 Not Found"
    else if eq_int code (pos 405)
    then status "405 Method Not Allowed"
    else if eq_int code (pos 500)
    then status "500 Internal Server Error"
    else if eq_int code (pos 503)
    then status "503 Service Unavailable"
    else code_error code

module _ {S : Type 0} (env : Httpd) where
  -- One call on esp_http_server.
  abbrev pub call : Call → M S EspErr
  call c s = (env.answer s.calls c, record s { calls = c ∷ s.calls })

  -- `ret = c; if (ret != ESP_OK) return ret;` before the rest.
  abbrev pub call_or_return : Call → M S EspErr → M S EspErr
  call_or_return c k s =
      if is_ok (env.answer s.calls c)
      then k (record s { calls = c ∷ s.calls })
      else (env.answer s.calls c, record s { calls = c ∷ s.calls })

  -- The request handle is an `async_slot_t *`; no result of a call is looked at.
  unfoldable pub http_server_send_response : Option ℕ → Option (List ℕ) → M S EspErr
  http_server_send_response none body s = (esp_err_invalid_arg, s)
  http_server_send_response (some slot) none s = (esp_err_invalid_arg, s)
  http_server_send_response (some slot) (some body) s =
      let request : ℕ = (s.async_objs slot).req in
      (do
        call (resp_set_type request "text/plain")
        call (resp_set_hdr request "Cache-Control" "no-cache")
        call (resp_set_hdr request "Connection" "close")
        call (resp_send_chunk request (some (cstr (env.uri_of request))))
        call (resp_send_chunk request (some (codes ": ")))
        call (resp_send_chunk request (some (cstr body)))
        call (resp_send_chunk request none)
        return esp_ok)
        s

  -- Here the request handle is the `httpd_req_t *` itself.
  unfoldable pub http_server_send_error : Option ℕ → Option (List ℕ) → M S EspErr
  http_server_send_error none error_msg = return esp_err_invalid_arg
  http_server_send_error (some request) error_msg =
      call_or_return (resp_set_status request (status "404 Not Found")) (
        call_or_return (resp_set_type request "text/plain") (
          call_or_return (resp_set_hdr request "Cache-Control" "no-cache")
            (call (resp_send request (message error_msg "Resource not found")))))

  unfoldable pub relay_server_send_json_response : Option ℕ → Option (List ℕ) → ℕ → M S EspErr
  relay_server_send_json_response none json_data len = return esp_err_invalid_arg
  relay_server_send_json_response (some req) none len = return esp_err_invalid_arg
  relay_server_send_json_response (some req) (some json_data) len =
      call_or_return (resp_set_type req "application/json") (
        call_or_return (resp_set_hdr req "Cache-Control" "no-cache")
          (call (resp_send req (take len json_data))))

  unfoldable pub http_server_send_html_response : Option ℕ → Option (List ℕ) → ℕ → M S EspErr
  http_server_send_html_response none html_data len = return esp_err_invalid_arg
  http_server_send_html_response (some req) none len = return esp_err_invalid_arg
  http_server_send_html_response (some req) (some html_data) len =
      call_or_return (resp_set_type req "text/html; charset=utf-8") (
        call_or_return (resp_set_hdr req "Cache-Control" "no-cache")
          (call (resp_send req (take len html_data))))

  unfoldable pub http_server_send_status_error : Option ℕ → ℤ → Option (List ℕ) → M S EspErr
  http_server_send_status_error none status_code error_msg = return esp_err_invalid_arg
  http_server_send_status_error (some req) status_code error_msg =
      call_or_return (resp_set_status req (status_text status_code)) (
        call_or_return (resp_set_type req "text/plain") (
          call_or_return (resp_set_hdr req "Cache-Control" "no-cache")
            (call (resp_send req (message error_msg "An error occurred")))))
