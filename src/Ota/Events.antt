-- ===== src/Ota/Events.antt =====
-- components/ota-service/ota_service.c: the handler of the HTTP client's events, which keeps the
-- address of a redirect.
pub mod Redirect
use gate_lock_home_node.Base.{
  ℕ, ◌+◌, ◌-◌, Bool, true, false, ◌&&◌, List, [], ◌∷◌, ◌==◌, leb, if◌then◌else◌, codes, cstr,
  length, strncpy,
}
use gate_lock_home_node.Ota.Types.{Ota, max_http_recv_buffer, write_at}

-- An event of esp_http_client: a header of a response, or any other.
pub data HttpEvent : Type 0 where
  on_header : List ℕ → List ℕ → HttpEvent
  other_event : HttpEvent

abbrev pub to_lower : ℕ → ℕ
to_lower c = if leb b'A' c && leb c b'Z' then c + 32 else c

-- `strcasecmp(a, b) == 0` at strings without NULs.
unfoldable pub same_text_nocase : List ℕ → List ℕ → Bool
same_text_nocase [] [] = true
same_text_nocase [] (y ∷ ys) = false
same_text_nocase (x ∷ xs) [] = false
same_text_nocase (x ∷ xs) (y ∷ ys) = to_lower x == to_lower y && same_text_nocase xs ys

-- The value of the header cut to the buffer, with its terminating NUL.
unfoldable pub http_event_handler : HttpEvent → Ota → Ota
http_event_handler other_event s = s
http_event_handler (on_header key value) s =
    let buffer : List ℕ =
      write_at (strncpy s.response_buffer value (max_http_recv_buffer - 1))
        (max_http_recv_buffer - 1) (0 ∷ []) in
    if same_text_nocase (cstr key) (codes "Location")
    then record s {
      response_buffer = buffer;
      data_len = length (cstr buffer);
      expect_redirect = true;
    }
    else s

-- The events of one call on the client, in their order.
unfoldable pub http_events : List HttpEvent → Ota → Ota
http_events [] s = s
http_events (e ∷ es) s = http_events es (http_event_handler e s)
