-- ===== src/Ota/Events/Redirect.antt =====
-- The address of a redirect in components/ota-service/ota_service.c, from the header to the request.
use gate_lock_home_node.Base.{
  ℕ, ◌≡◌, refl, ap, ◌∙◌, true, false, List, [], ◌∷◌, length, take, cstr, codes, strncpy,
  cstr-take-strncpy,
}
use gate_lock_home_node.Ota.Types.{Ota, write_at}
use gate_lock_home_node.Ota.Manifest.Buffer.{cstr-write_at-nul}
use gate_lock_home_node.Ota.Events.{on_header, http_event_handler, same_text_nocase}

-- A header "Location", in any case of its letters, leaves the address cut to 1023 bytes in the
-- buffer as a string, its length in `data_len`, and the mark that a redirect is expected.
pub http_event_handler-location :
    (key value : List ℕ) (s : Ota)
    → same_text_nocase (cstr key) (codes "Location") ≡ true
    → let t = http_event_handler (on_header key value) s in
      (cstr t.response_buffer ≡ take 1023 (cstr value))
      × (t.data_len ≡ length (take 1023 (cstr value)))
      × (t.expect_redirect ≡ true)
unfolding http_event_handler
http_event_handler-location key value s h =
    let text : cstr (write_at (strncpy s.response_buffer value 1023) 1023 (0 ∷ []))
        ≡ take 1023 (cstr value) =
      cstr-write_at-nul (strncpy s.response_buffer value 1023) 1023
      ∙ cstr-take-strncpy s.response_buffer value 1023 in
    rw h (text, ap length text, refl)

-- Any other header changes nothing.
pub http_event_handler-other :
    (key value : List ℕ) (s : Ota)
    → same_text_nocase (cstr key) (codes "Location") ≡ false
    → http_event_handler (on_header key value) s ≡ s
unfolding http_event_handler
http_event_handler-other key value s h = rw h
