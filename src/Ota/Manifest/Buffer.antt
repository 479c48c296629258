-- ===== src/Ota/Manifest/Buffer.antt =====
-- The response buffer of components/ota-service/ota_service.c under writes at an offset.
use gate_lock_home_node.Base.{
  cstr-append-nul, ℕ, zero, suc, ◌+◌, ◌-◌, ◌≤◌, ◌≡◌, refl, ap, ◌∙◌, List, [], ◌∷◌, ◌++◌, arith,
  append_assoc, length, length-append, length-padding, take, drop, cstr, strncpy, replicate,
}
use gate_lock_home_node.Ota.Types.{Ota, write_at, zeros, max_http_recv_buffer}
use gate_lock_home_node.Ota.Events.{
  HttpEvent, on_header, other_event, http_event_handler, http_events,
}

length-take-le : (n : ℕ) (xs : List ℕ) → n ≤ length xs → length (take n xs) ≡ n
length-take-le zero xs h = refl
length-take-le (suc n) [] h = absurd (omega arith)
length-take-le (suc n) (x ∷ xs) h = ap suc (length-take-le n xs (omega arith))

length-drop : (n : ℕ) (xs : List ℕ) → length (drop n xs) ≡ length xs - n
length-drop zero xs = omega arith
length-drop (suc n) [] = omega arith
length-drop (suc n) (x ∷ xs) = omega (arith, length-drop n xs)

take-append : (n : ℕ) (xs ys : List ℕ) → length xs ≡ n → take n (xs ++ ys) ≡ xs
take-append zero [] ys h = refl
take-append zero (x ∷ xs) ys h = absurd (omega arith)
take-append (suc n) [] ys h = absurd (omega arith)
take-append (suc n) (x ∷ xs) ys h = ap (◌∷◌ x) (take-append n xs ys (omega arith))

-- A write that fits leaves the length of the array.
pub length-write_at :
    (buffer : List ℕ) (offset : ℕ) (bytes : List ℕ)
    → offset + length bytes ≤ length buffer
    → length (write_at buffer offset bytes) ≡ length buffer
unfolding write_at
length-write_at buffer offset bytes h = omega (
  arith,
  length-append (take offset buffer ++ bytes) (drop (offset + length bytes) buffer),
  length-append (take offset buffer) bytes,
  length-take-le offset buffer (omega arith),
  length-drop (offset + length bytes) buffer,
)

-- Up to its end, the array holds what stood before the offset and then the bytes written.
pub take-write_at :
    (buffer : List ℕ) (offset : ℕ) (bytes : List ℕ)
    → offset + length bytes ≤ length buffer
    → take (offset + length bytes) (write_at buffer offset bytes) ≡ take offset buffer ++ bytes
unfolding write_at
take-write_at buffer offset bytes h =
    take-append (offset + length bytes) (take offset buffer ++ bytes) _ (
      omega (
        arith,
        length-append (take offset buffer) bytes,
        length-take-le offset buffer (omega arith),
      ))

-- A NUL written at a place ends the string there.
pub cstr-write_at-nul :
    (buffer : List ℕ) (offset : ℕ)
    → cstr (write_at buffer offset (0 ∷ [])) ≡ cstr (take offset buffer)
unfolding write_at
cstr-write_at-nul buffer offset =
    ap cstr (append_assoc (take offset buffer) (0 ∷ []) _) ∙ cstr-append-nul (take offset buffer) _

pub length-zeros : (n : ℕ) → length (zeros n) ≡ n
unfolding zeros
length-zeros zero = refl
length-zeros (suc n) = ap suc (length-zeros n)

length-strncpy :
    (dst src : List ℕ) (n : ℕ) → n ≤ length dst → length (strncpy dst src n) ≡ length dst
unfolding strncpy
length-strncpy dst src n h = omega (
  arith,
  length-append (take n (cstr src ++ replicate n 0)) (drop n dst),
  length-padding (cstr src) n n (omega arith),
  length-drop n dst,
)

-- The events change neither the size of the buffer nor the manifest.
pub http_event_handler-keeps :
    (e : HttpEvent) (s : Ota)
    → length s.response_buffer ≡ max_http_recv_buffer
    → (length (http_event_handler e s).response_buffer ≡ max_http_recv_buffer)
      × ((http_event_handler e s).manifest ≡ s.manifest)
unfolding http_event_handler
http_event_handler-keeps other_event s h = (h, refl)
http_event_handler-keeps (on_header key value) s h =
    let copied = length-strncpy s.response_buffer value 1023 (omega arith) in
    ground (
      arith,
      copied,
      length-write_at (strncpy s.response_buffer value 1023) 1023 (0 ∷ []) (omega (arith, copied)),
    )

pub http_events-keeps :
    (es : List HttpEvent) (s : Ota)
    → length s.response_buffer ≡ max_http_recv_buffer
    → (length (http_events es s).response_buffer ≡ max_http_recv_buffer)
      × ((http_events es s).manifest ≡ s.manifest)
unfolding http_events
http_events-keeps [] s h = (h, refl)
http_events-keeps (e ∷ es) s h =
    let (sized, same) = http_event_handler-keeps e s h in
    let (sized', same') = http_events-keeps es (http_event_handler e s) sized in
    (sized', same' ∙ same)
