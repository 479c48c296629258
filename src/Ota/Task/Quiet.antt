-- ===== src/Ota/Task/Quiet.antt =====
-- What the events and the fetch of components/ota-service/ota_service.c leave alone.
use gate_lock_home_node.Base.{
  ℕ, ◌≡◌, refl, ◌-◌, ◌+◌, inl, inr, Option, none, some, List, [], ◌∷◌, arith, EspErr, is_ok, cstr,
  length, Bool-cases, Option-cases,
}
use gate_lock_home_node.Ota.Types.{
  Ota, made, max_http_recv_buffer, write_at, client_read, fetch_headers,
}
use gate_lock_home_node.Ota.Events.{
  HttpEvent, on_header, other_event, http_event_handler, http_events,
}
use gate_lock_home_node.Ota.Manifest.{
  Read, FetchEnv, request_manifest, read_manifest, finish_fetch, after_loop, fetch_ota_manifest,
}
use gate_lock_home_node.Ota.Download.Flash.{flash, posts}

-- What stays under the events and the fetch: the calls on the flash and the posted events.
abbrev pub Quiet : Ota → Ota → Type 0
Quiet s t = (flash t.calls ≡ flash s.calls) × (posts t.calls ≡ posts s.calls)

pub http_events-Quiet :
    (es : List HttpEvent) (s : Ota)
    → ((http_events es s).calls ≡ s.calls) × ((http_events es s).manifest ≡ s.manifest)
unfolding http_events http_event_handler
http_events-Quiet [] s = (refl, refl)
http_events-Quiet (other_event ∷ es) s = http_events-Quiet es s
http_events-Quiet (on_header key value ∷ es) s =
    let (c, m) = http_events-Quiet es (http_event_handler (on_header key value) s) in ground arith

read_manifest-Quiet :
    (reads : List (ℕ → Read)) (total : ℕ) (s : Ota) (e : EspErr) (n : ℕ) (t : Ota)
    → read_manifest reads total s ≡ some (e, n, t)
    → Quiet s t
unfolding read_manifest flash
read_manifest-Quiet [] total s e n t h = cc
read_manifest-Quiet (read ∷ reads) total s e n t h =
    let room : ℕ = max_http_recv_buffer - total - 1 in
    let asked : Ota = made (client_read room) s in
    let body : List ℕ = (read room).body in
    ground (
      arith,
      read_manifest-Quiet reads total asked e n t,
      read_manifest-Quiet reads (total + length body)
          (record asked { response_buffer = write_at s.response_buffer total body }) e n t,
    )

finish_fetch-Quiet :
    (env : FetchEnv) (err : EspErr) (n : ℕ) (s : Ota) → Quiet s (finish_fetch env err n s).1
unfolding finish_fetch flash
finish_fetch-Quiet env err n s =
    elim (Option-cases (env.parse (cstr (write_at s.response_buffer n (0 ∷ []))))) [
      | inl e ↦ rw e (ground arith)
      | inr (j, e) ↦ rw e (ground arith)
    ]

pub fetch_ota_manifest-Quiet :
    (env : FetchEnv) (url : List ℕ) (s : Ota) (e : EspErr) (t : Ota)
    → fetch_ota_manifest env url s ≡ some (e, t)
    → Quiet s t
unfolding fetch_ota_manifest flash
fetch_ota_manifest-Quiet env url s e t h = elim (Bool-cases (is_ok env.opened)) [
  | inl ok ↦ loaded (read_manifest env.reads 0 start) refl (rw ok at h)
  | inr bad ↦ ground arith
]
  where
    requested : Ota
    requested = made fetch_headers (request_manifest url s)

    start : Ota
    start = http_events env.headers requested

    loaded :
        (o : Option (EspErr × ℕ × Ota))
        → read_manifest env.reads 0 start ≡ o
        → after_loop env o ≡ some (e, t)
        → Quiet s t
    loaded none k l = cc
    loaded (some (err, n, u)) k l = ground (
      arith,
      read_manifest-Quiet env.reads 0 start err n u,
      finish_fetch-Quiet env err n u,
      http_events-Quiet env.headers requested,
    )
