-- ===== src/Ota/Task/Redirected.antt =====
-- The mark `expect_redirect` of components/ota-service/ota_service.c through a round of `ota_task`.
use gate_lock_home_node.Base.{
  ℕ, zero, suc, ◌-◌, ◌+◌, ◌≡◌, refl, Bool, true, false, Option, none, some, List, [], ◌∷◌, arith,
  EspErr, is_ok, cstr, length, Option-cases, Bool-cases, inl, inr, ap, sym, ◌∙◌,
}
use gate_lock_home_node.Ota.Types.{
  Ota, made, semaphore_take, client_read, fetch_headers, get_status_code, client_perform,
  client_close, set_url, max_http_recv_buffer, write_at,
}
use gate_lock_home_node.Ota.Events.{
  HttpEvent, on_header, other_event, http_event_handler, http_events,
}
use gate_lock_home_node.Ota.Manifest.{
  Read, FetchEnv, request_manifest, read_manifest, finish_fetch, after_loop, fetch_ota_manifest,
}
use gate_lock_home_node.Ota.Download.{Round, Next, stop, go_on, download_round, download}
use gate_lock_home_node.Ota.Task.{
  CycleEnv, after_download, to_partition, open_redirect, follow_redirect, after_redirect,
  request_firmware, check_version, ota_cycle,
}

http_events-redirected :
    (es : List HttpEvent) (s : Ota)
    → s.expect_redirect ≡ true
    → (http_events es s).expect_redirect ≡ true
unfolding http_events http_event_handler
http_events-redirected [] s h = h
http_events-redirected (other_event ∷ es) s h = http_events-redirected es s h
http_events-redirected (on_header key value ∷ es) s h =
    http_events-redirected es (http_event_handler (on_header key value) s) (ground arith)

read_manifest-redirected :
    (reads : List (ℕ → Read)) (total : ℕ) (s : Ota) (e : EspErr) (n : ℕ) (t : Ota)
    → read_manifest reads total s ≡ some (e, n, t)
    → t.expect_redirect ≡ s.expect_redirect
unfolding read_manifest
read_manifest-redirected [] total s e n t h = cc
read_manifest-redirected (read ∷ reads) total s e n t h =
    let room : ℕ = max_http_recv_buffer - total - 1 in
    let asked : Ota = made (client_read room) s in
    let body : List ℕ = (read room).body in
    ground (
      arith,
      read_manifest-redirected reads total asked e n t,
      read_manifest-redirected reads (total + length body)
          (record asked { response_buffer = write_at s.response_buffer total body }) e n t,
    )

finish_fetch-redirected :
    (env : FetchEnv) (err : EspErr) (n : ℕ) (s : Ota)
    → (finish_fetch env err n s).1.expect_redirect ≡ s.expect_redirect
unfolding finish_fetch
finish_fetch-redirected env err n s =
    elim (Option-cases (env.parse (cstr (write_at s.response_buffer n (0 ∷ []))))) [
      | inl e ↦ rw e (ground arith)
      | inr (j, e) ↦ rw e (ground arith)
    ]

fetch_ota_manifest-redirected :
    (env : FetchEnv) (url : List ℕ) (s : Ota) (e : EspErr) (t : Ota)
    → fetch_ota_manifest env url s ≡ some (e, t)
    → s.expect_redirect ≡ true
    → t.expect_redirect ≡ true
unfolding fetch_ota_manifest
fetch_ota_manifest-redirected env url s e t h k = elim (Bool-cases (is_ok env.opened)) [
  | inl ok ↦ loaded (read_manifest env.reads 0 start) refl (rw ok at h)
  | inr bad ↦ ground arith
]
  where
    requested : Ota
    requested = made fetch_headers (request_manifest url s)

    start : Ota
    start = http_events env.headers requested

    loaded :
        (o : Option (EspErr × ℕ × Ota))
        → read_manifest env.reads 0 start ≡ o
        → after_loop env o ≡ some (e, t)
        → t.expect_redirect ≡ true
    loaded none i l = cc
    loaded (some (err, n, u)) i l = ground (
      arith,
      read_manifest-redirected env.reads 0 start err n u,
      finish_fetch-redirected env err n u,
      http_events-redirected env.headers requested,
    )

abbrev KeepsMark : Ota → Next → Type 0
KeepsMark s (stop b t) = t.expect_redirect ≡ s.expect_redirect
KeepsMark s (go_on c a t) = t.expect_redirect ≡ s.expect_redirect

download_round-mark :
    (n p : ℕ) (r : Round) (checked : Bool) (attempts : ℕ) (s : Ota)
    → KeepsMark s (download_round n p r checked attempts s)
unfolding download_round
download_round-mark n p r checked zero s = ground arith
download_round-mark n p r checked (suc attempts) s = ground arith

download-redirected :
    (n p : ℕ) (rs : List Round) (checked : Bool) (attempts : ℕ) (s : Ota) (b : Bool) (t : Ota)
    → download n p rs checked attempts s ≡ some (b, t)
    → t.expect_redirect ≡ s.expect_redirect
unfolding download
download-redirected n p [] checked attempts s b t h = cc
download-redirected n p (r ∷ rs) checked attempts s b t h =
    later (download_round n p r checked attempts s) refl
      (download_round-mark n p r checked attempts s) (λ c a u. download-redirected n p rs c a u b t)
  where
    later :
        (next : Next)
        → download_round n p r checked attempts s ≡ next
        → KeepsMark s next
        → ((c : Bool) (a : ℕ) (u : Ota)
            → download n p rs c a u ≡ some (b, t)
            → t.expect_redirect ≡ u.expect_redirect)
        → t.expect_redirect ≡ s.expect_redirect
    later (stop c u) e k ih = ground arith
    later (go_on c a u) e k ih = ground (arith, ih c a u)

after_download-redirected :
    (env : CycleEnv) (p : ℕ) (b : Bool) (s t : Ota)
    → after_download env p (some (b, s)) ≡ some t
    → t.expect_redirect ≡ s.expect_redirect
unfolding after_download
after_download-redirected env p true s t h = ground arith
after_download-redirected env p false s t h = ground arith

to_partition-redirected :
    (env : CycleEnv) (o : Option ℕ) (s t : Ota)
    → to_partition env o s ≡ some t
    → t.expect_redirect ≡ s.expect_redirect
unfolding to_partition
to_partition-redirected env none s t h = ground arith
to_partition-redirected env (some p) s t h =
    elim (Option-cases (download env.header_size p env.rounds false 0 s)) [
      | inl e ↦ absurd (ground arith)
      | inr ((b, u), e) ↦
          after_download-redirected env p b u t (ap (after_download env p) (sym e) ∙ h)
          ∙ download-redirected env.header_size p env.rounds false 0 s b u e
    ]

follow_redirect-redirected :
    (env : CycleEnv) (b : Bool) (s t : Ota)
    → s.expect_redirect ≡ true
    → follow_redirect env b s ≡ some t
    → t.expect_redirect ≡ true
unfolding follow_redirect
follow_redirect-redirected env false s t k h =
    to_partition-redirected env env.next_partition s t h ∙ k
follow_redirect-redirected env true s t k h =
    let u : Ota = made fetch_headers (made get_status_code (open_redirect s)) in
    let asked : Ota = http_events env.redirect_headers u in
    ground (
      arith,
      to_partition-redirected env env.next_partition asked t,
      http_events-redirected env.redirect_headers u,
    )

check_version-redirected :
    (env : CycleEnv) (s t : Ota)
    → s.expect_redirect ≡ true
    → check_version env s ≡ some t
    → t.expect_redirect ≡ true
unfolding check_version request_firmware after_redirect
check_version-redirected env s t k h =
    let asked : Ota = made client_perform (made (set_url (cstr s.manifest.firmware_url)) s) in
    let u : Ota = http_events env.headers asked in
    ground (
      arith,
      follow_redirect-redirected env u.expect_redirect (made client_close u) t,
      http_events-redirected env.headers asked,
    )

-- No round resets the mark that a redirect is expected: if it is set when a round begins, and the
-- round ends, it is still set, so that every later request for a firmware is treated as redirected.
pub ota_cycle-redirected :
    (env : CycleEnv) (s t : Ota)
    → s.expect_redirect ≡ true
    → ota_cycle env s ≡ some t
    → t.expect_redirect ≡ true
unfolding ota_cycle
ota_cycle-redirected env s t k h =
    fetched (fetch_ota_manifest env.fetch env.manifest_url start) refl
  where
    start : Ota
    start = record (made semaphore_take s) { update_pending = false }

    fetched :
        (o : Option (EspErr × Ota))
        → fetch_ota_manifest env.fetch env.manifest_url start ≡ o
        → t.expect_redirect ≡ true
    fetched none e = ground arith
    fetched (some (err, u)) e = ground (
      arith,
      fetch_ota_manifest-redirected env.fetch env.manifest_url start err u,
      check_version-redirected env u t,
    )
