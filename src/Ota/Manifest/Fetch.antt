-- ===== src/Ota/Manifest/Fetch.antt =====
-- When `fetch_ota_manifest` of components/ota-service/ota_service.c succeeds.
use gate_lock_home_node.Base.{
  ℕ, ◌≡◌, refl, ap, sym, ◌∙◌, true, false, Option, none, some, List, [], ◌∷◌, arith, length, take,
  cstr, EspErr, esp_ok, is_ok, eq_int, eq_int→eq, pos, Bool-cases, inl, inr,
}
use gate_lock_home_node.Ota.Types.{
  Ota, Manifest, made, fetch_headers, get_status_code, write_at, max_http_recv_buffer,
}
use gate_lock_home_node.Ota.Manifest.{
  Json, FetchEnv, read_manifest, finish_fetch, after_loop, fetch_ota_manifest, fill_manifest,
  empty_manifest, request_manifest, parse_manifest,
}
use gate_lock_home_node.Ota.Events.{http_events}
use gate_lock_home_node.Ota.Manifest.Buffer.{cstr-write_at-nul, length-zeros, http_events-keeps}
use gate_lock_home_node.Ota.Manifest.Loading.{
  Fits, received, failed_read, read_manifest-Loaded, read_manifest-result,
}

-- What the result and the manifest of a successful fetch rest on.
pub record Fetched (env : FetchEnv) (m : Manifest) : Type 0 where
  pub opened : is_ok env.opened ≡ true
  pub status : env.status_code ≡ pos 200
  pub unbroken : failed_read env.reads 0 ≡ false
  pub json : Json
  pub parsed : env.parse (cstr (received env.reads 0)) ≡ some json
  pub filled : m ≡ fill_manifest json empty_manifest

parse_manifest-ok :
    (err : EspErr) (o : Option Json) (s : Ota)
    → (parse_manifest err o s).0 ≡ esp_ok
    → (j : Json) × (o ≡ some j)
      × (err ≡ esp_ok)
      × ((parse_manifest err o s).1.manifest ≡ fill_manifest j s.manifest)
unfolding parse_manifest
parse_manifest-ok err none s h = absurd (ground arith)
parse_manifest-ok err (some j) s h = (j, refl, h, refl)

finish_fetch-ok :
    (env : FetchEnv) (err : EspErr) (n : ℕ) (u t : Ota)
    → finish_fetch env err n u ≡ (esp_ok, t)
    → (env.status_code ≡ pos 200)
      × (j : Json) × (env.parse (cstr (take n u.response_buffer)) ≡ some j)
      × (err ≡ esp_ok)
      × (t.manifest ≡ fill_manifest j u.manifest)
unfolding finish_fetch
finish_fetch-ok env err n u t h =
    let read : Ota =
      made get_status_code (record u { response_buffer = write_at u.response_buffer n (0 ∷ []) }) in
    elim (Bool-cases (eq_int env.status_code (pos 200))) [
      | inl ok ↦
          let done : (parse_manifest err (env.parse (cstr read.response_buffer)) read).0 ≡ esp_ok =
            ap (λ (p : EspErr × Ota). p.0) (rw ok at h) in
          let (j, parsed, sound, filled) =
            parse_manifest-ok err (env.parse (cstr read.response_buffer)) read done in
          (
            eq_int→eq env.status_code (pos 200) ok,
            j,
            ap env.parse (sym (cstr-write_at-nul u.response_buffer n)) ∙ parsed,
            sound,
            ap (λ (p : EspErr × Ota). p.1.manifest) (sym (rw ok at h)) ∙ filled,
          )
      | inr bad ↦ absurd (ground arith)
    ]

-- Where no read stores more than it was asked for, a fetch succeeds only if the request was opened,
-- no read failed, the status is 200, and the text received up to its first NUL is JSON; the
-- manifest is then made from that JSON alone.
pub fetch_ota_manifest-ok :
    (env : FetchEnv) (url : List ℕ) (s t : Ota)
    → Fits env.reads
    → fetch_ota_manifest env url s ≡ some (esp_ok, t)
    → Fetched env t.manifest
unfolding fetch_ota_manifest
fetch_ota_manifest-ok env url s t fits h = elim (Bool-cases (is_ok env.opened)) [
  | inl ok ↦ loaded (read_manifest env.reads 0 start) refl ok (rw ok at h)
  | inr bad ↦ absurd (ground arith)
]
  where
    requested : Ota
    requested = made fetch_headers (request_manifest url s)

    start : Ota
    start = http_events env.headers requested

    kept : (length start.response_buffer ≡ max_http_recv_buffer) × (start.manifest ≡ empty_manifest)
    kept = http_events-keeps env.headers requested (length-zeros max_http_recv_buffer)

    loaded :
        (o : Option (EspErr × ℕ × Ota))
        → read_manifest env.reads 0 start ≡ o
        → is_ok env.opened ≡ true
        → after_loop env o ≡ some (esp_ok, t)
        → Fetched env t.manifest
    loaded none e ok k = cc
    loaded (some (err, n, u)) e ok k =
        let l = read_manifest-Loaded env.reads 0 start err n u fits (omega arith) kept.0 e in
        let (told, same) = read_manifest-result env.reads 0 start err n u e in
        let (status, j, parsed, sound, filled) = finish_fetch-ok env err n u t (ground arith) in
        record {
          opened = ok;
          status = status;
          unbroken = ground arith;
          json = j;
          parsed = ap (λ (b : List ℕ). env.parse (cstr b)) (sym l.stored) ∙ parsed;
          filled = filled ∙ ap (fill_manifest j) (same ∙ kept.1);
        }
