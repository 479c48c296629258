-- ===== src/Ota/Manifest/Loading.antt =====
-- The loop of `fetch_ota_manifest` of components/ota-service/ota_service.c: what it loads.
use gate_lock_home_node.Base.{
  ℕ, ◌+◌, ◌-◌, ◌≤◌, ◌<◌, ◌==◌, leb, ◌≡◌, refl, ap, ◌∙◌, Bool, true, false, Option, some, List, [],
  ◌∷◌, ◌++◌, arith, append_assoc, append-nil, length, length-append, take, EspErr, esp_ok, esp_fail,
  if◌then◌else◌, Bool-cases, leb_false→lt, inl, inr,
}
use gate_lock_home_node.Ota.Types.{Ota, made, client_read, write_at, max_http_recv_buffer}
use gate_lock_home_node.Ota.Manifest.{Read, read_manifest}
use gate_lock_home_node.Ota.Manifest.Buffer.{length-write_at, take-write_at}

-- A read stores no more bytes than it was asked for.
abbrev pub Fits : List (ℕ → Read) → Type 0
Fits [] = Unit {0}
Fits (r ∷ rs) = ((n : ℕ) → length (r n).body ≤ n) × Fits rs

-- The bytes that the answers deliver up to the end of the loop, with no buffer in sight.
unfoldable pub received : List (ℕ → Read) → ℕ → List ℕ
received [] total = []
received (read ∷ reads) total =
    let r : Read = read (max_http_recv_buffer - total - 1) in
    let again = received reads total in
    let more = received reads (total + length r.body) in
    if r.failed
    then []
    else if length r.body == 0
    then (if r.complete then [] else again)
    else r.body ++ (if leb (max_http_recv_buffer - 1) (total + length r.body) then [] else more)

-- Whether one of the answers that the loop comes to is a failure.
unfoldable pub failed_read : List (ℕ → Read) → ℕ → Bool
failed_read [] total = false
failed_read (read ∷ reads) total =
    let r : Read = read (max_http_recv_buffer - total - 1) in
    let again = failed_read reads total in
    let more = failed_read reads (total + length r.body) in
    if r.failed
    then true
    else if length r.body == 0
    then (if r.complete then false else again)
    else if leb (max_http_recv_buffer - 1) (total + length r.body)
    then false
    else more

-- What the loop promises of its result.
pub record Loaded (total : ℕ) (before got : List ℕ) (n : ℕ) (after : List ℕ) : Type 0 where
  pub counted : n ≡ total + length got
  pub bounded : n ≤ max_http_recv_buffer - 1
  pub stored : take n after ≡ take total before ++ got
  pub sized : length after ≡ max_http_recv_buffer

Loaded-stop :
    (total : ℕ) (s u : Ota) (e e' : EspErr) (n : ℕ) (t : Ota)
    → total < max_http_recv_buffer - 1
    → length s.response_buffer ≡ max_http_recv_buffer
    → u.response_buffer ≡ s.response_buffer
    → ◌≡◌ {A = Option (EspErr × ℕ × Ota)} (some (e', total, u)) (some (e, n, t))
    → Loaded total s.response_buffer [] n t.response_buffer
Loaded-stop total s u e e' n t lt sized same h =
    ground (arith, append-nil (take total s.response_buffer))

-- The bytes of one answer, and what the loop loads behind them.
Loaded-more :
    (total : ℕ) (s u : Ota) (body got : List ℕ) (n : ℕ) (t : Ota)
    → take (total + length body) u.response_buffer ≡ take total s.response_buffer ++ body
    → Loaded (total + length body) u.response_buffer got n t.response_buffer
    → Loaded total s.response_buffer (body ++ got) n t.response_buffer
Loaded-more total s u body got n t held l = record {
  counted = omega (arith, l.counted, length-append body got);
  bounded = l.bounded;
  stored =
      l.stored
      ∙ ap (λ (xs : List ℕ). xs ++ got) held
      ∙ append_assoc (take total s.response_buffer) body got;
  sized = l.sized;
}

Loaded-last :
    (total : ℕ) (s u : Ota) (e e' : EspErr) (n : ℕ) (t : Ota)
    → total ≤ max_http_recv_buffer - 1
    → length u.response_buffer ≡ max_http_recv_buffer
    → ◌≡◌ {A = Option (EspErr × ℕ × Ota)} (some (e', total, u)) (some (e, n, t))
    → Loaded total u.response_buffer [] n t.response_buffer
Loaded-last total s u e e' n t le sized h =
    ground (arith, append-nil (take total u.response_buffer))

pub read_manifest-Loaded :
    (reads : List (ℕ → Read)) (total : ℕ) (s : Ota) (e : EspErr) (n : ℕ) (t : Ota)
    → Fits reads
    → total < max_http_recv_buffer - 1
    → length s.response_buffer ≡ max_http_recv_buffer
    → read_manifest reads total s ≡ some (e, n, t)
    → Loaded total s.response_buffer (received reads total) n t.response_buffer
unfolding read_manifest received
read_manifest-Loaded [] total s e n t fits lt sized h = cc
read_manifest-Loaded (read ∷ reads) total s e n t fits lt sized h =
    let r : Read = read (max_http_recv_buffer - total - 1) in
    let room : total + length r.body ≤ length s.response_buffer =
      omega (arith, fits.0 (max_http_recv_buffer - total - 1)) in
    let kept = length-write_at s.response_buffer total r.body room in
    let held = take-write_at s.response_buffer total r.body room in
    let fits_in : total + length r.body ≤ max_http_recv_buffer - 1 =
      omega (arith, fits.0 (max_http_recv_buffer - total - 1)) in
    let asked : Ota = made (client_read (max_http_recv_buffer - total - 1)) s in
    let filled : Ota = record asked { response_buffer = write_at s.response_buffer total r.body } in
    elim (Bool-cases r.failed) [
      | inl f ↦ rw f (Loaded-stop total s asked e _ n t lt sized refl (rw f at h))
      | inr f ↦ elim (Bool-cases (length r.body == 0)) [
        | inl z ↦ elim (Bool-cases r.complete) [
          | inl c ↦
              rw (f, z, c) (Loaded-stop total s asked e _ n t lt sized refl (rw (f, z, c) at h))
          | inr c ↦
              rw (f, z, c)
                (read_manifest-Loaded reads total asked e n t fits.1 lt sized (rw (f, z, c) at h))
        ]
        | inr z ↦ elim (Bool-cases (leb (max_http_recv_buffer - 1) (total + length r.body))) [
          | inl b ↦
              rw (f, z, b)
                (Loaded-more total s filled r.body [] n t held (
                  Loaded-last (total + length r.body) s filled e _ n t fits_in (kept ∙ sized)
                    (rw (f, z, b) at h)))
          | inr b ↦
              rw (f, z, b)
                (Loaded-more total s filled r.body (received reads (total + length r.body)) n t held
                  (read_manifest-Loaded reads (total + length r.body) filled e n t fits.1
                    (omega (arith, leb_false→lt _ _ b)) (kept ∙ sized) (rw (f, z, b) at h)))
        ]
      ]
    ]

-- The loop's result tells a failure, and the loop leaves the manifest alone.
pub read_manifest-result :
    (reads : List (ℕ → Read)) (total : ℕ) (s : Ota) (e : EspErr) (n : ℕ) (t : Ota)
    → read_manifest reads total s ≡ some (e, n, t)
    → (e ≡ (if failed_read reads total then esp_fail else esp_ok)) × (t.manifest ≡ s.manifest)
unfolding read_manifest failed_read
read_manifest-result [] total s e n t h = cc
read_manifest-result (read ∷ reads) total s e n t h =
    let room : ℕ = max_http_recv_buffer - total - 1 in
    let asked : Ota = made (client_read room) s in
    let body : List ℕ = (read room).body in
    ground (
      arith,
      read_manifest-result reads total asked e n t,
      read_manifest-result reads (total + length body)
          (record asked { response_buffer = write_at s.response_buffer total body }) e n t,
    )
