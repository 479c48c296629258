-- ===== src/Ota/Manifest/Ending.antt =====
-- When `fetch_ota_manifest` of components/ota-service/ota_service.c ends.
use gate_lock_home_node.Base.{ℕ, ◌+◌, ◌-◌, ◌≡◌, ◌≢◌, ◌⊎◌, true, none, List, [], ◌∷◌, arith, length}
use gate_lock_home_node.Ota.Types.{
  Ota, made, client_read, fetch_headers, write_at, max_http_recv_buffer,
}
use gate_lock_home_node.Ota.Manifest.{
  Read, FetchEnv, read_manifest, fetch_ota_manifest, request_manifest,
}
use gate_lock_home_node.Ota.Events.{http_events}

-- A script of answers whose last one ends the loop: it failed, or no data was left.
abbrev pub Ends : List (ℕ → Read) → Type 0
Ends [] = ⊥
Ends (r ∷ []) = (n : ℕ) → ((r n).failed ≡ true) ⊎ ((r n).body ≡ []) × ((r n).complete ≡ true)
Ends (r ∷ q ∷ rs) = Ends (q ∷ rs)

read_manifest_terminates :
    (reads : List (ℕ → Read)) (total : ℕ) (s : Ota)
    → Ends reads
    → read_manifest reads total s ≢ none
unfolding read_manifest
read_manifest_terminates [] total s h = absurd h
read_manifest_terminates (r ∷ []) total s h = ground (arith, h (max_http_recv_buffer - total - 1))
read_manifest_terminates (r ∷ q ∷ rs) total s h =
    let room : ℕ = max_http_recv_buffer - total - 1 in
    let asked : Ota = made (client_read room) s in
    ground (
      arith,
      read_manifest_terminates (q ∷ rs) total asked h,
      read_manifest_terminates (q ∷ rs) (total + length (r room).body)
          (record asked { response_buffer = write_at s.response_buffer total (r room).body }) h,
    )

-- If the last of the answers to the reads is a failure, or finds no data left, the fetch ends,
-- whatever else it meets.
pub fetch_ota_manifest_terminates :
    (env : FetchEnv) (url : List ℕ) (s : Ota) → Ends env.reads → fetch_ota_manifest env url s ≢ none
unfolding fetch_ota_manifest
fetch_ota_manifest_terminates env url s h = ground (
  arith,
  read_manifest_terminates env.reads 0
      (http_events env.headers (made fetch_headers (request_manifest url s))) h,
)
