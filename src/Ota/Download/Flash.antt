-- ===== src/Ota/Download/Flash.antt =====
-- What the download loop of components/ota-service/ota_service.c does to the update partition.
use gate_lock_home_node.Base.{
  ℕ, zero, suc, ◌==◌, ◌<◌, ◌≡◌, ◌≢◌, refl, ◌⊎◌, inl, inr, Bool, true, false, is_ok, Option, none,
  some, List, [], ◌∷◌, ◌++◌, map, append_assoc, append-nil, arith, length, if◌then◌else◌,
}
use gate_lock_home_node.Ota.Types.{
  Ota, Call, ota_begin, ota_write, ota_abort, ota_end, set_boot_partition, post_event, client_read,
  made, write_at, max_http_recv_buffer,
}
use gate_lock_home_node.Ota.Download.{Round, Next, stop, go_on, download_round, download}

-- The calls that touch the update partition, the boot partition or the reboot, oldest first.
unfoldable pub flash : List Call → List Call
flash [] = []
flash (ota_begin p ∷ cs) = flash cs ++ ota_begin p ∷ []
flash (ota_write h b ∷ cs) = flash cs ++ ota_write h b ∷ []
flash (ota_abort h ∷ cs) = flash cs ++ ota_abort h ∷ []
flash (ota_end h ∷ cs) = flash cs ++ ota_end h ∷ []
flash (set_boot_partition p ∷ cs) = flash cs ++ set_boot_partition p ∷ []
flash (post_event e ∷ cs) = flash cs ++ post_event e ∷ []
flash (_ ∷ cs) = flash cs

-- The bytes that the rounds deliver until the loop stops, read by read.
unfoldable pub pieces : List Round → ℕ → List (List ℕ)
pieces [] attempts = []
pieces (r ∷ rs) zero =
    let next = pieces rs 1 in
    let rest = pieces rs zero in
    if r.failed then [] else if length r.body == 0 then next else r.body ∷ rest
pieces (r ∷ rs) (suc attempts) =
    let rest = pieces rs (suc attempts) in
    if r.failed
    then []
    else if length r.body == 0
    then (if r.connection_lost then [] else if r.complete then [] else rest)
    else r.body ∷ rest

-- The handle of the update that the first piece begins: the one that `esp_ota_begin` makes in that
-- round, if it succeeds.
unfoldable pub begun_handle : List Round → ℕ → Option ℕ
begun_handle [] attempts = none
begun_handle (r ∷ rs) zero =
    let next = begun_handle rs 1 in
    if r.failed
    then none
    else if length r.body == 0
    then next
    else if is_ok r.begin_result
    then some r.begin_handle
    else none
begun_handle (r ∷ rs) (suc attempts) =
    let rest = begun_handle rs (suc attempts) in
    if r.failed
    then none
    else if length r.body == 0
    then (if r.connection_lost then none else if r.complete then none else rest)
    else if is_ok r.begin_result
    then some r.begin_handle
    else none

abbrev pub Wrote : ℕ → List (List ℕ) → Ota → Ota → Type 0
Wrote h chunks s t =
    (flash t.calls ≡ flash s.calls ++ map (ota_write h) chunks) × (t.update_handle ≡ h)

-- The loop that ends with success has written every piece, in order, to the open update.
download-Wrote :
    (n p : ℕ) (rs : List Round) (attempts : ℕ) (s t : Ota)
    → download n p rs true attempts s ≡ some (true, t)
    → Wrote s.update_handle (pieces rs attempts) s t
unfolding download download_round pieces flash
download-Wrote n p [] attempts s t h = cc
download-Wrote n p (r ∷ rs) zero s t h =
    let asked : Ota = made (client_read max_http_recv_buffer) s in
    let filled : Ota = record asked { response_buffer = write_at s.response_buffer 0 r.body } in
    ground (
      arith,
      append-nil (flash s.calls),
      download-Wrote n p rs 1 asked t,
      download-Wrote n p rs 0 (made (ota_write s.update_handle r.body) filled) t,
      append_assoc (flash s.calls) (ota_write s.update_handle r.body ∷ [])
          (map (ota_write s.update_handle) (pieces rs 0)),
    )
download-Wrote n p (r ∷ rs) (suc attempts) s t h =
    let asked : Ota = made (client_read max_http_recv_buffer) s in
    let filled : Ota = record asked { response_buffer = write_at s.response_buffer 0 r.body } in
    ground (
      arith,
      append-nil (flash s.calls),
      download-Wrote n p rs (suc attempts) asked t,
      download-Wrote n p rs (suc attempts) (made (ota_write s.update_handle r.body) filled) t,
      append_assoc (flash s.calls) (ota_write s.update_handle r.body ∷ [])
          (map (ota_write s.update_handle) (pieces rs (suc attempts))),
    )

-- The calls on the flash between two states: an update that was begun with its pieces, written
-- under the handle that the update began with; or none.
abbrev pub Image : ℕ → List (List ℕ) → Option ℕ → Ota → Ota → Type 0
Image p chunks handle s t =
    ((chunks ≡ []) × (flash t.calls ≡ flash s.calls) × (t.update_handle ≡ s.update_handle))
    ⊎ ((handle ≡ some t.update_handle)
        × (flash t.calls ≡ flash s.calls ++ ota_begin p ∷ map (ota_write t.update_handle) chunks))

-- A download that starts with nothing checked and ends with success has begun an update of the
-- partition and written every piece received, in order, under the handle that `esp_ota_begin` made
-- for it; or it has received nothing and made no call on the flash.
pub download-Image :
    (n p : ℕ) (rs : List Round) (attempts : ℕ) (s t : Ota)
    → download n p rs false attempts s ≡ some (true, t)
    → Image p (pieces rs attempts) (begun_handle rs attempts) s t
unfolding download download_round pieces begun_handle flash
download-Image n p [] attempts s t h = cc
download-Image n p (r ∷ rs) zero s t h =
    let asked : Ota = made (client_read max_http_recv_buffer) s in
    let filled : Ota = record asked { response_buffer = write_at s.response_buffer 0 r.body } in
    let begun : Ota = record (made (ota_begin p) filled) { update_handle = r.begin_handle } in
    let written : Ota = made (ota_write r.begin_handle r.body) begun in
    ground (
      arith,
      download-Image n p rs 1 asked t,
      download-Wrote n p rs 0 written t,
      append_assoc (flash s.calls) (ota_begin p ∷ []) (ota_write r.begin_handle r.body ∷ []),
      append_assoc (flash s.calls) (ota_begin p ∷ ota_write r.begin_handle r.body ∷ [])
          (map (ota_write r.begin_handle) (pieces rs 0)),
    )
download-Image n p (r ∷ rs) (suc attempts) s t h =
    let asked : Ota = made (client_read max_http_recv_buffer) s in
    let filled : Ota = record asked { response_buffer = write_at s.response_buffer 0 r.body } in
    let begun : Ota = record (made (ota_begin p) filled) { update_handle = r.begin_handle } in
    let written : Ota = made (ota_write r.begin_handle r.body) begun in
    ground (
      arith,
      download-Image n p rs (suc attempts) asked t,
      download-Wrote n p rs (suc attempts) written t,
      append_assoc (flash s.calls) (ota_begin p ∷ []) (ota_write r.begin_handle r.body ∷ []),
      append_assoc (flash s.calls) (ota_begin p ∷ ota_write r.begin_handle r.body ∷ [])
          (map (ota_write r.begin_handle) (pieces rs (suc attempts))),
    )

-- Whether the first piece, if there is one, is longer than the headers.
abbrev pub Headed : ℕ → List (List ℕ) → Type 0
Headed n [] = Unit {0}
Headed n (chunk ∷ chunks) = n < length chunk

-- A download that starts with nothing checked and ends with success has received nothing, or a
-- first piece that is longer than the headers of an image.
pub download-Headed :
    (n p : ℕ) (rs : List Round) (attempts : ℕ) (s t : Ota)
    → download n p rs false attempts s ≡ some (true, t)
    → Headed n (pieces rs attempts)
unfolding download download_round pieces
download-Headed n p [] attempts s t h = cc
download-Headed n p (r ∷ rs) zero s t h =
    ground (arith, download-Headed n p rs 1 (made (client_read max_http_recv_buffer) s) t)
download-Headed n p (r ∷ rs) (suc attempts) s t h =
    ground
      (arith, download-Headed n p rs (suc attempts) (made (client_read max_http_recv_buffer) s) t)

-- A download that starts with nothing checked and ends with success has begun an update of the
-- partition and written every piece received, in order, under the handle that `esp_ota_begin` made
-- for it, and the first piece was longer than the headers of an image; or it has received nothing and
-- made no call on the flash.
pub download_sound :
    (n p : ℕ) (rs : List Round) (attempts : ℕ) (s t : Ota)
    → download n p rs false attempts s ≡ some (true, t)
    → Image p (pieces rs attempts) (begun_handle rs attempts) s t × Headed n (pieces rs attempts)
download_sound n p rs attempts s t h =
    (download-Image n p rs attempts s t h, download-Headed n p rs attempts s t h)

-- The events that were posted.
abbrev pub posts : List Call → ℕ
posts [] = 0
posts (post_event e ∷ cs) = suc (posts cs)
posts (_ ∷ cs) = posts cs

abbrev KeepsNext : Ota → Next → Type 0
KeepsNext s (stop b t) = (posts t.calls ≡ posts s.calls) × (t.manifest ≡ s.manifest)
KeepsNext s (go_on c a t) = (posts t.calls ≡ posts s.calls) × (t.manifest ≡ s.manifest)

round-keeps :
    (n p : ℕ) (r : Round) (checked : Bool) (attempts : ℕ) (s : Ota)
    → KeepsNext s (download_round n p r checked attempts s)
unfolding download_round
round-keeps n p r checked zero s = ground arith
round-keeps n p r checked (suc attempts) s = ground arith

-- The loop posts none, and leaves the manifest.
pub download-keeps :
    (n p : ℕ) (rs : List Round) (checked : Bool) (attempts : ℕ) (s : Ota) (b : Bool) (t : Ota)
    → download n p rs checked attempts s ≡ some (b, t)
    → (posts t.calls ≡ posts s.calls) × (t.manifest ≡ s.manifest)
unfolding download
download-keeps n p [] checked attempts s b t h = cc
download-keeps n p (r ∷ rs) checked attempts s b t h =
    later (download_round n p r checked attempts s) refl (round-keeps n p r checked attempts s)
      (λ c a u. download-keeps n p rs c a u b t)
  where
    later :
        (next : Next)
        → download_round n p r checked attempts s ≡ next
        → KeepsNext s next
        → ((c : Bool) (a : ℕ) (u : Ota)
            → download n p rs c a u ≡ some (b, t)
            → (posts t.calls ≡ posts u.calls) × (t.manifest ≡ u.manifest))
        → (posts t.calls ≡ posts s.calls) × (t.manifest ≡ s.manifest)
    later (stop c u) e k ih = ground arith
    later (go_on c a u) e k ih = ground (arith, ih c a u)

abbrev pub IsDone : Round → Type 0
IsDone r = (r.body ≡ []) × (r.complete ≡ true)

-- Rounds that end the loop: a read that fails, or two in a row that find all data received.
abbrev pub Stops : List Round → Type 0
Stops [] = ⊥
Stops (r ∷ []) = r.failed ≡ true
Stops (r ∷ q ∷ rs) = ((IsDone r × IsDone q) ⊎ Stops (q ∷ rs))

both-done :
    (n p : ℕ) (r q : Round) (rs : List Round) (checked : Bool) (attempts : ℕ) (s : Ota)
    → IsDone r
    → IsDone q
    → download n p (r ∷ q ∷ rs) checked attempts s ≢ none
unfolding download download_round
both-done n p r q rs checked zero s d e h = ground arith
both-done n p r q rs checked (suc attempts) s d e h = ground arith

pub download_terminates :
    (n p : ℕ) (rs : List Round) (checked : Bool) (attempts : ℕ) (s : Ota)
    → Stops rs
    → download n p rs checked attempts s ≢ none
unfolding download
download_terminates n p [] checked attempts s h = absurd h
download_terminates n p (r ∷ []) checked attempts s h = failed
  where
    failed : download n p (r ∷ []) checked attempts s ≢ none
    failed = unfold download_round in (λ k. ground arith)
download_terminates n p (r ∷ q ∷ rs) checked attempts s (inl (d, e)) =
    both-done n p r q rs checked attempts s d e
download_terminates n p (r ∷ q ∷ rs) checked attempts s (inr h) =
    later (download_round n p r checked attempts s) refl
      (λ c a u. download_terminates n p (q ∷ rs) c a u h)
  where
    later :
        (next : Next)
        → download_round n p r checked attempts s ≡ next
        → ((c : Bool) (a : ℕ) (u : Ota) → download n p (q ∷ rs) c a u ≢ none)
        → download n p (r ∷ q ∷ rs) checked attempts s ≢ none
    later (stop b t) e ih = ground arith
    later (go_on c a u) e ih = ground (arith, ih c a u)
