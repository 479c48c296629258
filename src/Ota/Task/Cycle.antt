-- ===== src/Ota/Task/Cycle.antt =====
-- One round of `ota_task` of components/ota-service/ota_service.c as a whole.
use gate_lock_home_node.Base.{
  ℕ, ◌≡◌, ◌≢◌, refl, ap, sym, ◌∙◌, inl, inr, Bool, true, false, Option, none, some, List, ◌∷◌,
  arith, EspErr, is_ok, is_ok→eq, Bool-cases, some_eq, subst, cstr,
}
use gate_lock_home_node.Ota.Types.{
  Ota, Call, Manifest, semaphore_take, made, client_perform, set_url, client_close, fetch_headers,
  get_status_code,
}
use gate_lock_home_node.Ota.Events.{http_events}
use gate_lock_home_node.Ota.Manifest.{fetch_ota_manifest}
use gate_lock_home_node.Ota.Manifest.Loading.{Fits}
use gate_lock_home_node.Ota.Manifest.Ending.{Ends, fetch_ota_manifest_terminates}
use gate_lock_home_node.Ota.Manifest.Fetch.{Fetched, fetch_ota_manifest-ok}
use gate_lock_home_node.Ota.Download.Flash.{flash, posts, download_terminates, Stops}
use gate_lock_home_node.Ota.Task.{
  CycleEnv, after_fetch, check_version, request_firmware, after_redirect, follow_redirect,
  to_partition, open_redirect, ota_cycle,
}
use gate_lock_home_node.Ota.Task.Quiet.{fetch_ota_manifest-Quiet}
use gate_lock_home_node.Ota.Task.Install.{Admitted, Installed, check_version-Outcome}

-- Where no read of the manifest stores more than it was asked for, a round that ends and has posted
-- an event (the one that asks for the reboot) met no pending verification, fetched the manifest
-- without a fault, and found its version newer and not the one that was found invalid. On the flash
-- it began an update of the next partition and wrote every piece received, in order, under the handle
-- that `esp_ota_begin` made, the first longer than the headers of an image; or, where the firmware's
-- reads delivered nothing, it began none and wrote nothing. Either way it then called `esp_ota_end` and
-- `esp_ota_set_boot_partition`, both with success, and posted the event, and did nothing else there.
pub ota_cycle_reboot :
    (env : CycleEnv) (s t : Ota)
    → Fits env.fetch.reads
    → ota_cycle env s ≡ some t
    → posts t.calls ≢ posts s.calls
    → (s.validation_pending ≡ false)
      × (m : Manifest) × Fetched env.fetch m
      × Admitted env m.version
      × Installed env (flash s.calls) (flash t.calls)
unfolding ota_cycle flash
ota_cycle_reboot env s t fits h rebooted = cycle s.validation_pending refl
  where
    start : Ota
    start = record (made semaphore_take s) { update_pending = false }

    fetched :
        (o : Option (EspErr × Ota))
        → fetch_ota_manifest env.fetch env.manifest_url start ≡ o
        → after_fetch env o ≡ some t
        → (m : Manifest) × Fetched env.fetch m
          × Admitted env m.version
          × Installed env (flash s.calls) (flash t.calls)
    fetched none e k = cc
    fetched (some (err, u)) e k =
        let (quiet, unposted) = fetch_ota_manifest-Quiet env.fetch env.manifest_url start err u e in
        elim (Bool-cases (is_ok err)) [
          | inr bad ↦
              absurd (
                rebooted (ap (λ (x : Ota). posts x.calls) (sym (some_eq (rw bad at k))) ∙ unposted))
          | inl good ↦ elim (check_version-Outcome env u t (rw good at k)) [
            | inl same ↦ absurd (rebooted (same ∙ unposted))
            | inr (admitted, installed) ↦ (
              u.manifest,
              fetch_ota_manifest-ok env.fetch env.manifest_url start u fits
                  (rw (is_ok→eq err good) at e),
              admitted,
              subst (λ (b : List Call). Installed env b (flash t.calls)) quiet installed,
            )
          ]
        ]

    cycle :
        (b : Bool)
        → s.validation_pending ≡ b
        → (s.validation_pending ≡ false)
          × (m : Manifest) × Fetched env.fetch m
          × Admitted env m.version
          × Installed env (flash s.calls) (flash t.calls)
    cycle true e = absurd (rebooted (ground arith))
    cycle false e =
        let (m, loaded, admitted, installed) =
          fetched (fetch_ota_manifest env.fetch env.manifest_url start) refl (ground arith) in
        (e, m, loaded, admitted, installed)

-- While a verification is pending a round only notes that an update is pending: it touches neither
-- the network nor the flash, and the verification stays pending.
pub ota_cycle_pending :
    (env : CycleEnv) (s : Ota)
    → s.validation_pending ≡ true
    → ota_cycle env s ≡ some (record s { update_pending = true; calls = semaphore_take ∷ s.calls })
unfolding ota_cycle
ota_cycle_pending env s h = ground arith

to_partition_terminates :
    (env : CycleEnv) (o : Option ℕ) (s : Ota) → Stops env.rounds → to_partition env o s ≢ none
unfolding to_partition
to_partition_terminates env none s k = λ e. cc
to_partition_terminates env (some p) s k =
    ground (arith, download_terminates env.header_size p env.rounds false 0 s k)

follow_redirect_terminates :
    (env : CycleEnv) (b : Bool) (s : Ota) → Stops env.rounds → follow_redirect env b s ≢ none
unfolding follow_redirect
follow_redirect_terminates env false s k = to_partition_terminates env env.next_partition s k
follow_redirect_terminates env true s k = ground (
  arith,
  to_partition_terminates env env.next_partition
      (http_events env.redirect_headers
        (made fetch_headers (made get_status_code (open_redirect s))))
      k,
)

check_version_terminates :
    (env : CycleEnv) (s : Ota) → Stops env.rounds → check_version env s ≢ none
unfolding check_version request_firmware after_redirect
check_version_terminates env s k =
    let asked : Ota = made client_perform (made (set_url (cstr s.manifest.firmware_url)) s) in
    let u : Ota = http_events env.headers asked in
    ground (arith, follow_redirect_terminates env u.expect_redirect (made client_close u) k)

-- A round ends, if the last of the manifest's reads fails or finds all data received, and the
-- firmware's reads have two in a row that find all data received, or a last one that fails.
pub ota_cycle_terminates :
    (env : CycleEnv) (s : Ota) → Ends env.fetch.reads → Stops env.rounds → ota_cycle env s ≢ none
unfolding ota_cycle
ota_cycle_terminates env s h k =
    fetched (fetch_ota_manifest env.fetch env.manifest_url start)
      (fetch_ota_manifest_terminates env.fetch env.manifest_url start h) refl
  where
    start : Ota
    start = record (made semaphore_take s) { update_pending = false }

    fetched :
        (o : Option (EspErr × Ota))
        → o ≢ none
        → fetch_ota_manifest env.fetch env.manifest_url start ≡ o
        → ota_cycle env s ≢ none
    fetched none ne e = absurd (ne refl)
    fetched (some (err, u)) ne e = ground (arith, check_version_terminates env u k)
