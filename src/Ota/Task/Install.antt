-- ===== src/Ota/Task/Install.antt =====
-- When a round of `ota_task` of components/ota-service/ota_service.c asks for the reboot into a new
-- image, and what it has done by then.
use gate_lock_home_node.Base.{
  ℕ, ◌≡◌, ◌≢◌, refl, ap, sym, ◌∙◌, subst, ◌⊎◌, inl, inr, Bool, true, false, Option, none, some,
  List, [], ◌∷◌, ◌++◌, map, append_assoc, arith, is_ok, eq_int, cstr, Bool-cases, some_eq,
}
use gate_lock_home_node.Ota.Types.{
  Ota, Call, ota_begin, ota_write, ota_end, set_boot_partition, post_event, made,
  err_ota_invalid_version, routine_event_reboot_required, fetch_headers, get_status_code,
  client_perform, client_close, set_url,
}
use gate_lock_home_node.Ota.Events.{http_events}
use gate_lock_home_node.Ota.Version.{is_update_available, detect_last_invalid_app}
use gate_lock_home_node.Ota.Download.{download}
use gate_lock_home_node.Ota.Download.Flash.{
  flash, pieces, begun_handle, Headed, posts, download-Image, download-Headed, download-keeps,
}
use gate_lock_home_node.Ota.Task.{
  CycleEnv, install, after_download, to_partition, follow_redirect, after_redirect,
  request_firmware, check_version, open_redirect,
}
use gate_lock_home_node.Ota.Task.Quiet.{http_events-Quiet}

-- The calls that make an image the next one to boot.
abbrev pub boot_into : ℕ → ℕ → List Call
boot_into handle partition =
    ota_end handle ∷ set_boot_partition partition ∷ post_event routine_event_reboot_required ∷ []

-- What a round did to the flash, from the calls before it to those after it: an update of the next
-- partition was begun, every piece received was written in order under the handle that it began
-- with, then the update was ended under that handle, made the boot partition and announced. Or
-- nothing was received, and only the last three were called.
pub record Installed (env : CycleEnv) (before after : List Call) : Type 0 where
  pub partition : ℕ
  pub handle : ℕ
  pub chosen : env.next_partition ≡ some partition
  pub trace :
      ((pieces env.rounds 0 ≡ []) × (after ≡ before ++ boot_into handle partition))
      ⊎ ((begun_handle env.rounds 0 ≡ some handle)
          × (after
              ≡ (before ++ ota_begin partition ∷ map (ota_write handle) (pieces env.rounds 0))
                ++ boot_into handle partition))
  pub headed : Headed env.header_size (pieces env.rounds 0)
  pub complete : env.complete ≡ true
  pub ended : is_ok env.end_result ≡ true
  pub booted : is_ok env.set_boot_result ≡ true

abbrev pub Outcome : CycleEnv → Ota → Ota → Type 0
Outcome env s t = (posts t.calls ≡ posts s.calls) ⊎ Installed env (flash s.calls) (flash t.calls)

carry :
    (env : CycleEnv) (s u t : Ota)
    → flash u.calls ≡ flash s.calls
    → posts u.calls ≡ posts s.calls
    → Outcome env u t
    → Outcome env s t
carry env s u t f p (inl e) = inl (e ∙ p)
carry env s u t f p (inr i) = inr (subst (λ (b : List Call). Installed env b (flash t.calls)) f i)

install-outcome :
    (env : CycleEnv) (p : ℕ) (s : Ota)
    → (posts (install env p s).calls ≡ posts s.calls)
      ⊎ ((is_ok env.end_result ≡ true)
          × (is_ok env.set_boot_result ≡ true)
          × (flash (install env p s).calls ≡ flash s.calls ++ boot_into s.update_handle p))
unfolding install flash
install-outcome env p s = ground (
  arith,
  append_assoc (flash s.calls) (ota_end s.update_handle ∷ []) (set_boot_partition p ∷ []),
  append_assoc (flash s.calls) (ota_end s.update_handle ∷ set_boot_partition p ∷ [])
      (post_event routine_event_reboot_required ∷ []),
)

to_partition-Outcome :
    (env : CycleEnv) (o : Option ℕ) (s t : Ota)
    → env.next_partition ≡ o
    → to_partition env o s ≡ some t
    → Outcome env s t
unfolding to_partition
to_partition-Outcome env none s t e h = inl (ground arith)
to_partition-Outcome env (some p) s t e h =
    downloaded (download env.header_size p env.rounds false 0 s) refl h
  where
    installed :
        (u : Ota)
        → download env.header_size p env.rounds false 0 s ≡ some (true, u)
        → env.complete ≡ true
        → t ≡ install env p u
        → (is_ok env.end_result ≡ true)
          × (is_ok env.set_boot_result ≡ true)
          × (flash (install env p u).calls ≡ flash u.calls ++ boot_into u.update_handle p)
        → Installed env (flash s.calls) (flash t.calls)
    installed u d c same (ended, booted, f) = record {
      partition = p;
      handle = u.update_handle;
      chosen = e;
      trace = elim (download-Image env.header_size p env.rounds 0 s u d) [
        | inl (none_left, kept, _) ↦ inl (
          none_left,
          ap (λ (x : Ota). flash x.calls) same
              ∙ f
              ∙ ap (λ (b : List Call). b ++ boot_into u.update_handle p) kept,
        )
        | inr (begun, wrote) ↦ inr (
          begun,
          ap (λ (x : Ota). flash x.calls) same
              ∙ f
              ∙ ap (λ (b : List Call). b ++ boot_into u.update_handle p) wrote,
        )
      ];
      headed = download-Headed env.header_size p env.rounds 0 s u d;
      complete = c;
      ended = ended;
      booted = booted;
    }

    finished :
        (u : Ota)
        → download env.header_size p env.rounds false 0 s ≡ some (true, u)
        → (posts u.calls ≡ posts s.calls)
        → env.complete ≡ true
        → t ≡ install env p u
        → Outcome env s t
    finished u d quiet c same = elim (install-outcome env p u) [
      | inl k ↦ inl (ap (λ (x : Ota). posts x.calls) same ∙ k ∙ quiet)
      | inr k ↦ inr (installed u d c same k)
    ]

    downloaded :
        (d : Option (Bool × Ota))
        → download env.header_size p env.rounds false 0 s ≡ d
        → after_download env p d ≡ some t
        → Outcome env s t
    downloaded none d k = cc
    downloaded (some (false, u)) d k = inl (
        ap (λ (x : Ota). posts x.calls) (sym (some_eq k))
        ∙ (download-keeps env.header_size p env.rounds false 0 s false u d).0)
    downloaded (some (true, u)) d k =
        let quiet : posts u.calls ≡ posts s.calls =
          (download-keeps env.header_size p env.rounds false 0 s true u d).0 in
        elim (Bool-cases env.complete) [
          | inl c ↦ finished u d quiet c (sym (some_eq (rw c at k)))
          | inr c ↦ inl (ap (λ (x : Ota). posts x.calls) (sym (some_eq (rw c at k))) ∙ quiet)
        ]

follow_redirect-Outcome :
    (env : CycleEnv) (b : Bool) (s t : Ota) → follow_redirect env b s ≡ some t → Outcome env s t
unfolding follow_redirect flash
follow_redirect-Outcome env false s t h = to_partition-Outcome env env.next_partition s t refl h
follow_redirect-Outcome env true s t h = elim (Bool-cases (is_ok env.reopened)) [
  | inr closed ↦ inl (ap (λ (x : Ota). posts x.calls) (sym (some_eq (rw closed at h))))
  | inl again ↦
      let u : Ota = made fetch_headers (made get_status_code (open_redirect s)) in
      let (calls, _) = http_events-Quiet env.redirect_headers u in
      carry env s (http_events env.redirect_headers u) t (ap flash calls) (ap posts calls)
        (to_partition-Outcome env env.next_partition _ t refl (rw again at h))
]

request_firmware-Outcome :
    (env : CycleEnv) (s t : Ota) → request_firmware env s ≡ some t → Outcome env s t
unfolding request_firmware after_redirect flash
request_firmware-Outcome env s t h =
    let asked : Ota = made client_perform (made (set_url (cstr s.manifest.firmware_url)) s) in
    let u : Ota = http_events env.headers asked in
    let (calls, _) = http_events-Quiet env.headers asked in
    elim (Bool-cases (is_ok env.performed)) [
      | inl ok ↦
          carry env s (made client_close u) t (ap flash calls) (ap posts calls)
            (follow_redirect-Outcome env u.expect_redirect (made client_close u) t (rw ok at h))
      | inr bad ↦
          inl (ap (λ (x : Ota). posts x.calls) (sym (some_eq (rw bad at h))) ∙ ap posts calls)
    ]

-- The conditions on the version under which a round goes on to the firmware.
pub record Admitted (env : CycleEnv) (version : List ℕ) : Type 0 where
  pub newer : is_update_available env.running (some version) ≡ true
  pub not_invalid : detect_last_invalid_app env.last_invalid version ≢ err_ota_invalid_version

pub check_version-Outcome :
    (env : CycleEnv) (s t : Ota)
    → check_version env s ≡ some t
    → (posts t.calls ≡ posts s.calls)
      ⊎ (Admitted env s.manifest.version × Installed env (flash s.calls) (flash t.calls))
unfolding check_version
check_version-Outcome env s t h =
    let invalid : Bool =
      eq_int (detect_last_invalid_app env.last_invalid s.manifest.version)
        err_ota_invalid_version in
    let newer : Bool = is_update_available env.running (some s.manifest.version) in
    elim (Bool-cases invalid) [
      | inl bad ↦ inl (ap (λ (x : Ota). posts x.calls) (sym (some_eq (rw bad at h))))
      | inr good ↦ elim (Bool-cases newer) [
        | inr old ↦ inl (ap (λ (x : Ota). posts x.calls) (sym (some_eq (rw (good, old) at h))))
        | inl new ↦ elim (request_firmware-Outcome env s t (rw (good, new) at h)) [
          | inl k ↦ inl k
          | inr k ↦ inr (record { newer = new; not_invalid = λ e. ground (arith, e) }, k)
        ]
      ]
    ]
