-- ===== src/Examples/Update.antt =====
-- The theorems on components/ota-service/ota_service.c, applied to an update from 1.0 to 1.1.
use gate_lock_home_node.Base.{
  ℕ, zero, suc, ◌≡◌, ◌≢◌, ◌≤◌, inl, inr, refl, Bool, true, false, Option, none, some, List, [], ◌∷◌,
  arith, EspErr, esp_ok, pos, length, take, codes, cstr, ◌==◌, if◌then◌else◌, strcmp, strncpy,
}
use gate_lock_home_node.Ota.Types.{Ota, Manifest, zeros, write_at}
use gate_lock_home_node.Ota.Events.{http_events}
use gate_lock_home_node.Ota.Manifest.{
  Read, Json, FetchEnv, fetch_ota_manifest, after_loop, read_manifest, request_manifest,
  finish_fetch, parse_manifest, fill_manifest, empty_manifest,
}
use gate_lock_home_node.Ota.Manifest.Loading.{Fits}
use gate_lock_home_node.Ota.Manifest.Ending.{Ends}
use gate_lock_home_node.Ota.Manifest.Fetch.{Fetched, fetch_ota_manifest-ok}
use gate_lock_home_node.Ota.Version.{Description, is_update_available, detect_last_invalid_app}
use gate_lock_home_node.Ota.Download.{
  Round, download, download_round, first_chunk, no_chunk, write_chunk,
}
use gate_lock_home_node.Ota.Download.Flash.{
  flash, pieces, begun_handle, Image, Headed, posts, Stops, download_sound,
}
use gate_lock_home_node.Ota.Task.{
  CycleEnv, ota_cycle, after_fetch, check_version, request_firmware, after_redirect,
  follow_redirect, to_partition, after_download, install,
}
use gate_lock_home_node.Ota.Task.Install.{Admitted, Installed}
use gate_lock_home_node.Ota.Task.Redirected.{ota_cycle-redirected}
use gate_lock_home_node.Ota.Task.Cycle.{ota_cycle_reboot, ota_cycle_terminates}

abbrev pub idle : Ota
idle = record {
  start_update = some 1;
  validation_pending = false;
  update_pending = false;
  client = some 2;
  response_buffer = zeros 1024;
  manifest = empty_manifest;
  data_len = 0;
  expect_redirect = false;
  update_handle = 0;
  calls = [];
}

-- The manifest's text is the one byte "m", which comes in the first read.
abbrev reads : List (ℕ → Read)
reads =
    (λ n. record { failed = false; body = take n (codes "m"); complete = false })
    ∷ (λ n. record { failed = false; body = []; complete = true })
    ∷ []

take_one : (n : ℕ) → length (take n (codes "m")) ≤ n
take_one zero = omega arith
take_one (suc zero) = omega arith
take_one (suc (suc n)) = omega arith

reads-Fits : Fits reads
reads-Fits = (take_one, (λ n. omega arith, tt))

reads-Ends : Ends reads
reads-Ends = λ n. inr (refl, refl)

abbrev json : Json
json = record {
  version = some (codes "1.1");
  firmware_url = some (codes "u");
  checksum = none;
  firmware_size = some (pos 3);
}

abbrev fetch : FetchEnv
fetch = record {
  opened = esp_ok;
  headers = [];
  reads = reads;
  status_code = pos 200;
  parse = λ text. if length text == 1 then some json else none;
}

abbrev piece : Round
piece = record {
  failed = false;
  body = codes "abc";
  begin_result = esp_ok;
  begin_handle = 9;
  write_result = esp_ok;
  connection_lost = false;
  complete = false;
}

abbrev done : Round
done = record {
  failed = false;
  body = [];
  begin_result = esp_ok;
  begin_handle = 0;
  write_result = esp_ok;
  connection_lost = false;
  complete = true;
}

abbrev chunks : List Round
chunks = piece ∷ done ∷ done ∷ []

abbrev pub version_of : List ℕ → Description
version_of text = record { result = esp_ok; version = text }

-- The image has headers of two bytes.
abbrev pub cycle : CycleEnv
cycle = record {
  manifest_url = codes "m";
  header_size = 2;
  fetch = fetch;
  last_invalid = none;
  running = version_of (codes "1.0");
  performed = esp_ok;
  headers = [];
  reopened = esp_ok;
  redirect_headers = [];
  next_partition = some 1;
  rounds = chunks;
  complete = true;
  end_result = esp_ok;
  set_boot_result = esp_ok;
}

abbrev pub state_of : Option Ota → Ota
state_of none = idle
state_of (some s) = s

some-state_of : (o : Option Ota) → o ≢ none → o ≡ some (state_of o)
some-state_of none h = absurd (h refl)
some-state_of (some s) h = refl

cycle-Stops : Stops chunks
cycle-Stops = inr (inl ((refl, refl), (refl, refl)))

ota_cycle_terminates_example : ota_cycle cycle idle ≢ none
ota_cycle_terminates_example = ota_cycle_terminates cycle idle reads-Ends cycle-Stops

abbrev updated : Ota
updated = state_of (ota_cycle cycle idle)

updated_posts : posts updated.calls ≡ 1
unfolding ota_cycle after_fetch check_version request_firmware after_redirect follow_redirect
    to_partition after_download install fetch_ota_manifest after_loop read_manifest request_manifest
    finish_fetch parse_manifest fill_manifest zeros write_at http_events download download_round
    first_chunk no_chunk write_chunk is_update_available detect_last_invalid_app strcmp cstr strncpy
updated_posts = refl

updated_terminates : ota_cycle cycle idle ≡ some updated
updated_terminates =
    some-state_of (ota_cycle cycle idle) (ota_cycle_terminates cycle idle reads-Ends cycle-Stops)

ota_cycle_reboot_example :
    (idle.validation_pending ≡ false)
    × (m : Manifest) × Fetched fetch m
    × Admitted cycle m.version
    × Installed cycle (flash []) (flash updated.calls)
ota_cycle_reboot_example =
    ota_cycle_reboot cycle idle updated reads-Fits updated_terminates
      (λ e. ground (arith, updated_posts))

abbrev fetched : Ota
fetched = result_of (fetch_ota_manifest fetch (codes "m") idle)
  where
    result_of : Option (EspErr × Ota) → Ota
    result_of none = idle
    result_of (some (e, s)) = s

fetched-ok : fetch_ota_manifest fetch (codes "m") idle ≡ some (esp_ok, fetched)
unfolding fetch_ota_manifest after_loop read_manifest request_manifest finish_fetch parse_manifest
    fill_manifest zeros write_at http_events cstr strncpy
fetched-ok = refl

fetch_ota_manifest-ok_example : Fetched fetch fetched.manifest
fetch_ota_manifest-ok_example =
    fetch_ota_manifest-ok fetch (codes "m") idle fetched reads-Fits fetched-ok

-- The download on its own.
abbrev loaded : Ota
loaded = loaded_of (download 2 1 chunks false 0 idle)
  where
    loaded_of : Option (Bool × Ota) → Ota
    loaded_of none = idle
    loaded_of (some (b, s)) = s

loaded-ok : download 2 1 chunks false 0 idle ≡ some (true, loaded)
unfolding download download_round first_chunk no_chunk write_chunk zeros write_at
loaded-ok = refl

download_sound_example :
    Image 1 (pieces chunks 0) (some 9) idle loaded × Headed 2 (codes "abc" ∷ [])
unfolding pieces begun_handle
download_sound_example = download_sound 2 1 chunks 0 idle loaded loaded-ok

-- A round that begins with the mark of an earlier redirect.
abbrev marked : Ota
marked = record idle { expect_redirect = true }

ota_cycle-redirected_example : (state_of (ota_cycle cycle marked)).expect_redirect ≡ true
ota_cycle-redirected_example =
    ota_cycle-redirected cycle marked (state_of (ota_cycle cycle marked)) refl (
      some-state_of (ota_cycle cycle marked)
        (ota_cycle_terminates cycle marked reads-Ends cycle-Stops))
