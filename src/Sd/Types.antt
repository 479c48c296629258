-- ===== src/Sd/Types.antt =====
-- components/sd-card-logging: the static data, and the calls on the SPI bus, the card, the file, the
-- log capture, the time service and FreeRTOS.
use gate_lock_home_node.Base.{ℕ, suc, ◌-◌, ◌==◌, Bool, List, [], ◌∷◌, EspErr, is_ok, if◌then◌else◌}

-- The calls, each with its result where the source looks at it. `fwrite` has the bytes and how many
-- of them were written, `fopen` whether a file came back, `create_task` whether it gave pdPASS.
pub data Call : Type 0 where
  bus_initialize : ℕ → EspErr → Call
  card_mount : EspErr → Call
  card_unmount : Call
  bus_free : ℕ → Call
  fopen : Bool → Call
  fwrite : List ℕ → ℕ → Call
  fflush fclose : Call
  now_str snapshot_take snapshot_read : Call
  time_init time_sync : Call
  create_task : Bool → Call
  delete_task : Call
  delay : ℕ → Call

-- What the outside answers, by the calls made before, the newest first; the number of SPI2_HOST,
-- and the host that the build's configuration names.
pub record CardEnv : Type 0 where
  pub spi2_host : ℕ
  pub config_sd_spi_host : ℕ
  pub bus_result : List Call → EspErr
  pub mount_result : List Call → EspErr
  pub task_created : List Call → Bool

-- Whether `s_task` is set, `s_interval_ms`, and the calls made so far, the newest first.
pub record Card : Type 0 where
  pub task : Bool
  pub interval_ms : ℕ
  pub calls : List Call

abbrev pub made : Call → Card → Card
made c s = record s { calls = c ∷ s.calls }

-- How many times the bus of a host is initialised and not freed.
unfoldable pub bus_held : ℕ → List Call → ℕ
bus_held h [] = 0
bus_held h (bus_initialize k r ∷ cs) =
    let n = bus_held h cs in if k == h then (if is_ok r then suc n else n) else n
bus_held h (bus_free k ∷ cs) = let n = bus_held h cs in if k == h then n - 1 else n
bus_held h (_ ∷ cs) = bus_held h cs
