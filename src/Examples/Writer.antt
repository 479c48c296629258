-- ===== src/Examples/Writer.antt =====
-- The theorems on components/sd-card-logging, applied to a card whose driver refuses a bus twice.
use gate_lock_home_node.Base.{
  ◌++◌, ◌≡◌, refl, true, false, inl, inr, Option, none, some, [], ◌∷◌, arith, esp_ok, esp_fail,
  codes, cstr, ltb, if◌then◌else◌,
}
use gate_lock_home_node.Sd.Types.{Card, CardEnv, bus_held}
use gate_lock_home_node.Sd.Mount.{
  sd_mount_init, sd_mount_deinit, sd_mount-bus_held, sd_mount_deinit-bus_held,
}
use gate_lock_home_node.Sd.Writer.{
  RoundEnv, sd_log_writer_start, sd_log_writer_stop, sd_log_round, write_logs, write_timestamp,
}
use gate_lock_home_node.Sd.Writer.Start.{
  start_writer, stop_writer, use_writer, OneTask, RefusesHeld, tasks, use_writer-OneTask,
  restart-refused,
}
use gate_lock_home_node.Sd.Writer.File.{
  file_state, handed, sd_log_round-closed, sd_log_round-handed, sd_log_round_terminates, logged,
  stamp_line,
}

abbrev driver : CardEnv
driver = record {
  spi2_host = 1;
  config_sd_spi_host = 1;
  bus_result = λ cs. if ltb 0 (bus_held 1 cs) then esp_fail else esp_ok;
  mount_result = λ cs. esp_ok;
  task_created = λ cs. true;
}

driver-RefusesHeld : RefusesHeld driver
driver-RefusesHeld cs h = ground arith

abbrev card : Card
card = record { task = false; interval_ms = 4000; calls = [] }

sd_mount-bus_held_example : bus_held 1 (sd_mount_init driver card).1.calls ≡ 1
unfolding sd_mount_init bus_held
sd_mount-bus_held_example = sd_mount-bus_held driver card

abbrev mounted : Card
mounted = (sd_mount_init driver card).1

mounted-ok : sd_mount_init driver card ≡ (true, mounted)
unfolding sd_mount_init bus_held
mounted-ok = refl

sd_mount_deinit-bus_held_example : bus_held 1 (sd_mount_deinit driver mounted).calls ≡ 0
unfolding bus_held
sd_mount_deinit-bus_held_example = sd_mount_deinit-bus_held driver card mounted refl mounted-ok

card-OneTask : OneTask card
unfolding tasks
card-OneTask = refl

use_writer-OneTask_example :
    OneTask (use_writer card (start_writer driver 100 ∷ stop_writer ∷ start_writer driver 200 ∷ []))
use_writer-OneTask_example =
    use_writer-OneTask (start_writer driver 100 ∷ stop_writer ∷ start_writer driver 200 ∷ []) card
      card-OneTask

abbrev started : Card
started = (sd_log_writer_start driver 100 card).1

started-ok : sd_log_writer_start driver 100 card ≡ (true, started)
unfolding sd_log_writer_start sd_mount_init bus_held
started-ok = refl

restart-refused_example : (sd_log_writer_start driver 200 (sd_log_writer_stop started)).0 ≡ false
restart-refused_example = restart-refused driver 100 200 card started driver-RefusesHeld started-ok

-- Two reads, the second of which is the end.
abbrev round : RoundEnv
round = record {
  opened = true;
  timestamp = some (codes "noon");
  stamp_written = 4;
  line_written = 1;
  reads = record { bytes = codes "on"; written = 2 } ∷ record { bytes = []; written = 0 } ∷ [];
}

abbrev state_of : Option Card → Card
state_of none = card
state_of (some s) = s

round-ends : sd_log_round round card ≡ some (state_of (sd_log_round round card))
unfolding sd_log_round write_logs write_timestamp
round-ends = refl

closed_first : file_state [] ≡ some false
unfolding file_state
closed_first = refl

sd_log_round-closed_example : file_state (state_of (sd_log_round round card)).calls ≡ some false
sd_log_round-closed_example =
    sd_log_round-closed round card (state_of (sd_log_round round card)) closed_first round-ends

sd_log_round-handed_example : handed (state_of (sd_log_round round card)).calls ≡ codes "noon\non"
unfolding handed logged cstr
sd_log_round-handed_example =
    sd_log_round-handed round card (state_of (sd_log_round round card)) refl round-ends

sd_log_round_terminates_example :
    (t : Card) × (sd_log_round round card ≡ some t)
    × (handed t.calls
        ≡ handed card.calls
          ++ (if round.opened then stamp_line round.timestamp ++ logged round.reads else []))
sd_log_round_terminates_example = sd_log_round_terminates round card (inr (inl (inl refl)))
