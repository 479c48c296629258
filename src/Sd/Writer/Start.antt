-- ===== src/Sd/Writer/Start.antt =====
-- The starts and stops of the writer of components/sd-card-logging/logger.c.
use gate_lock_home_node.Base.{
  ℕ, suc, ◌<◌, ◌-◌, ◌≡◌, eq_refl, true, false, List, [], ◌∷◌, arith, is_ok, if◌then◌else◌,
}
use gate_lock_home_node.Sd.Types.{Card, CardEnv, Call, create_task, delete_task, bus_held}
use gate_lock_home_node.Sd.Mount.{sd_mount_init}
use gate_lock_home_node.Sd.Writer.{sd_log_writer_start, sd_log_writer_stop}

-- How many writer tasks live.
unfoldable pub tasks : List Call → ℕ
tasks [] = 0
tasks (create_task created ∷ cs) = let n = tasks cs in if created then suc n else n
tasks (delete_task ∷ cs) = tasks cs - 1
tasks (_ ∷ cs) = tasks cs

-- What other components do to the writer.
pub data Use : Type 0 where
  start_writer : CardEnv → ℕ → Use
  stop_writer : Use

abbrev pub use_writer : Card → List Use → Card
use_writer s [] = s
use_writer s (start_writer env ms ∷ us) = use_writer (sd_log_writer_start env ms s).1 us
use_writer s (stop_writer ∷ us) = use_writer (sd_log_writer_stop s) us

abbrev pub OneTask : Card → Type 0
OneTask s = tasks s.calls ≡ (if s.task then 1 else 0)

start-OneTask :
    (env : CardEnv) (ms : ℕ) (s : Card) → OneTask s → OneTask (sd_log_writer_start env ms s).1
unfolding sd_log_writer_start sd_mount_init tasks
start-OneTask env ms s h = ground arith

stop-OneTask : (s : Card) → OneTask s → OneTask (sd_log_writer_stop s)
unfolding sd_log_writer_stop tasks
stop-OneTask s h = ground arith

-- If just one writer task lives where `s_task` is set, and none where it is not, this still holds
-- after any sequence of starts and stops, whatever their calls answer: there are never two.
pub use_writer-OneTask : (us : List Use) (s : Card) → OneTask s → OneTask (use_writer s us)
use_writer-OneTask [] s h = h
use_writer-OneTask (start_writer env ms ∷ us) s h =
    use_writer-OneTask us (sd_log_writer_start env ms s).1 (start-OneTask env ms s h)
use_writer-OneTask (stop_writer ∷ us) s h =
    use_writer-OneTask us (sd_log_writer_stop s) (stop-OneTask s h)

-- The driver refuses to initialise a bus that is held.
abbrev pub RefusesHeld : CardEnv → Type 0
RefusesHeld env =
    (cs : List Call) → 0 < bus_held env.spi2_host cs → is_ok (env.bus_result cs) ≡ false

start-bus_held :
    (env : CardEnv) (ms : ℕ) (s t : Card)
    → sd_log_writer_start env ms s ≡ (true, t)
    → 0 < bus_held env.spi2_host t.calls
unfolding sd_log_writer_start sd_mount_init bus_held
start-bus_held env ms s t h = ground (arith, eq_refl env.spi2_host)

stop-bus_held : (h : ℕ) (s : Card) → bus_held h (sd_log_writer_stop s).calls ≡ bus_held h s.calls
unfolding sd_log_writer_stop bus_held
stop-bus_held h s = ground arith

start_held :
    (env : CardEnv) (ms : ℕ) (s : Card)
    → is_ok (env.bus_result s.calls) ≡ false
    → (sd_log_writer_start env ms s).0 ≡ false
unfolding sd_log_writer_start sd_mount_init
start_held env ms s h = ground arith

-- Where the driver refuses to initialise a bus that is held, a writer that was started and then
-- stopped cannot be started again: stopping it does not unmount the card.
pub restart-refused :
    (env : CardEnv) (ms again : ℕ) (s t : Card)
    → RefusesHeld env
    → sd_log_writer_start env ms s ≡ (true, t)
    → (sd_log_writer_start env again (sd_log_writer_stop t)).0 ≡ false
restart-refused env ms again s t refuses h = start_held env again (sd_log_writer_stop t) (
    refuses (sd_log_writer_stop t).calls
      (omega (arith, start-bus_held env ms s t h, stop-bus_held env.spi2_host t)))
