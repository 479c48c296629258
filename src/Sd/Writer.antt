-- ===== src/Sd/Writer.antt =====
-- components/sd-card-logging/logger.c: the start and the stop of the writer, and the rounds of its
-- task.
pub mod Start
pub mod File
use gate_lock_home_node.Base.{
  ℕ, ◌==◌, Bool, false, Option, none, some, List, [], ◌∷◌, cstr, length, if◌then◌else◌,
}
use gate_lock_home_node.Sd.Types.{
  Card, CardEnv, fopen, fwrite, fflush, fclose, now_str, snapshot_take, snapshot_read, time_init,
  time_sync, create_task, delete_task, delay, made,
}
use gate_lock_home_node.Sd.Mount.{sd_mount_init}

unfoldable pub sd_log_writer_start : CardEnv → ℕ → Card → Bool × Card
unfolding sd_mount_init
sd_log_writer_start env interval_ms s =
    let (mounted, t) = sd_mount_init env s in
    let u : Card = made time_sync (made time_init t) in
    let created : Bool = env.task_created u.calls in
    if mounted
    then (if u.task then (false, u) else (
      created,
      record u { task = created; interval_ms = interval_ms; calls = create_task created ∷ u.calls },
    ))
    else (false, u)

unfoldable pub sd_log_writer_stop : Card → Card
sd_log_writer_stop s = if s.task then record (made delete_task s) { task = false } else s

-- An answer to `log_snapshot_read`, and how many of its bytes `fwrite` then writes.
pub record Read : Type 0 where
  pub bytes : List ℕ
  pub written : ℕ

-- The `do … while` loop over the answers to come; `none` means that it is still reading when they
-- end. The file is open before it and closed after it.
unfoldable pub write_logs : List Read → Card → Option Card
write_logs [] s = none
write_logs (r ∷ rs) s =
    let t : Card = made snapshot_read s in
    let u : Card = made (fwrite r.bytes r.written) t in
    let rest = write_logs rs u in
    if length r.bytes == 0
    then some (made fclose (made fflush t))
    else if r.written == length r.bytes
    then rest
    else some (made fclose (made fflush u))

-- The answers to one round: whether the file opens, the time if it is known, how much of it and of
-- its line end is written, and the reads of the log.
pub record RoundEnv : Type 0 where
  pub opened : Bool
  pub timestamp : Option (List ℕ)
  pub stamp_written : ℕ
  pub line_written : ℕ
  pub reads : List Read

unfoldable pub write_timestamp : RoundEnv → Option (List ℕ) → Card → Card
write_timestamp env none s = made now_str s
write_timestamp env (some text) s =
    made (fwrite (b'\n' ∷ []) env.line_written)
      (made (fwrite (cstr text) env.stamp_written) (made now_str s))

abbrev wait : Option Card → Option Card
wait none = none
wait (some s) = some (made (delay s.interval_ms) s)

-- One round of `sd_log_task`. Every round leaves the file closed, so that each begins with `fopen`.
unfoldable pub sd_log_round : RoundEnv → Card → Option Card
unfolding write_logs write_timestamp
sd_log_round env s =
    let t : Card = made (fopen env.opened) s in
    if env.opened
    then wait (write_logs env.reads (made snapshot_take (write_timestamp env env.timestamp t)))
    else some (made (delay 2000) t)
