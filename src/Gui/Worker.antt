-- ===== src/Gui/Worker.antt =====
-- components/gui-component/priv_src/ui_worker.c: the queue of jobs for LVGL and the task that runs
-- them under its lock.
pub mod Sync
use gate_lock_home_node.Base.{
  ℕ, Bool, true, false, Option, none, some, List, [], ◌∷◌, ◌++◌, ltb, take, length, cstr, get_elem?,
  if◌then◌else◌,
}
use gate_lock_home_node.Gui.Types.{
  Gui, GuiEnv, Child, JobCallback, set_wifi_ssid_job, set_discovery_msg_job, set_main_label_job,
  load_screen_cb, NotifyMsg, lv_label_set_text, lv_scr_load, lvgl_port_lock, lvgl_port_unlock,
  queue_create, task_create, made, ui_max_string_length, ui_worker_max_job_size,
  notify_queue_length,
}

-- `xQueueSend(notify_queue, …, portMAX_DELAY)`: `none` is a sender that waits for room, or that a
-- missing queue stops.
unfoldable pub send_notify : NotifyMsg → Option (List NotifyMsg) → Gui → Option (Bool × Gui)
send_notify msg none g = none
send_notify msg (some queue) g =
    if ltb (length queue) notify_queue_length
    then some (true, record g { notify_queue = some (queue ++ msg ∷ []) })
    else none

unfoldable pub ui_worker_process_job : JobCallback → List ℕ → ℕ → Gui → Option (Bool × Gui)
unfolding send_notify
ui_worker_process_job cb bytes size g =
    if ltb ui_worker_max_job_size size
    then some (false, g)
    else send_notify (record { cb = cb; data_size = size; bytes = take size bytes }) g.notify_queue
        g

-- The objects of a child; the array's other places hold none.
abbrev pub object_of : Option Child → Option ℕ
object_of none = none
object_of (some c) = c.lv_obj

abbrev set_text : Option ℕ → List ℕ → Gui → Gui
set_text none text g = g
set_text (some obj) text g = made (lv_label_set_text obj (cstr text)) g

-- ui_home_screen_label_job_t: the index, and then the text.
unfoldable pub set_label_job : List ℕ → Gui → Gui
set_label_job [] g = g
set_label_job (child_index ∷ text) g =
    set_text (object_of (get_elem? g.children child_index)) (take ui_max_string_length text) g

-- The functions that a job can name. The three for labels of home_screen.c have one body.
unfoldable pub run_callback : JobCallback → List ℕ → Gui → Gui
unfolding set_label_job
run_callback set_wifi_ssid_job bytes g = set_label_job bytes g
run_callback set_discovery_msg_job bytes g = set_label_job bytes g
run_callback set_main_label_job bytes g = set_label_job bytes g
run_callback load_screen_cb bytes g = made (lv_scr_load g.lv_screen) g

module _ (env : GuiEnv) where
  abbrev pub under_lock : NotifyMsg → Gui → Gui
  under_lock msg g =
      let locked : Bool = env.locked g.calls in
      if locked
      then made lvgl_port_unlock (run_callback msg.cb msg.bytes (made (lvgl_port_lock true) g))
      else made (lvgl_port_lock false) g

  -- One round of `ui_worker_task`, if there is a message. A message is lost if the lock is refused.
  abbrev pub receive_notify : Option (List NotifyMsg) → Gui → Gui
  receive_notify none g = g
  receive_notify (some []) g = g
  receive_notify (some (msg ∷ queue)) g = under_lock msg (record g { notify_queue = some queue })

  unfoldable pub ui_worker_task : Gui → Gui
  unfolding run_callback
  ui_worker_task g = receive_notify g.notify_queue g

  -- The job runs in the caller, under the lock.
  unfoldable pub ui_worker_process_job_sync : JobCallback → List ℕ → Gui → Bool × Gui
  unfolding run_callback
  ui_worker_process_job_sync cb bytes g =
      let locked : Bool = env.locked g.calls in
      if locked
      then (true, made lvgl_port_unlock (run_callback cb bytes (made (lvgl_port_lock true) g)))
      else (false, made (lvgl_port_lock false) g)

  -- `none` is the abort of ESP_ERROR_CHECK.
  unfoldable pub ui_worker_init : Gui → Option Gui
  ui_worker_init g =
      let t : Gui = record (made queue_create g) { notify_queue = some [] } in
      if env.queue_created g.calls
      then (if env.task_created t.calls then some (made task_create t) else none)
      else none
