-- ===== src/Examples/Display.antt =====
-- The theorems on components/gui-component, applied to a home screen that is told two events.
use gate_lock_home_node.Base.{
  ℕ, ◌≡◌, refl, true, false, none, some, List, [], ◌∷◌, arith, replicate, codes, esp_ok, length,
  cstr,
}
use gate_lock_home_node.Gui.Types.{Gui, GuiEnv, system_booting, system_wifi_ap_scanning}
use gate_lock_home_node.Gui.Worker.{
  ui_worker_task, ui_worker_process_job, send_notify, run_callback,
}
use gate_lock_home_node.Gui.Home.{
  home_screen_children, ui_home_init, init_children, ui_call, set_label,
  ui_home_screen_set_wifi_ssid, ui_home_screen_set_main_label, ui_home_load_screen,
}
use gate_lock_home_node.Gui.Op.{op_calls, next_op, gui_op_task, gui_inform}
use gate_lock_home_node.Gui.Op.View.{screen_shown, label_shown, shown}
use gate_lock_home_node.Gui.Op.Steps.{GuiStep, informs, op_runs, worker_runs, gui_run, settle}
use gate_lock_home_node.Gui.Op.Settle.{gui_settles}
use gate_lock_home_node.Gui.Op.Bounds.{Bounded, gui_run-Bounded}
use gate_lock_home_node.Gui.Lcd.{sh1107, lcd_init}
use gate_lock_home_node.Gui.Lcd.Ready.{Ready, Works, lcd_init-Ready, lcd_init-total}

-- Every call succeeds, and an object is known by the number of calls before it.
abbrev pub screen : GuiEnv
screen = record {
  created = λ cs. some (length cs);
  locked = λ cs. true;
  queue_created = λ cs. true;
  task_created = λ cs. true;
  driver_result = λ cs c. esp_ok;
}

-- The display as the linker leaves it.
abbrev pub dark : Gui
dark = record {
  children = home_screen_children;
  lv_screen = none;
  notify_queue = none;
  gui_op_queue = none;
  init = false;
  pending = [];
  calls = [];
}

-- The home screen is there, and both queues are empty.
abbrev lit : Gui
lit = record (ui_home_init screen dark) { notify_queue = some []; gui_op_queue = some [] }

abbrev pub frame : List ℕ
frame = replicate 30 7

abbrev told : List GuiStep
told =
    informs system_booting none
    ∷ op_runs frame
    ∷ informs system_wifi_ap_scanning none
    ∷ op_runs frame
    ∷ worker_runs
    ∷ []

gui_settles_example :
    shown (settle screen frame 8 (gui_run screen lit told)).calls
    ≡ screen_shown (some 0)
      ∷ label_shown 9 (codes "booting")
      ∷ label_shown 9 (codes "scanning wifi...")
      ∷ label_shown 1 (codes "some_ap")
      ∷ []
unfolding ui_home_init init_children gui_inform gui_op_task next_op op_calls ui_call
    ui_home_load_screen ui_home_screen_set_main_label ui_home_screen_set_wifi_ssid set_label
    ui_worker_process_job send_notify ui_worker_task run_callback shown cstr
gui_settles_example = gui_settles screen (λ cs. refl) frame told lit 8 refl (omega arith)

gui_run-Bounded_example : Bounded (gui_run screen lit told)
unfolding ui_home_init
gui_run-Bounded_example =
    gui_run-Bounded screen told lit (refl, (refl, tt)) (omega arith, omega arith, tt)

pub screen-Works : Works screen
screen-Works = record { driven = λ cs c. refl; queue = λ cs. refl; task = λ cs. refl }

abbrev started : Gui
started = (lcd_init-total screen sh1107 dark screen-Works).0

started_lem : lcd_init screen sh1107 dark ≡ some (esp_ok, started)
started_lem = (lcd_init-total screen sh1107 dark screen-Works).1

lcd_init-Ready_example : (esp_ok ≡ esp_ok) × Ready screen dark started
lcd_init-Ready_example = lcd_init-Ready screen sh1107 dark started esp_ok started_lem

lcd_init-total_example : (t : Gui) × (lcd_init screen sh1107 dark ≡ some (esp_ok, t))
lcd_init-total_example = lcd_init-total screen sh1107 dark screen-Works
