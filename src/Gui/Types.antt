-- ===== src/Gui/Types.antt =====
-- components/gui-component and components/gui-interface: the data of the display, and the calls on
-- LVGL, its port, the LCD drivers and FreeRTOS.
use gate_lock_home_node.Base.{ℕ, Bool, Option, List, ◌∷◌, ℤ, EspErr}

-- UI_MAX_STRING_LENGTH of priv_include/ui_defs.h.
abbrev pub ui_max_string_length : ℕ
ui_max_string_length = 30

-- UI_WORKER_MAX_JOB_SIZE, and the lengths of the two queues.
abbrev pub ui_worker_max_job_size : ℕ
ui_worker_max_job_size = 64

abbrev pub notify_queue_length : ℕ
notify_queue_length = 16

abbrev pub gui_op_queue_length : ℕ
gui_op_queue_length = 10

-- ui_child_type_t.
pub data ChildType : Type 0 where
  ui_child_icon ui_child_label ui_child_bar : ChildType

-- ui_child_t: an object of LVGL is known by a number.
pub record Child : Type 0 where
  pub type : ChildType
  pub id : List ℕ
  pub lv_obj : Option ℕ
  pub x : ℤ
  pub y : ℤ
  pub w : ℤ
  pub h : ℤ
  pub icon : Option ℕ
  pub current_state : ℕ
  pub text : List ℕ
  pub initial_value : ℤ

-- The functions that are handed to the UI worker.
pub data JobCallback : Type 0 where
  set_wifi_ssid_job set_discovery_msg_job set_main_label_job load_screen_cb : JobCallback

-- notify_msg_t: `bytes` is the part of the array `data` that was copied.
pub record NotifyMsg : Type 0 where
  pub cb : JobCallback
  pub data_size : ℕ
  pub bytes : List ℕ

-- gui_event_t and gui_event_data_t.
pub data GuiEvent : Type 0 where
  system_booting system_wifi_ap_scanning system_wifi_sta_connected : GuiEvent
  system_espnow_started system_user_command_received : GuiEvent

pub record GuiEventData : Type 0 where
  pub string : List ℕ
  pub val : ℤ

-- gui_op_info_t.
pub record OpInfo : Type 0 where
  pub event : GuiEvent
  pub evt_data : GuiEventData

-- The functions of priv_include/ui_home.h, as the calls that `gui_op_task` makes.
pub data UiCall : Type 0 where
  load_screen : UiCall
  set_wifi_ssid set_discovery_msg set_main_label : List ℕ → UiCall

-- The calls, by their arguments.
pub data Call : Type 0 where
  lv_obj_create : Call
  lv_label_create lv_img_create lv_bar_create : Option ℕ → Call
  lv_obj_set_pos lv_obj_set_size : Option ℕ → ℤ → ℤ → Call
  lv_obj_set_width : Option ℕ → ℤ → Call
  lv_label_set_long_mode_clip lv_obj_set_style_clip_corner : Option ℕ → Call
  lv_image_set_inner_align_center : Option ℕ → Call
  lv_bar_set_value : Option ℕ → ℤ → Call
  lv_label_set_text : ℕ → List ℕ → Call
  lv_scr_load : Option ℕ → Call
  lvgl_port_lock : Bool → Call
  lvgl_port_unlock lvgl_port_init : Call
  lvgl_port_add_disp : ℕ → ℕ → ℕ → Call
  queue_create task_create : Call
  i2c_new_master_bus new_panel_io_i2c new_panel_ssd1306 new_panel_sh1107 : Call
  panel_reset panel_init : Call
  panel_disp_on_off panel_invert_color : Bool → Call

-- What the outside answers, by the calls made before, the newest first: the object that LVGL makes,
-- whether the lock of LVGL was obtained, a queue or a task made, and the result of a driver.
pub record GuiEnv : Type 0 where
  pub created : List Call → Option ℕ
  pub locked : List Call → Bool
  pub queue_created : List Call → Bool
  pub task_created : List Call → Bool
  pub driver_result : List Call → Call → EspErr

-- `home_screen`, `notify_queue` and `gui_op`, the calls of `gui_op_task` that are left of the event
-- that it handles, and the calls made so far, the newest first. A queue has its oldest item first.
pub record Gui : Type 0 where
  pub children : List Child
  pub lv_screen : Option ℕ
  pub notify_queue : Option (List NotifyMsg)
  pub gui_op_queue : Option (List OpInfo)
  pub init : Bool
  pub pending : List UiCall
  pub calls : List Call

abbrev pub made : Call → Gui → Gui
made c g = record g { calls = c ∷ g.calls }
