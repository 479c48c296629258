-- ===== src/Gui/Home.antt =====
-- components/gui-component/priv_src/home_screen.c: the home screen and what changes it.
use gate_lock_home_node.Base.{
  ℕ, Bool, Option, none, List, [], ◌∷◌, ◌++◌, ◌+◌, pos, codes, snprintf_text,
}
use gate_lock_home_node.Gui.Types.{
  Gui, GuiEnv, Call, Child, ChildType, ui_child_icon, ui_child_label, ui_child_bar, JobCallback,
  set_wifi_ssid_job, set_discovery_msg_job, set_main_label_job, load_screen_cb, UiCall, load_screen,
  set_wifi_ssid, set_discovery_msg, set_main_label, lv_obj_create, lv_label_create, lv_img_create,
  lv_bar_create, lv_obj_set_pos, lv_obj_set_size, lv_obj_set_width, lv_label_set_long_mode_clip,
  lv_obj_set_style_clip_corner, lv_image_set_inner_align_center, lv_bar_set_value,
  ui_max_string_length,
}
use gate_lock_home_node.Gui.Worker.{ui_worker_process_job}

abbrev label : List ℕ → ℕ → ℕ → ℕ → ℕ → Child
label id x y w h = record {
  type = ui_child_label;
  id = id;
  lv_obj = none;
  x = pos x;
  y = pos y;
  w = pos w;
  h = pos h;
  icon = none;
  current_state = 0;
  text = [];
  initial_value = pos 0;
}

-- The initial value of `home_screen`, with the parts that are in use.
abbrev pub home_screen_children : List Child
home_screen_children =
    label (codes "wifi_ssid") 57 0 46 26
    ∷ label (codes "discovery_msg") 0 1 52 26
    ∷ label (codes "main_label") 2 31 122 28
    ∷ []

-- `stack` is what the local array `job.text` holds before `snprintf`. The job has 31 bytes.
unfoldable pub set_label : List ℕ → JobCallback → ℕ → List ℕ → Gui → Option (Bool × Gui)
unfolding ui_worker_process_job
set_label stack cb child_index text g =
    ui_worker_process_job cb (child_index ∷ snprintf_text stack ui_max_string_length text)
      (1 + ui_max_string_length) g

unfoldable pub ui_home_screen_set_wifi_ssid : List ℕ → List ℕ → Gui → Option (Bool × Gui)
unfolding set_label
ui_home_screen_set_wifi_ssid stack text g = set_label stack set_wifi_ssid_job 0 text g

unfoldable pub ui_home_screen_set_discovery_msg : List ℕ → List ℕ → Gui → Option (Bool × Gui)
unfolding set_label
ui_home_screen_set_discovery_msg stack text g = set_label stack set_discovery_msg_job 1 text g

unfoldable pub ui_home_screen_set_main_label : List ℕ → List ℕ → Gui → Option (Bool × Gui)
unfolding set_label
ui_home_screen_set_main_label stack text g = set_label stack set_main_label_job 2 text g

unfoldable pub ui_home_load_screen : Gui → Option (Bool × Gui)
unfolding ui_worker_process_job
ui_home_load_screen g = ui_worker_process_job load_screen_cb [] 0 g

unfoldable pub ui_call : List ℕ → UiCall → Gui → Option (Bool × Gui)
unfolding ui_home_screen_set_wifi_ssid ui_home_screen_set_discovery_msg
    ui_home_screen_set_main_label ui_home_load_screen
ui_call stack load_screen g = ui_home_load_screen g
ui_call stack (set_wifi_ssid text) g = ui_home_screen_set_wifi_ssid stack text g
ui_call stack (set_discovery_msg text) g = ui_home_screen_set_discovery_msg stack text g
ui_call stack (set_main_label text) g = ui_home_screen_set_main_label stack text g

-- The calls that place a child, the newest first, once its object is made.
abbrev pub place_calls : ChildType → Option ℕ → Child → List Call
place_calls ui_child_label obj c =
    lv_label_set_long_mode_clip obj ∷ lv_obj_set_width obj c.w ∷ lv_obj_set_pos obj c.x c.y ∷ []
place_calls ui_child_icon obj c =
    lv_image_set_inner_align_center obj
    ∷ lv_obj_set_style_clip_corner obj
    ∷ lv_obj_set_size obj c.w c.h
    ∷ lv_obj_set_pos obj c.x c.y
    ∷ []
place_calls ui_child_bar obj c =
    lv_bar_set_value obj c.initial_value
    ∷ lv_obj_set_size obj c.w c.h
    ∷ lv_obj_set_pos obj c.x c.y
    ∷ []

abbrev pub create_call : Option ℕ → ChildType → Call
create_call screen ui_child_label = lv_label_create screen
create_call screen ui_child_icon = lv_img_create screen
create_call screen ui_child_bar = lv_bar_create screen

module _ (env : GuiEnv) where
  -- The loop over the children.
  unfoldable pub init_children : Option ℕ → List Child → List Call → List Child × List Call
  init_children screen [] calls = ([], calls)
  init_children screen (c ∷ cs) calls =
      let obj : Option ℕ = env.created calls in
      let (rest, after) =
        init_children screen cs (place_calls c.type obj c ++ (create_call screen c.type ∷ calls)) in
      (record c { lv_obj = obj } ∷ rest, after)

  unfoldable pub ui_home_init : Gui → Gui
  unfolding init_children
  ui_home_init g =
      let screen : Option ℕ = env.created g.calls in
      let (children, calls) = init_children screen g.children (lv_obj_create ∷ g.calls) in
      record g { lv_screen = screen; children = children; calls = calls }
