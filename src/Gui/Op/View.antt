-- ===== src/Gui/Op/View.antt =====
-- What the display of components/gui-component has shown, and what still waits in its queues.
use gate_lock_home_node.Base.{
  ℕ, Option, none, some, List, [], ◌∷◌, ◌++◌, flat_map, take, cstr, get_elem?,
}
use gate_lock_home_node.Gui.Types.{
  Gui, Call, Child, JobCallback, set_wifi_ssid_job, set_discovery_msg_job, set_main_label_job,
  load_screen_cb, NotifyMsg, GuiEvent, OpInfo, UiCall, load_screen, set_wifi_ssid,
  set_discovery_msg, set_main_label, lv_label_set_text, lv_scr_load,
}
use gate_lock_home_node.Gui.Worker.{object_of}
use gate_lock_home_node.Gui.Op.{op_calls}

-- What a client of the display sees: a text on a label, or a screen.
pub data Shown : Type 0 where
  label_shown : ℕ → List ℕ → Shown
  screen_shown : Option ℕ → Shown

-- What LVGL was told to show, in its order.
unfoldable pub shown : List Call → List Shown
shown [] = []
shown (lv_label_set_text obj text ∷ cs) = shown cs ++ label_shown obj text ∷ []
shown (lv_scr_load screen ∷ cs) = shown cs ++ screen_shown screen ∷ []
shown (_ ∷ cs) = shown cs

abbrev pub queue_of : {A : Type 0} → Option (List A) → List A
queue_of none = []
queue_of (some xs) = xs

abbrev pub show_on : Option ℕ → List ℕ → List Shown
show_on none text = []
show_on (some obj) text = label_shown obj text ∷ []

abbrev pub label_effect : List Child → ℕ → List ℕ → List Shown
label_effect children i text = show_on (object_of (get_elem? children i)) text

abbrev pub job_effect : List Child → List ℕ → List Shown
job_effect children [] = []
job_effect children (child_index ∷ text) = label_effect children child_index (cstr (take 30 text))

module _ (children : List Child) (screen : Option ℕ) where
  -- What a call of home_screen.c promises: its text cut to 29 bytes on the label, if it has an object.
  abbrev pub call_effect : UiCall → List Shown
  call_effect load_screen = screen_shown screen ∷ []
  call_effect (set_wifi_ssid text) = label_effect children 0 (take 29 (cstr text))
  call_effect (set_discovery_msg text) = label_effect children 1 (take 29 (cstr text))
  call_effect (set_main_label text) = label_effect children 2 (take 29 (cstr text))

  abbrev pub event_effect : GuiEvent → List Shown
  event_effect e = flat_map call_effect (op_calls e)

  abbrev pub cb_effect : JobCallback → List ℕ → List Shown
  cb_effect load_screen_cb bytes = screen_shown screen ∷ []
  cb_effect set_wifi_ssid_job bytes = job_effect children bytes
  cb_effect set_discovery_msg_job bytes = job_effect children bytes
  cb_effect set_main_label_job bytes = job_effect children bytes

  abbrev pub msg_effect : NotifyMsg → List Shown
  msg_effect m = cb_effect m.cb m.bytes

  abbrev pub op_effect : OpInfo → List Shown
  op_effect op = event_effect op.event

-- What waits: messages, the rest of the event at hand, and the events behind it.
abbrev pub waiting : List Child → Option ℕ → List NotifyMsg → List UiCall → List OpInfo → List Shown
waiting children screen msgs pending ops =
    flat_map (msg_effect children screen) msgs
    ++ (flat_map (call_effect children screen) pending ++ flat_map (op_effect children screen) ops)

-- All that was shown and that will be.
abbrev pub view : Gui → List Shown
view g =
    shown g.calls
    ++ waiting g.children g.lv_screen (queue_of g.notify_queue) g.pending (queue_of g.gui_op_queue)
