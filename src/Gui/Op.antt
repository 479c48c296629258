-- ===== src/Gui/Op.antt =====
-- components/gui-component/src/gui_op.c: the events of the system, and the task that shows them.
pub mod View
pub mod Moves
pub mod Steps
pub mod Weight
pub mod Settle
pub mod Bounds
use gate_lock_home_node.Base.{
  ℕ, Bool, Option, none, some, List, [], ◌∷◌, ◌++◌, ltb, length, replicate, pos, codes, EspErr,
  esp_ok, esp_fail, true, if◌then◌else◌,
}
use gate_lock_home_node.Gui.Types.{
  Gui, GuiEnv, GuiEvent, system_booting, system_wifi_ap_scanning, system_wifi_sta_connected,
  system_espnow_started, system_user_command_received, GuiEventData, OpInfo, UiCall, load_screen,
  set_wifi_ssid, set_main_label, queue_create, task_create, made, gui_op_queue_length,
}
use gate_lock_home_node.Gui.Home.{ui_call}

-- Whether the interface is handed out, and not NULL.
unfoldable pub gui_op_get_interface : Gui → Bool
gui_op_get_interface g = g.init

-- The `switch` of `gui_op_task`, as the calls that it makes.
unfoldable pub op_calls : GuiEvent → List UiCall
op_calls system_booting = load_screen ∷ set_main_label (codes "booting") ∷ []
op_calls system_wifi_ap_scanning =
    set_main_label (codes "scanning wifi...") ∷ set_wifi_ssid (codes "some_ap") ∷ []
op_calls system_wifi_sta_connected =
    set_main_label (codes "Wifi connected") ∷ set_wifi_ssid (codes "some_ap") ∷ []
op_calls system_espnow_started = set_main_label (codes "esp_now started") ∷ []
op_calls system_user_command_received = set_main_label (codes "command received") ∷ []

abbrev pub receive_op : Option (List OpInfo) → Gui → Gui
receive_op none g = g
receive_op (some []) g = g
receive_op (some (op ∷ ops)) g = record g { gui_op_queue = some ops; pending = op_calls op.event }

abbrev pub finish_call : List UiCall → Option (Bool × Gui) → Gui → Gui
finish_call rest none g = g
finish_call rest (some (sent, t)) g = record t { pending = rest }

-- One step of `gui_op_task`: the next call of the event at hand, if it need not wait for room, or the
-- receipt of the next event.
unfoldable pub next_op : List ℕ → List UiCall → Gui → Gui
unfolding op_calls ui_call
next_op stack [] g = receive_op g.gui_op_queue g
next_op stack (c ∷ cs) g = finish_call cs (ui_call stack c g) g

unfoldable pub gui_op_task : List ℕ → Gui → Gui
unfolding next_op
gui_op_task stack g = next_op stack g.pending g

abbrev pub event_data : Option GuiEventData → GuiEventData
event_data none = record { string = replicate 50 0; val = pos 0 }
event_data (some d) = d

-- `xQueueSend` waits 50 ticks for room: a full queue is one that stays full so long. `none` is a
-- queue that was not made.
abbrev pub send_op : OpInfo → Option (List OpInfo) → Gui → Option (EspErr × Gui)
send_op op none g = none
send_op op (some queue) g =
    if ltb (length queue) gui_op_queue_length
    then some (esp_ok, record g { gui_op_queue = some (queue ++ op ∷ []) })
    else some (esp_fail, g)

unfoldable pub gui_inform : GuiEvent → Option GuiEventData → Gui → Option (EspErr × Gui)
gui_inform event evt_data g =
    send_op (record { event = event; evt_data = event_data evt_data }) g.gui_op_queue g

-- `none` is the abort of ESP_ERROR_CHECK.
unfoldable pub gui_op_init : GuiEnv → Gui → Option (EspErr × Gui)
gui_op_init env g =
    let t : Gui = record (made queue_create g) { gui_op_queue = some [] } in
    if env.queue_created g.calls
    then (if env.task_created t.calls
        then some (esp_ok, record (made task_create t) { init = true })
        else none)
    else none
