-- ===== src/Main/Start.antt =====
-- main/home-node.c: the parts of the start, and the wait for the connection.
use gate_lock_home_node.Base.{
  Bool, true, false, ◌||◌, Option, none, some, List, [], ◌∷◌, EspErr, is_ok, eq_int, esp_fail,
  if◌then◌else◌,
}
use gate_lock_home_node.Gui.Types.{Gui, GuiEvent}
use gate_lock_home_node.Main.Display.{Display}
use gate_lock_home_node.Node.Types.{Node}
use gate_lock_home_node.Main.Types.{
  Call, nvs_flash_init, nvs_flash_erase, transport_init, sync_signal_wait, delay, MainEnv, System,
  M, ◌>>◌,
}

module _ {S : Type 0} where
  -- A call whose result is not looked at.
  abbrev pub call : Call → M S (Unit {0})
  call c s = some (tt, record s { calls = c ∷ s.calls })

  abbrev pub put_gui : {A : Type 0} → Option (A × Gui) → M S (Unit {0})
  put_gui none s = none
  put_gui (some (r, g)) s = some (tt, record s { gui = g })

  abbrev pub put_node : {A : Type 0} → Option (A × Node S) → M S (Unit {0})
  put_node none s = none
  put_node (some (r, w)) s = some (tt, record s { node = w })

  -- A part of the display runs, and its result is not looked at.
  abbrev pub on_gui : {A : Type 0} → (Gui → Option (A × Gui)) → M S (Unit {0})
  on_gui f s = put_gui (f s.gui) s

  abbrev pub on_node : {A : Type 0} → (Node S → Option (A × Node S)) → M S (Unit {0})
  on_node f s = put_node (f s.node) s

  -- `gui_interface->gui_inform(event, NULL)`, its result ignored.
  abbrev pub inform : Display → GuiEvent → M S (Unit {0})
  inform display e = on_gui (display.inform e none)

  -- `interface` is a pointer that is used: NULL is a reset.
  abbrev pub deref : Bool → M S (Unit {0})
  deref true s = some (tt, s)
  deref false s = none

  module _ (env : MainEnv) where
    -- ESP_ERROR_CHECK around a call.
    abbrev pub check : Call → M S (Unit {0})
    check c s =
        if is_ok (env.result s.calls c) then some (tt, record s { calls = c ∷ s.calls }) else none

    -- The partition is erased and tried again if it has no room or another version.
    unfoldable pub esp_flash_init : M S (Unit {0})
    esp_flash_init s =
        let r : EspErr = env.result s.calls nvs_flash_init in
        let t : System S = record s { calls = nvs_flash_init ∷ s.calls } in
        if eq_int r env.nvs_no_free_pages || eq_int r env.nvs_new_version_found
        then (do check nvs_flash_erase; check nvs_flash_init) t
        else if is_ok r
        then some (tt, t)
        else none

    -- The result of `esp_now_transport_init` stops the start only if it is ESP_FAIL.
    unfoldable pub start_transport : M S (Unit {0})
    start_transport s =
        let c : Call = transport_init env.channel in
        if eq_int (env.result s.calls c) esp_fail
        then none
        else some (tt, record s { calls = c ∷ s.calls })

    -- `sync_manager_signal_wait(SYNC_EVENT_DISCOVERY_COMPLETE, true, portMAX_DELAY)`.
    unfoldable pub wait_discovered : M S (Unit {0})
    wait_discovered s =
        if env.discovered then some (tt, record s { calls = sync_signal_wait ∷ s.calls }) else none

  -- The callback of wifi.
  unfoldable pub init_espnow : System S → System S
  init_espnow s = record s { proceed = true }

  abbrev called_back : Bool → System S → System S
  called_back true s = init_espnow s
  called_back false s = s

  -- The loop that waits for `proceed`, over its tests to come; `none` means that the connection does
  -- not come within them.
  unfoldable pub wait_connected : List Bool → M S (Unit {0})
  unfolding init_espnow
  wait_connected [] s = none
  wait_connected (b ∷ bs) s =
      let t : System S = called_back b s in
      let again = wait_connected bs (record t { calls = delay ∷ t.calls }) in
      if t.proceed then some (tt, t) else again
