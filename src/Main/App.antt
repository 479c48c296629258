-- ===== src/Main/App.antt =====
-- main/home-node.c: `app_main`, in its order.
use gate_lock_home_node.Base.{some, EspErr, codes}
use gate_lock_home_node.Http.Types.{Bank}
use gate_lock_home_node.Gui.Types.{
  system_booting, system_wifi_ap_scanning, system_wifi_sta_connected, system_espnow_started,
}
use gate_lock_home_node.Main.Display.{Display}
use gate_lock_home_node.Node.Types.{Node}
use gate_lock_home_node.Node.Request.{UserRequestConfig, user_request_create}
use gate_lock_home_node.Node.Output.{user_request_response_create}
use gate_lock_home_node.Node.Routine.{routine_handler_init}
use gate_lock_home_node.Ota.Control.{ota_service_init}
use gate_lock_home_node.Main.Types.{
  gate_node_id, gate_node_mac, discovery_duration, discovery_interval, sync_manager_init,
  event_system_adapter_init, log_capture_init, wifi_initialize, wifi_get_channel,
  peer_registry_init, registry_add_peer, transport_add_peer, discovery_service_init,
  message_codec_init, start_discovery, MainEnv, M, ◌>>◌,
}
use gate_lock_home_node.Main.Mdns.{mdns_service_start}
use gate_lock_home_node.Main.Start.{
  call, on_gui, on_node, inform, deref, check, esp_flash_init, start_transport, wait_discovered,
  wait_connected,
}

abbrev pub request_config : UserRequestConfig
request_config = record {
  gate_open_endpoint = some (codes "/open-gate");
  gate_close_endpoint = some (codes "/close-gate");
  log_endpoint = some (codes "/get-log");
  ota_update_endpoint = some (codes "/ota-update");
}

-- `gui_interface` is used without a test for NULL.
abbrev pub use_interface : {S : Type 0} → Display → M S (Unit {0})
use_interface display s = deref (display.interface s.gui) s

abbrev pub start_updates : {S : Type 0} → MainEnv → Node S → EspErr × Node S
start_updates env w = let (r, o) = ota_service_init env.ota_init w.ota in (r, record w { ota = o })

module _ {S : Type 0} (env : MainEnv) (display : Display) (bank : Bank S) where
  -- The display, the events and the connection.
  unfoldable pub connect : M S (Unit {0})
  connect = do
    esp_flash_init env
    on_gui display.start_lcd
    on_gui display.start_op
    call sync_manager_init
    call event_system_adapter_init
    on_node (λ w. some (routine_handler_init env.node bank w))
    use_interface display
    inform display system_booting
    call wifi_initialize
    inform display system_wifi_ap_scanning
    wait_connected env.connected

  -- ESP-NOW and the gate as a peer. The registry is used before the test for NULL.
  unfoldable pub join_gate : M S (Unit {0})
  join_gate = do
    call log_capture_init
    inform display system_wifi_sta_connected
    mdns_service_start env
    check env wifi_get_channel
    start_transport env
    inform display system_espnow_started
    call (peer_registry_init 2)
    deref env.peer_registry
    call (registry_add_peer gate_node_id gate_node_mac (codes "gatenode"))
    call (transport_add_peer gate_node_mac)
    call (discovery_service_init discovery_duration discovery_interval)
    call message_codec_init

  -- The endpoints, the answers, and the update service once the gate is found.
  unfoldable pub serve : M S (Unit {0})
  serve = do
    on_node (user_request_create env.node bank (some request_config))
    on_node (λ w. some (user_request_response_create env.node bank w))
    call start_discovery
    wait_discovered env
    on_node (λ w. some (start_updates env w))

  -- The result is the state in which the last loop idles.
  unfoldable pub app_main : M S (Unit {0})
  unfolding connect join_gate serve
  app_main = do connect; join_gate; serve
