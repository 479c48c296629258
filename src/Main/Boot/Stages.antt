-- ===== src/Main/Boot/Stages.antt =====
-- The stages of `app_main` of main/home-node.c, from the first call to the idle loop.
use gate_lock_home_node.Base.{subst, sym, Bool, Option, List, [], ◌∷◌, ◌++◌, arith, codes}
use gate_lock_home_node.Http.Types.{Bank, Server}
use gate_lock_home_node.Node.Types.{DelegateJob}
use gate_lock_home_node.Gui.Types.{
  GuiEvent, system_booting, system_wifi_ap_scanning, system_wifi_sta_connected,
  system_espnow_started,
}
use gate_lock_home_node.Main.Types.{
  gate_node_id, gate_node_mac, discovery_duration, discovery_interval, sync_manager_init,
  event_system_adapter_init, log_capture_init, wifi_initialize, wifi_get_channel,
  peer_registry_init, registry_add_peer, transport_add_peer, discovery_service_init,
  message_codec_init, start_discovery, MainEnv, System,
}
use gate_lock_home_node.Main.Start.{wait_connected}
use gate_lock_home_node.Main.App.{connect, join_gate, serve, app_main}
use gate_lock_home_node.Main.Routes.{FreshServer}
use gate_lock_home_node.Main.Display.{Display}
use gate_lock_home_node.Main.Display.Laws.{DisplayLaws}
use gate_lock_home_node.Main.Boot.{AllWell, Carried, Booting, Serving, Reaches, Reaches-then}
use gate_lock_home_node.Main.Boot.Calls.{
  call-Reaches, deref-Reaches, esp_flash_init-Reaches, check-Reaches, start_transport-Reaches,
  mdns-Reaches, wait_discovered-Reaches, wait_connected-Reaches,
}
use gate_lock_home_node.Main.Boot.Parts.{
  inform-Reaches, start_lcd-Reaches, start_op-Reaches, routine_handler_init-Reaches,
  use_interface-Reaches, user_request_create-Reaches, user_request_response_create-Reaches,
  start_updates-Reaches, queue_after,
}

-- The events that the start tells the display, in their order.
abbrev pub boot_events : List GuiEvent
boot_events =
    system_booting ∷ system_wifi_ap_scanning ∷ system_wifi_sta_connected ∷ system_espnow_started
    ∷ []

module _ {S : Type 0} (env : MainEnv) (well : AllWell env) {display : Display}
    (laws : DisplayLaws display) (bank : Bank S) (v : Server S) (f : FreshServer v)
    (q : Option (List DelegateJob)) where
  abbrev r : Option (List DelegateJob)
  r = queue_after env.node q

  connect-Reaches :
      (s : System S)
      → laws.Dark s.gui × Carried v q s.node
      → Reaches
          (connect env display bank)
          s
          (Booting laws v r (system_booting ∷ system_wifi_ap_scanning ∷ []))
  unfolding connect
  connect-Reaches s d =
      let (b, bs, e) = well.connects in
      let scanning : List GuiEvent = system_booting ∷ system_wifi_ap_scanning ∷ [] in
      Reaches-then (esp_flash_init-Reaches env well s (λ g w. laws.Dark g × Carried v q w) d)
        λ s1 d1. Reaches-then (start_lcd-Reaches laws v q s1 d1) λ s2 d2.
          Reaches-then (start_op-Reaches laws v q s2 d2) λ s3 d3.
            Reaches-then (call-Reaches sync_manager_init s3 (Booting laws v q []) d3) λ s4 d4.
              Reaches-then (call-Reaches event_system_adapter_init s4 (Booting laws v q []) d4)
                λ s5 d5.
                  Reaches-then (routine_handler_init-Reaches env well bank laws v q [] s5 d5)
                    λ s6 d6. Reaches-then (use_interface-Reaches laws v r s6 [] d6) λ s7 d7.
                      Reaches-then (inform-Reaches laws v r system_booting [] s7 (omega arith) d7)
                        λ s8 d8.
                          Reaches-then
                            (call-Reaches wifi_initialize s8
                              (Booting laws v r (system_booting ∷ [])) d8)
                            λ s9 d9.
                              Reaches-then
                                (inform-Reaches laws v r system_wifi_ap_scanning
                                  (system_booting ∷ []) s9 (omega arith) d9)
                                λ t u.
                                  subst
                                    (λ (bs : List Bool).
                                      Reaches (wait_connected bs) t (Booting laws v r scanning))
                                    (sym e)
                                    (wait_connected-Reaches b bs t (Booting laws v r scanning) u)

  join_gate-Reaches :
      (s : System S)
      → Booting laws v r (system_booting ∷ system_wifi_ap_scanning ∷ []) s.gui s.node
      → Reaches (join_gate env display bank) s (Booting laws v r boot_events)
  unfolding join_gate
  join_gate-Reaches s d =
      let scanning : List GuiEvent = system_booting ∷ system_wifi_ap_scanning ∷ [] in
      let connected : List GuiEvent = scanning ++ system_wifi_sta_connected ∷ [] in
      let all = Booting laws v r boot_events in
      let peer = registry_add_peer gate_node_id gate_node_mac (codes "gatenode") in
      Reaches-then (call-Reaches log_capture_init s (Booting laws v r scanning) d) λ s1 d1.
        Reaches-then
          (inform-Reaches laws v r system_wifi_sta_connected scanning s1 (omega arith) d1)
          λ s2 d2. Reaches-then (mdns-Reaches env well s2 (Booting laws v r connected) d2) λ s3 d3.
            Reaches-then
              (check-Reaches env well wifi_get_channel s3 (Booting laws v r connected) d3)
              λ s4 d4.
                Reaches-then (start_transport-Reaches env well s4 (Booting laws v r connected) d4)
                  λ s5 d5.
                    Reaches-then
                      (inform-Reaches laws v r system_espnow_started connected s5 (omega arith) d5)
                      λ s6 d6. Reaches-then (call-Reaches (peer_registry_init 2) s6 all d6) λ s7 d7.
                        Reaches-then (deref-Reaches env.peer_registry s7 all well.registry d7)
                          λ s8 d8. Reaches-then (call-Reaches peer s8 all d8) λ s9 d9.
                            Reaches-then (call-Reaches (transport_add_peer gate_node_mac) s9 all d9)
                              λ t u.
                                Reaches-then
                                  (call-Reaches
                                    (discovery_service_init discovery_duration discovery_interval) t
                                    all u)
                                  λ v x. call-Reaches message_codec_init v all x

  serve-Reaches :
      (events : List GuiEvent) (s : System S)
      → Booting laws v r events s.gui s.node
      → Reaches (serve env display bank) s (Serving laws env.node.httpd bank v r events)
  unfolding serve
  serve-Reaches events s d =
      let told = Serving laws env.node.httpd bank v r events in
      Reaches-then (user_request_create-Reaches env well bank laws v r events s f d) λ s1 d1.
        Reaches-then (user_request_response_create-Reaches env well bank laws v r events s1 d1)
          λ s2 d2. Reaches-then (call-Reaches start_discovery s2 told d2) λ s3 d3.
            Reaches-then (wait_discovered-Reaches env well s3 told d3)
              λ s4 d4. start_updates-Reaches env well bank laws v r events s4 d4

  pub app_main-Reaches :
      (s : System S)
      → laws.Dark s.gui
      → Carried v q s.node
      → Reaches (app_main env display bank) s (Serving laws env.node.httpd bank v r boot_events)
  unfolding app_main
  app_main-Reaches s d c =
      Reaches-then (connect-Reaches s (d, c))
        λ t u. Reaches-then (join_gate-Reaches t u) λ w x. serve-Reaches boot_events w x
