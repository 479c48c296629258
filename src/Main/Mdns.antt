-- ===== src/Main/Mdns.antt =====
-- components/mdns-service/mdns_service.c: the name of the node on the network.
use gate_lock_home_node.Base.{some, ◌∷◌, EspErr, esp_ok, is_ok, codes, if◌then◌else◌}
use gate_lock_home_node.Main.Types.{
  mdns_init, mdns_hostname_set, mdns_instance_name_set, mdns_service_add, MainEnv, M,
}

-- The names are set at build time; only the result of `mdns_init` is looked at.
unfoldable pub mdns_service_start : {S : Type 0} → MainEnv → M S EspErr
mdns_service_start env s =
    let r : EspErr = env.result s.calls mdns_init in
    if is_ok r
    then some (
      esp_ok,
      record s {
        calls =
            mdns_service_add (codes "gate") (codes "_gatecontrol") 80
            ∷ mdns_instance_name_set
            ∷ mdns_hostname_set
            ∷ mdns_init
            ∷ s.calls;
      },
    )
    else some (r, record s { calls = mdns_init ∷ s.calls })
