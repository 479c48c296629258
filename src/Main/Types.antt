-- ===== src/Main/Types.antt =====
-- The state of the whole node at its start (main/home-node.c), and the calls that it makes on
-- parts outside the repository.
use gate_lock_home_node.Base.{ℕ, Bool, Option, none, some, List, [], ◌∷◌, EspErr}
use gate_lock_home_node.Gui.Types.{Gui}
use gate_lock_home_node.Node.Types.{Node, NodeEnv}
use gate_lock_home_node.Ota.Control.{InitEnv}

abbrev pub gate_node_id : ℕ
gate_node_id = 2

abbrev pub gate_node_mac : List ℕ
gate_node_mac = 0x24 ∷ 0x0a ∷ 0xc4 ∷ 0x5f ∷ 0x8a ∷ 0x90 ∷ []

abbrev pub discovery_duration : ℕ
discovery_duration = 15000

abbrev pub discovery_interval : ℕ
discovery_interval = 2000

-- The calls, by their arguments. ESP_ERROR_CHECK stands around those whose result a `check` reads.
pub data Call : Type 0 where
  nvs_flash_init nvs_flash_erase : Call
  sync_manager_init event_system_adapter_init log_capture_init : Call
  wifi_initialize wifi_get_channel : Call
  transport_init : ℕ → Call
  peer_registry_init : ℕ → Call
  registry_add_peer : ℕ → List ℕ → List ℕ → Call
  transport_add_peer : List ℕ → Call
  discovery_service_init : ℕ → ℕ → Call
  message_codec_init start_discovery : Call
  sync_signal_wait delay : Call
  mdns_init mdns_hostname_set mdns_instance_name_set : Call
  mdns_service_add : List ℕ → List ℕ → ℕ → Call

-- What the outside answers: the result of a call, by the calls made before; whether wifi has called
-- back (`init_espnow`) by a test of the wait; the channel; whether there is a peer registry; whether the gate is ever
-- discovered, which the start waits for without end; and
-- the answers to the other parts of the node. ESP_ERR_NVS_NO_FREE_PAGES and
-- ESP_ERR_NVS_NEW_VERSION_FOUND are numbers of nvs.h.
pub record MainEnv : Type 0 where
  pub result : List Call → Call → EspErr
  pub nvs_no_free_pages : EspErr
  pub nvs_new_version_found : EspErr
  pub connected : List Bool
  pub channel : ℕ
  pub peer_registry : Bool
  pub discovered : Bool
  pub node : NodeEnv
  pub ota_init : InitEnv

-- `proceed`, the parts of the node, and the calls made so far, the newest first.
pub record System (S : Type 0) : Type 0 where
  pub gui : Gui
  pub node : Node S
  pub proceed : Bool
  pub calls : List Call

-- A function of home-node.c: `none` is a reset (an abort of ESP_ERROR_CHECK or a use of NULL), or a
-- wait that does not end.
abbrev pub M : Type 0 → Type 0 → Type 0
M S A = System S → Option (A × System S)

abbrev pub run_next : {S A B : Type 0} → Option (A × System S) → M S B → Option (B × System S)
run_next none k = none
run_next (some (a, t)) k = k t

infixl 5 ◌>>◌
abbrev pub ◌>>◌ : {S A B : Type 0} → M S A → M S B → M S B
◌>>◌ m k s = run_next (m s) k
