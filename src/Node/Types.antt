-- ===== src/Node/Types.antt =====
-- The state of the node as the request path sees it, and the calls that this path makes on parts
-- outside the repository (the event adapter, the message codec, the log capture, FreeRTOS).
use gate_lock_home_node.Base.{ℕ, Bool, Option, List, EspErr}
use gate_lock_home_node.Http.Types.{Server, Httpd}
use gate_lock_home_node.Ota.Types.{Ota}

-- USER_REQUEST_ROUTINE_EVENT_… of components/user-request/user_request.h.
abbrev pub event_gate_open : ℕ
event_gate_open = 1

abbrev pub event_gate_close : ℕ
event_gate_close = 2

abbrev pub event_gate_status : ℕ
event_gate_status = 3

abbrev pub event_log : ℕ
event_log = 4

abbrev pub event_ota_update : ℕ
event_ota_update = 5

-- The commands of the message codec that the node sends.
pub data Command : Type 0 where
  open_lock close_lock lock_status : Command

-- The calls, by their arguments; a request is known by its slot.
pub data Call : Type 0 where
  post_event : ℕ → ℕ → Call
  register_event : ℕ → Call
  send_command : Command → ℕ → Call
  queue_send : ℕ → ℕ → Call
  create_queue create_task : Call
  signal_discovery_complete : Call
  set_reconnect : Bool → Call
  restart : Call
  snapshot_take snapshot_read : Call

-- delegate_job_t: the one function that is ever delegated is the one that sends the log, and its
-- argument is the pointer to a request.
pub record DelegateJob : Type 0 where
  pub arg : ℕ
  pub arg_len : ℕ

-- The answers of the outside; a result may depend on all calls made before, the newest first.
pub record NodeEnv : Type 0 where
  pub httpd : Httpd
  pub posted : List Call → ℕ → ℕ → EspErr
  pub sent : List Call → Command → ℕ → EspErr
  pub queued : List Call → Bool
  pub queue_created : Bool
  pub task_created : Bool

-- The server, the update service, the two interface pointers (whether they are set), the delegate
-- queue with its task, and the calls made so far.
pub record Node (S : Type 0) : Type 0 where
  pub server : Server S
  pub ota : Ota
  pub request_interface : Bool
  pub output_interface : Bool
  pub delegate_queue : Option (List DelegateJob)
  pub delegate_task : Bool
  pub calls : List Call
