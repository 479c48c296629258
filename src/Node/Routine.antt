-- ===== src/Node/Routine.antt =====
-- main/routine_event_handler.c: the handler of the components' routine events, and the task to
-- which it delegates.
use gate_lock_home_node.Base.{
  ℕ, ◌==◌, ltb, Bool, true, false, Option, none, some, List, [], ◌∷◌, ◌++◌, length, EspErr, esp_ok,
  esp_fail, esp_err_invalid_arg, is_ok, if◌then◌else◌,
}
use gate_lock_home_node.Http.Types.{Bank}
use gate_lock_home_node.Ota.Types.{
  routine_event_reboot_required, routine_event_verification_pending,
}
use gate_lock_home_node.Ota.Control.{ota_process_start, ota_set_valid}
use gate_lock_home_node.Node.Types.{
  Node, NodeEnv, send_command, queue_send, create_queue, create_task, signal_discovery_complete,
  set_reconnect, restart, snapshot_take, snapshot_read, Command, open_lock, close_lock, lock_status,
  DelegateJob, event_gate_open, event_gate_close, event_gate_status, event_log, event_ota_update,
}
use gate_lock_home_node.Node.Output.{
  user_request_response_send_log, user_request_response_inform_command_status,
}

abbrev pub delegate_arg_max_size : ℕ
delegate_arg_max_size = 32

-- sizeof(void*) on the ESP32 family.
abbrev pub pointer_size : ℕ
pointer_size = 4

-- DISCOVERY_EVENT_DISCOVERY_COMPLETE and MESSAGE_SERVICE_ROUTINE_EVENT_SEND_STATUS are numbers of
-- other components' headers.
pub record EventIds : Type 0 where
  pub discovery_complete : ℕ
  pub send_status : ℕ

-- The event bases that the handler knows, each with its event data: a request's slot, or the
-- acknowledgement of a command.
pub data RoutineEvent : Type 0 where
  discovery_event : ℕ → RoutineEvent
  user_request_event : ℕ → ℕ → RoutineEvent
  ota_service_event : ℕ → RoutineEvent
  message_codec_event : ℕ → Bool → ℕ → RoutineEvent
  other_event : RoutineEvent

module _ {S : Type 0} (env : NodeEnv) (bank : Bank S) where
  -- The loop that sends the log: one answer of `log_snapshot_read` a round, up to the first that is
  -- empty. `none` means that it is still sending when the answers end. A read stores at most 255
  -- bytes and the loop adds a NUL.
  unfoldable pub send_log_loop : List (List ℕ) → ℕ → Node S → Option (Node S)
  send_log_loop [] ctx w = none
  send_log_loop (bytes ∷ reads) ctx w =
      let t : Node S = record w { calls = snapshot_read ∷ w.calls } in
      let (r, u) = user_request_response_send_log env bank (some (bytes ++ 0 ∷ [])) ctx t in
      let rest = send_log_loop reads ctx u in
      if length bytes == 0
      then some (user_request_response_send_log env bank none ctx t).1
      else if is_ok r
      then rest
      else some u

  unfoldable pub delegated_to_task_send_log : List (List ℕ) → ℕ → Node S → Option (Node S)
  unfolding send_log_loop
  delegated_to_task_send_log reads ctx w =
      send_log_loop reads ctx (record w { calls = snapshot_take ∷ w.calls })

  -- One round of `delegate_run_task`: the oldest job, if any, is taken and run.
  abbrev pub run_job : List (List ℕ) → Option (List DelegateJob) → Node S → Option (Node S)
  run_job reads none w = some w
  run_job reads (some []) w = some w
  run_job reads (some (job ∷ jobs)) w =
      delegated_to_task_send_log reads job.arg (record w { delegate_queue = some jobs })

  unfoldable pub delegate_run_task : List (List ℕ) → Node S → Option (Node S)
  delegate_run_task reads w = run_job reads w.delegate_queue w

  abbrev pub append_job : Option (List DelegateJob) → DelegateJob → Option (List DelegateJob)
  append_job none job = none
  append_job (some jobs) job = some (jobs ++ job ∷ [])

  -- `xQueueSend` waits for room without end; `queued` says whether it gave pdPASS.
  unfoldable pub delegate_post : ℕ → ℕ → Node S → EspErr × Node S
  delegate_post arg len w =
      let t : Node S = record w { calls = queue_send arg len ∷ w.calls } in
      if ltb delegate_arg_max_size len
      then (esp_err_invalid_arg, w)
      else if env.queued w.calls
      then (
        esp_ok,
        record t {
          delegate_queue = append_job w.delegate_queue (record { arg = arg; arg_len = len });
        },
      )
      else (esp_fail, t)

  -- `esp_restart` does not come back: the node given after it is the one that is lost, and the steps
  -- of Node/Requests end there.
  unfoldable pub routine_ota_service_events_handler : ℕ → Node S → Node S
  routine_ota_service_events_handler id w =
      if id == routine_event_reboot_required
      then record w { calls = restart ∷ set_reconnect false ∷ w.calls }
      else (if id == routine_event_verification_pending
          then record w {
            ota = (ota_set_valid true w.ota).1;
            calls = restart ∷ set_reconnect false ∷ w.calls;
          }
          else w)

  unfoldable pub routine_discovery_events_handler : EventIds → ℕ → Node S → Node S
  routine_discovery_events_handler ids id w =
      if id == ids.discovery_complete
      then record w { calls = signal_discovery_complete ∷ w.calls }
      else w

  -- `message_codec_send_command`, and the answer "Failed" if it does not take the command.
  unfoldable pub command_gate : Command → ℕ → Node S → Node S
  command_gate command ctx w =
      let t : Node S = record w { calls = send_command command ctx ∷ w.calls } in
      if is_ok (env.sent w.calls command ctx)
      then t
      else (user_request_response_inform_command_status env bank false ctx t).1

  -- The case of the update falls through into `default`, which does nothing. The result of
  -- `delegate_post` is not looked at, and `ota_process_start` never fails.
  unfoldable pub routine_user_request_events_handler : ℕ → ℕ → Node S → Node S
  unfolding command_gate delegate_post
  routine_user_request_events_handler id ctx w =
      let (r, o) = ota_process_start w.ota in
      let started : Node S = record w { ota = o } in
      if id == event_gate_open
      then command_gate open_lock ctx w
      else if id == event_gate_close
      then command_gate close_lock ctx w
      else if id == event_gate_status
      then command_gate lock_status ctx w
      else if id == event_log
      then (delegate_post ctx pointer_size w).1
      else if id == event_ota_update
      then (user_request_response_inform_command_status env bank (is_ok r) ctx started).1
      else w

  unfoldable pub routine_message_service_events_handler : EventIds → ℕ → Bool → ℕ → Node S → Node S
  routine_message_service_events_handler ids id success ctx w =
      if id == ids.send_status
      then (user_request_response_inform_command_status env bank success ctx w).1
      else w

  unfoldable pub routine_event_handler : EventIds → RoutineEvent → Node S → Node S
  unfolding routine_discovery_events_handler routine_user_request_events_handler
      routine_ota_service_events_handler routine_message_service_events_handler
  routine_event_handler ids (discovery_event id) w = routine_discovery_events_handler ids id w
  routine_event_handler ids (user_request_event id ctx) w =
      routine_user_request_events_handler id ctx w
  routine_event_handler ids (ota_service_event id) w = routine_ota_service_events_handler id w
  routine_event_handler ids (message_codec_event id success ctx) w =
      routine_message_service_events_handler ids id success ctx w
  routine_event_handler ids other_event w = w

  abbrev is_none : Option (List DelegateJob) → Bool
  is_none none = true
  is_none (some _) = false

  -- The task of `routine_handler_init`, once there is a queue.
  unfoldable pub init_task : Node S → EspErr × Node S
  init_task w =
      let t : Node S = record w { calls = create_task ∷ w.calls } in
      if w.delegate_task
      then (esp_ok, w)
      else if env.task_created
      then (esp_ok, record t { delegate_task = true })
      else (esp_fail, t)

  unfoldable pub routine_handler_init : Node S → EspErr × Node S
  unfolding init_task
  routine_handler_init w =
      let t : Node S = record w { calls = create_queue ∷ w.calls } in
      if is_none w.delegate_queue
      then (if env.queue_created
          then init_task (record t { delegate_queue = some [] })
          else (esp_fail, t))
      else init_task w
