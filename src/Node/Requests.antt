-- ===== src/Node/Requests.antt =====
-- The requests of the node while they are open: components/user-request/user_request.c,
-- main/routine_event_handler.c and components/http-server/http_server.c with the parts outside the
-- repository that keep a request for them, in any order of their steps.
pub mod Holders
pub mod Handlers
pub mod LogSteps
pub mod Full
pub mod Delegate
pub mod Moves
pub mod Settle
pub mod Work
pub mod History
pub mod Arrival
pub mod Steps
pub mod Handing
pub mod Serving
pub mod Answering
pub mod Owners
use gate_lock_home_node.Base.{
  ℕ, zero, suc, Bool, true, false, Option, none, some, List, [], ◌∷◌, ◌++◌, drop, length, get_elem?,
  is_ok, ◌==◌, if◌then◌else◌,
}
use gate_lock_home_node.Http.Types.{Bank}
use gate_lock_home_node.Http.Async.{server_task}
use gate_lock_home_node.Node.Types.{
  Node, NodeEnv, Call, post_event, send_command, restart, snapshot_take, snapshot_read, DelegateJob,
}
use gate_lock_home_node.Node.Output.{user_request_response_send_log}
use gate_lock_home_node.Node.Request.{handle_request}
use gate_lock_home_node.Node.Routine.{
  EventIds, discovery_event, user_request_event, ota_service_event, message_codec_event,
  routine_event_handler,
}

-- The node, the events that the adapter has taken and not yet handed to the routine handler (the
-- oldest first), the requests whose command the codec has taken and not yet acknowledged, and the
-- request whose log the delegate task is sending.
pub record World (S : Type 0) : Type 0 where
  pub node : Node S
  pub events : List (ℕ × ℕ)
  pub commands : List ℕ
  pub sending : Option ℕ

module _ (env : NodeEnv) where
  -- The events that the adapter has taken, and the requests whose command the codec has taken, the
  -- oldest first, by the calls that the node has made.
  abbrev pub posts : List Call → List (ℕ × ℕ)
  posts [] = []
  posts (post_event event slot ∷ cs) =
      posts cs ++ (if is_ok (env.posted cs event slot) then (event, slot) ∷ [] else [])
  posts (_ ∷ cs) = posts cs

  abbrev pub sends : List Call → List ℕ
  sends [] = []
  sends (send_command command slot ∷ cs) =
      sends cs ++ (if is_ok (env.sent cs command slot) then slot ∷ [] else [])
  sends (_ ∷ cs) = sends cs

-- A number without its place i.
abbrev pub remove_at : {A : Type 0} → ℕ → List A → List A
remove_at i [] = []
remove_at zero (x ∷ xs) = xs
remove_at (suc i) (x ∷ xs) = x ∷ remove_at i xs

-- A request comes to the server; the event loop hands on its oldest event, an acknowledgement from
-- the codec, or an event of another component; the delegate task takes its oldest job, or makes a
-- round of the loop that sends the log; the server task makes a round.
pub data Step : Type 0 where
  request_comes : ℕ → Step
  event_runs : Step
  status_comes : ℕ → Bool → Step
  discovery_comes ota_service_comes : ℕ → Step
  log_starts : Step
  log_reads : List ℕ → Step
  server_runs : Step

module _ {S : Type 0} (env : NodeEnv) where
  -- The node has moved on; the outside keeps what it took of the node's new calls.
  abbrev pub deliver : World S → Node S → World S
  deliver w t = record w {
    node = t;
    events = w.events ++ drop (length (posts env w.node.calls)) (posts env t.calls);
    commands = w.commands ++ drop (length (sends env w.node.calls)) (sends env t.calls);
  }

  abbrev pub delivered : World S → Option (Node S) → Option (World S)
  delivered w none = none
  delivered w (some t) = some (deliver w t)

abbrev pub is_restarting : List Call → Bool
is_restarting [] = false
is_restarting (restart ∷ cs) = true
is_restarting (_ ∷ cs) = false

module _ {S : Type 0} where
  -- `esp_restart` does not come back: a handler that ends with it leaves no node to go on.
  abbrev pub comes_back : Node S → Option (Node S)
  comes_back t = if is_restarting t.calls then none else some t

  -- `delegate_run_task` takes the oldest job, and `delegated_to_task_send_log` the snapshot.
  abbrev pub start_log : Option ℕ → Option (List DelegateJob) → World S → World S
  start_log none (some (job ∷ jobs)) w = record w {
    node = record w.node { delegate_queue = some jobs; calls = snapshot_take ∷ w.node.calls };
    sending = some job.arg;
  }
  start_log none (some []) w = w
  start_log none none w = w
  start_log (some ctx) jobs w = w

module _ {S : Type 0} (env : NodeEnv) (bank : Bank S) where
  -- One round of the loop of `delegated_to_task_send_log`.
  abbrev pub read_log : Option ℕ → List ℕ → World S → World S
  read_log none bytes w = w
  read_log (some ctx) bytes w =
      let t : Node S = record w.node { calls = snapshot_read ∷ w.node.calls } in
      let (r, u) = user_request_response_send_log env bank (some (bytes ++ 0 ∷ [])) ctx t in
      if length bytes == 0
      then record w {
        node = (user_request_response_send_log env bank none ctx t).1;
        sending = none;
      }
      else record w { node = u; sending = if is_ok r then some ctx else none }

module _ {S : Type 0} (env : NodeEnv) (bank : Bank S) (ids : EventIds) where
  abbrev pub run_event : List (ℕ × ℕ) → World S → World S
  run_event [] w = w
  run_event ((event, slot) ∷ es) w =
      deliver env (record w { events = es })
        (routine_event_handler env bank ids (user_request_event event slot) w.node)

  abbrev pub acknowledge : Option ℕ → ℕ → Bool → World S → World S
  acknowledge none i success w = w
  acknowledge (some slot) i success w =
      deliver env (record w { commands = remove_at i w.commands })
        (routine_event_handler env bank ids (message_codec_event ids.send_status success slot)
          w.node)

  -- `none` is the end of the node: the write through NULL of `master_request_handler`, or the restart
  -- that an event of the update service asks for.
  abbrev pub step : World S → Step → Option (World S)
  step w (request_comes req) = delivered env w (handle_request env bank req w.node)
  step w event_runs = some (run_event w.events w)
  step w (status_comes i success) = some (acknowledge (get_elem? w.commands i) i success w)
  step w (discovery_comes id) =
      some (deliver env w (routine_event_handler env bank ids (discovery_event id) w.node))
  step w (ota_service_comes id) =
      delivered env w
        (comes_back (routine_event_handler env bank ids (ota_service_event id) w.node))
  step w log_starts = some (start_log w.sending w.node.delegate_queue w)
  step w (log_reads bytes) = some (read_log env bank w.sending bytes w)
  step w server_runs =
      some (record w { node = record w.node { server = server_task env.httpd bank w.node.server } })

  abbrev pub run_from : Option (World S) → List Step → Option (World S)
  run_from none ss = none
  run_from (some w) [] = some w
  run_from (some w) (s ∷ ss) = run_from (step w s) ss
