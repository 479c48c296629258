-- ===== src/Examples/Requests.antt =====
-- The theorems on the requests of the node, applied to a node that starts, takes a request for its
-- log and sends it.
use gate_lock_home_node.Base.{
  elem, ◌<◌, ◌+◌, ◌≢◌, count, ℕ, ◌≡◌, ◌≤◌, refl, true, false, Option, none, some, List, [], ◌∷◌,
  arith, codes, cstr, same_text,
}
use gate_lock_home_node.Http.Async.{http_server_send_chunked_response, send_allocated, send_data}
use gate_lock_home_node.Http.Async.Pools.{TakesWork}
use gate_lock_home_node.Http.Routes.{
  find_uri, http_server_get_interface, http_server_init, http_server_register_uri, add_uri,
  master_request_handler,
}
use gate_lock_home_node.Node.Types.{NodeEnv}
use gate_lock_home_node.Node.Output.{user_request_response_send_log, user_request_response_create}
use gate_lock_home_node.Node.Request.{
  post_request, handle_request, user_request_create, create_on, log_request_handler,
}
use gate_lock_home_node.Node.Routine.{
  routine_event_handler, routine_user_request_events_handler, delegate_post, routine_handler_init,
  init_task,
}
use gate_lock_home_node.Node.Requests.{
  World, Step, request_comes, event_runs, log_starts, log_reads, step, run_from,
}
use gate_lock_home_node.Node.Requests.Owners.{WorldInv, owners, finishing, taken, completed}
use gate_lock_home_node.Node.Requests.Full.{request_refused}
use gate_lock_home_node.Node.Requests.History.{run_from-WorldInv}
use gate_lock_home_node.Node.Requests.Holders.{used, history_holds}
use gate_lock_home_node.Node.Requests.Settle.{settling}
use gate_lock_home_node.Node.Requests.Work.{work_left}
use gate_lock_home_node.Gui.Dummy.{dummy_get_interface, dummy_op_init}
use gate_lock_home_node.Ota.Control.{ota_service_init}
use gate_lock_home_node.Main.Types.{MainEnv, System}
use gate_lock_home_node.Main.Start.{
  esp_flash_init, start_transport, wait_discovered, wait_connected, init_espnow,
}
use gate_lock_home_node.Main.Mdns.{mdns_service_start}
use gate_lock_home_node.Main.App.{app_main, connect, join_gate, serve}
use gate_lock_home_node.Main.Display.{no_display}
use gate_lock_home_node.Main.Display.Laws.{no_display-DisplayLaws}
use gate_lock_home_node.Main.Boot.{AllWell}
use gate_lock_home_node.Main.Life.{FreshNode, opening, app_main-WorldInv, node_settles}
use gate_lock_home_node.Examples.Pool.{pool, pool-BankLaws, pool-HasBlocks}
use gate_lock_home_node.Examples.Server.{httpd}
use gate_lock_home_node.Examples.Gate.{outside, ids}
use gate_lock_home_node.Examples.Boot.{well, well-AllWell, asleep, off, unused-FreshServer}

-- All requests are for the log.
abbrev asked : NodeEnv
asked = record outside { httpd = record httpd { uri_of = λ r. codes "/get-log" } }

abbrev home : MainEnv
home = record well { node = asked }

abbrev started : System (List ℕ)
started = state_of (app_main home no_display pool off)
  where
    state_of : Option (Unit {0} × System (List ℕ)) → System (List ℕ)
    state_of none = off
    state_of (some (a, t)) = t

started_lem : app_main home no_display pool off ≡ some (tt, started)
unfolding app_main connect join_gate serve esp_flash_init start_transport wait_discovered
    wait_connected init_espnow mdns_service_start routine_handler_init init_task user_request_create
    create_on http_server_init http_server_get_interface http_server_register_uri add_uri cstr
    user_request_response_create ota_service_init dummy_get_interface dummy_op_init
started_lem = refl

abbrev history : List Step
history = request_comes 7 ∷ event_runs ∷ log_starts ∷ log_reads (codes "hi") ∷ []

abbrev sending : World (List ℕ)
sending = world_of (run_from asked pool ids (some (opening started.node)) history)
  where
    world_of : Option (World (List ℕ)) → World (List ℕ)
    world_of none = opening started.node
    world_of (some w) = w

sending_lem : run_from asked pool ids (some (opening started.node)) history ≡ some sending
unfolding app_main connect join_gate serve esp_flash_init start_transport wait_discovered
    wait_connected init_espnow mdns_service_start routine_handler_init init_task user_request_create
    create_on http_server_init http_server_get_interface http_server_register_uri add_uri cstr
    user_request_response_create ota_service_init handle_request master_request_handler find_uri
    same_text post_request log_request_handler routine_event_handler
    routine_user_request_events_handler delegate_post user_request_response_send_log
    http_server_send_chunked_response send_allocated send_data dummy_get_interface dummy_op_init
sending_lem = refl

home-AllWell : AllWell home
home-AllWell = record {
  called = well-AllWell.called;
  room = well-AllWell.room;
  same_version = well-AllWell.same_version;
  connects = well-AllWell.connects;
  registry = well-AllWell.registry;
  found = well-AllWell.found;
  serves = λ cs port n. refl;
}

asleep-FreshNode : FreshNode asleep
asleep-FreshNode = record {
  server = unused-FreshServer;
  works = refl;
  calls = refl;
  queue = refl;
  room = λ c. refl;
}

started-WorldInv : WorldInv asked pool (opening started.node)
unfolding no_display-DisplayLaws
started-WorldInv =
    app_main-WorldInv home pool (λ n i. refl) no_display-DisplayLaws off started home-AllWell refl
      tt asleep-FreshNode started_lem

asked-TakesWork : TakesWork asked.httpd
asked-TakesWork cs w = refl

run_from-WorldInv_example : WorldInv asked pool sending
run_from-WorldInv_example =
    run_from-WorldInv asked pool ids pool-BankLaws asked-TakesWork (λ cs. refl) history
      (opening started.node) sending sending_lem started-WorldInv

sending-used : elem 0 (used sending) ≡ true
unfolding app_main connect join_gate serve esp_flash_init start_transport wait_discovered
    wait_connected init_espnow mdns_service_start routine_handler_init init_task user_request_create
    create_on http_server_init http_server_get_interface http_server_register_uri add_uri cstr
    user_request_response_create ota_service_init handle_request master_request_handler find_uri
    same_text post_request log_request_handler routine_event_handler
    routine_user_request_events_handler delegate_post user_request_response_send_log
    http_server_send_chunked_response send_allocated send_data dummy_get_interface dummy_op_init
sending-used = refl

history_holds_example :
    (pool.held sending.node.server.async_bank 0 ≡ true)
    × (completed (sending.node.server.async_objs 0).req sending.node.server.calls
        < taken asked.httpd (sending.node.server.async_objs 0).req sending.node.server.calls)
history_holds_example =
    history_holds asked pool ids pool-BankLaws asked-TakesWork (λ cs. refl) history
      (opening started.node) sending 0 started-WorldInv sending_lem sending-used

sending-work : work_left sending ≤ 4
unfolding app_main connect join_gate serve esp_flash_init start_transport wait_discovered
    wait_connected init_espnow mdns_service_start routine_handler_init init_task user_request_create
    create_on http_server_init http_server_get_interface http_server_register_uri add_uri cstr
    user_request_response_create ota_service_init handle_request master_request_handler find_uri
    same_text post_request log_request_handler routine_event_handler
    routine_user_request_events_handler delegate_post user_request_response_send_log
    http_server_send_chunked_response send_allocated send_data dummy_get_interface dummy_op_init
sending-work = omega arith

node_settles_example :
    (v : World (List ℕ)) × (run_from asked pool ids (some sending) (settling true 4) ≡ some v)
    × (pool.held v.node.server.async_bank 0 ≡ false)
    × (taken asked.httpd 7 v.node.server.calls ≡ completed 7 v.node.server.calls)
    × (step asked pool ids v (request_comes 8) ≢ none)
unfolding no_display-DisplayLaws
node_settles_example =
    node_settles home pool (λ n i. refl) no_display-DisplayLaws pool-BankLaws pool-HasBlocks
      asked-TakesWork (λ cs. refl) ids off started history sending true 4 0 7 8 home-AllWell refl tt
      asleep-FreshNode started_lem sending_lem sending-work

-- Four requests, one of which is being sent the log.
abbrev crowd : List Step
crowd =
    request_comes 3
    ∷ request_comes 4
    ∷ event_runs
    ∷ log_starts
    ∷ request_comes 5
    ∷ request_comes 6
    ∷ []

abbrev crowded : World (List ℕ)
crowded = world_of (run_from asked pool ids (some (opening started.node)) crowd)
  where
    world_of : Option (World (List ℕ)) → World (List ℕ)
    world_of none = opening started.node
    world_of (some w) = w

crowded_lem : run_from asked pool ids (some (opening started.node)) crowd ≡ some crowded
unfolding app_main connect join_gate serve esp_flash_init start_transport wait_discovered
    wait_connected init_espnow mdns_service_start routine_handler_init init_task user_request_create
    create_on http_server_init http_server_get_interface http_server_register_uri add_uri cstr
    user_request_response_create ota_service_init handle_request master_request_handler find_uri
    same_text post_request log_request_handler routine_event_handler
    routine_user_request_events_handler delegate_post user_request_response_send_log
    http_server_send_chunked_response send_allocated send_data dummy_get_interface dummy_op_init
crowded_lem = refl

fifth_lem : step asked pool ids crowded (request_comes 7) ≡ none
unfolding app_main connect join_gate serve esp_flash_init start_transport wait_discovered
    wait_connected init_espnow mdns_service_start routine_handler_init init_task user_request_create
    create_on http_server_init http_server_get_interface http_server_register_uri add_uri cstr
    user_request_response_create ota_service_init handle_request master_request_handler find_uri
    same_text post_request log_request_handler routine_event_handler
    routine_user_request_events_handler delegate_post user_request_response_send_log
    http_server_send_chunked_response send_allocated send_data dummy_get_interface dummy_op_init
fifth_lem = refl

request_refused_example :
    owners 2 [] crowded.events crowded.commands crowded.node.delegate_queue crowded.sending
        crowded.node.server.works
      + count 2 (finishing crowded.node.server.works)
    ≡ 1
request_refused_example =
    request_refused asked pool ids pool-BankLaws asked-TakesWork (λ cs. refl) crowd
      (opening started.node) crowded 4 7 2 pool-HasBlocks started-WorldInv crowded_lem fifth_lem
      (omega arith)
