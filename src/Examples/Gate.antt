-- ===== src/Examples/Gate.antt =====
-- The theorems on the answers of the node, applied to the request in slot 0 of a small server.
use gate_lock_home_node.Base.{
  ◌++◌, inl, inr, ℕ, ◌≡◌, ◌≤◌, refl, true, Option, none, some, List, [], ◌∷◌, arith, esp_ok,
  esp_fail, codes, cstr,
}
use gate_lock_home_node.Http.Async.{http_server_send_chunked_response, send_allocated, send_data}
use gate_lock_home_node.Http.Async.Messages.{wire}
use gate_lock_home_node.Http.Async.History.{sends, run, drain, rounds}
use gate_lock_home_node.Node.Types.{Node, NodeEnv, open_lock}
use gate_lock_home_node.Node.Output.{user_request_response_send_log}
use gate_lock_home_node.Node.Routine.{EventIds, send_log_loop, delegated_to_task_send_log}
use gate_lock_home_node.Node.Answers.{Answered, gate_request, gate_request-Answered}
use gate_lock_home_node.Node.Log.{HasEnd, send_log_returns, send_log_delivered}
use gate_lock_home_node.Examples.Pool.{pool, pool-BankLaws}
use gate_lock_home_node.Examples.Server.{httpd, httpd-TakesWork, server, server-PoolsInv}
use gate_lock_home_node.Examples.Update.{idle}

-- Events are posted, but the codec takes no command.
abbrev pub outside : NodeEnv
outside = record {
  httpd = httpd;
  posted = λ cs event slot. esp_ok;
  sent = λ cs command slot. esp_fail;
  queued = λ cs. true;
  queue_created = true;
  task_created = true;
}

abbrev pub ids : EventIds
ids = record { discovery_complete = 1; send_status = 2 }

abbrev pub node : Node (List ℕ)
node = record {
  server = server;
  ota = idle;
  request_interface = true;
  output_interface = true;
  delegate_queue = some [];
  delegate_task = true;
  calls = [];
}

gate_request-Answered_example :
    Answered outside pool 0
      (codes "Failed")
      server
      (gate_request outside pool ids open_lock 0 true node).server
unfolding cstr
gate_request-Answered_example =
    gate_request-Answered outside pool pool-BankLaws ids open_lock 0 true node

abbrev pub snapshot : List (List ℕ)
snapshot = codes "one" ∷ codes "two" ∷ [] ∷ []

snapshot-HasEnd : HasEnd snapshot
snapshot-HasEnd = inr (inr (inl refl))

send_log_returns_example :
    (t : Node (List ℕ)) × (delegated_to_task_send_log outside pool snapshot 0 node ≡ some t)
    × (t.server
        ≡ run httpd pool server (
            sends 0 (some (codes "one" ++ 0 ∷ []))
            ∷ sends 0 (some (codes "two" ++ 0 ∷ []))
            ∷ sends 0 none
            ∷ []))
send_log_returns_example = send_log_returns outside pool snapshot 0 node snapshot-HasEnd

abbrev sent : Node (List ℕ)
sent = state_of (delegated_to_task_send_log outside pool snapshot 0 node)
  where
    state_of : Option (Node (List ℕ)) → Node (List ℕ)
    state_of none = node
    state_of (some w) = w

sent_terminates : delegated_to_task_send_log outside pool snapshot 0 node ≡ some sent
unfolding delegated_to_task_send_log send_log_loop user_request_response_send_log
    http_server_send_chunked_response send_allocated
sent_terminates = refl

sent-rounds : rounds sent.server.works ≤ 4
unfolding delegated_to_task_send_log send_log_loop user_request_response_send_log
    http_server_send_chunked_response send_allocated send_data
sent-rounds = omega arith

send_log_delivered_example :
    wire (drain httpd pool 4 sent.server).calls
    ≡ (7, some (codes "one")) ∷ (7, some (codes "two")) ∷ (7, none) ∷ []
unfolding http_server_send_chunked_response send_allocated send_data cstr
send_log_delivered_example =
    send_log_delivered outside pool pool-BankLaws httpd-TakesWork snapshot 0 node sent 4
      server-PoolsInv sent_terminates sent-rounds
