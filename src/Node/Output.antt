-- ===== src/Node/Output.antt =====
-- components/user-request-response/user_output.c: the answers to requests.
use gate_lock_home_node.Base.{
  ℕ, Bool, true, Option, some, List, EspErr, esp_ok, is_ok, codes, if◌then◌else◌,
}
use gate_lock_home_node.Http.Types.{Server, Bank}
use gate_lock_home_node.Http.Respond.{http_server_send_response}
use gate_lock_home_node.Http.Async.{
  http_server_close_async_connection, http_server_send_chunked_response,
}
use gate_lock_home_node.Http.Routes.{
  http_server_default_config, http_server_get_interface, http_server_init,
}
use gate_lock_home_node.Node.Types.{Node, NodeEnv}

module _ {S : Type 0} (env : NodeEnv) (bank : Bank S) where
  -- `send_response` and `close_async_connection` of the server's interface.
  unfoldable pub respond_and_close : List ℕ → ℕ → Server S → Server S
  respond_and_close body slot s =
      (http_server_close_async_connection env.httpd bank slot
        (http_server_send_response env.httpd (some slot) (some body) s).1).1

  unfoldable pub user_request_response_send_log : Option (List ℕ) → ℕ → Node S → EspErr × Node S
  user_request_response_send_log log_data context w =
      let (r, s) = http_server_send_chunked_response env.httpd bank context log_data w.server in
      (r, record w { server = s })

  unfoldable pub user_request_response_inform_command_status : Bool → ℕ → Node S → EspErr × Node S
  unfolding respond_and_close
  user_request_response_inform_command_status success context w = (
    esp_ok,
    record w {
      server =
          respond_and_close (if success then codes "success" else codes "Failed") context w.server;
    },
  )

  unfoldable pub user_request_response_create : Node S → EspErr × Node S
  user_request_response_create w =
      let (r, s) = http_server_init env.httpd bank http_server_default_config w.server in
      if http_server_get_interface w.server
      then (esp_ok, record w { output_interface = true })
      else (if is_ok r
          then (esp_ok, record w { server = s; output_interface = http_server_get_interface s })
          else (r, record w { server = s }))
