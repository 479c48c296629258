-- ===== src/Node/Request.antt =====
-- components/user-request/user_request.c: the endpoints, and what a request for one of them does.
use gate_lock_home_node.Base.{
  ℕ, Option, none, some, List, ◌∷◌, EspErr, esp_ok, esp_fail, is_ok, ◌==◌, codes, if◌then◌else◌,
}
use gate_lock_home_node.Http.Types.{Server, Bank, method_get}
use gate_lock_home_node.Http.Routes.{
  http_server_default_config, http_server_get_interface, http_server_init, http_server_register_uri,
  master_request_handler, Handled, replied, call_back, null_write,
}
use gate_lock_home_node.Node.Types.{
  Node, NodeEnv, post_event, register_event, event_gate_open, event_gate_close, event_gate_status,
  event_log, event_ota_update,
}
use gate_lock_home_node.Node.Output.{respond_and_close}

-- user_request_config_t.
pub record UserRequestConfig : Type 0 where
  pub gate_open_endpoint : Option (List ℕ)
  pub gate_close_endpoint : Option (List ℕ)
  pub log_endpoint : Option (List ℕ)
  pub ota_update_endpoint : Option (List ℕ)

-- The four handlers, known by numbers where they are registered.
pub data Handler : Type 0 where
  gate_close_handler gate_open_handler log_handler ota_update_handler : Handler

abbrev pub handler_id : Handler → ℕ
handler_id gate_close_handler = 0
handler_id gate_open_handler = 1
handler_id log_handler = 2
handler_id ota_update_handler = 3

module _ {S : Type 0} (env : NodeEnv) (bank : Bank S) where
  -- The text that the four handlers share: the event is posted with the request, and if that fails
  -- the request is answered at once.
  unfoldable pub post_request : ℕ → ℕ → Node S → Node S
  post_request event request w =
      let t : Node S = record w { calls = post_event event request ∷ w.calls } in
      if is_ok (env.posted w.calls event request)
      then t
      else record t { server = respond_and_close env bank (codes "failure") request w.server }

  unfoldable pub ota_update_request_handler : ℕ → Node S → Node S
  unfolding post_request
  ota_update_request_handler request w = post_request event_ota_update request w

  unfoldable pub log_request_handler : ℕ → Node S → Node S
  unfolding post_request
  log_request_handler request w = post_request event_log request w

  unfoldable pub gate_close_request_handler : ℕ → Node S → Node S
  unfolding post_request
  gate_close_request_handler request w = post_request event_gate_close request w

  unfoldable pub gate_open_request_handler : ℕ → Node S → Node S
  unfolding post_request
  gate_open_request_handler request w = post_request event_gate_open request w

  -- The call through the pointer that is registered with a URI.
  abbrev pub call_handler : ℕ → ℕ → Node S → Node S
  call_handler id request w =
      if id == handler_id gate_close_handler
      then gate_close_request_handler request w
      else if id == handler_id gate_open_handler
      then gate_open_request_handler request w
      else if id == handler_id log_handler
      then log_request_handler request w
      else ota_update_request_handler request w

  abbrev pub finish_handled : Handled S → Node S → Option (Node S)
  finish_handled (replied s) w = some (record w { server = s })
  finish_handled (call_back id slot uri s) w = some (call_handler id slot (record w { server = s }))
  finish_handled null_write w = none

  -- A request that esp_http_server hands to `master_request_handler`, the registered handler
  -- included; `none` is its write through NULL.
  unfoldable pub handle_request : ℕ → Node S → Option (Node S)
  handle_request req w = finish_handled (master_request_handler env.httpd bank req w.server) w

  -- One `register_uri`, its result ignored.
  abbrev pub register : Option (List ℕ) → Handler → Option (Server S) → Option (Server S)
  register uri h none = none
  register uri h (some s) =
      elim (http_server_register_uri env.httpd bank uri method_get (some (handler_id h)) s) [
        | none ↦ none
        | some (r, t) ↦ some t
      ]

  abbrev pub register_endpoints : UserRequestConfig → Server S → Option (Server S)
  register_endpoints config s = register config.ota_update_endpoint ota_update_handler (
      register config.log_endpoint log_handler (
        register config.gate_open_endpoint gate_open_handler
          (register config.gate_close_endpoint gate_close_handler (some s))))

  abbrev pub finish_create : Option (Server S) → Node S → Option (EspErr × Node S)
  finish_create none w = none
  finish_create (some s) w = some (
    esp_ok,
    record w {
      server = s;
      calls =
          register_event event_ota_update
          ∷ register_event event_log
          ∷ register_event event_gate_status
          ∷ register_event event_gate_close
          ∷ register_event event_gate_open
          ∷ w.calls;
    },
  )

  -- With the server at hand. The interface is not tested again after `http_server_init`.
  unfoldable pub create_on : UserRequestConfig → Node S → Option (EspErr × Node S)
  create_on config w =
      finish_create (register_endpoints config w.server)
        (record w { request_interface = http_server_get_interface w.server })

  -- The test for NULL names `gate_close_endpoint` twice. `none` is a write past the table of URIs.
  unfoldable pub user_request_create : Option UserRequestConfig → Node S → Option (EspErr × Node S)
  unfolding create_on
  user_request_create none w = some (esp_fail, w)
  user_request_create (some config) w =
      let (r, s) = http_server_init env.httpd bank http_server_default_config w.server in
      elim config.gate_close_endpoint [
        | none ↦ some (esp_fail, w)
        | some _ ↦
            if http_server_get_interface w.server
            then create_on config w
            else if is_ok r
            then create_on config (record w { server = s })
            else some (r, record w { server = s })
      ]
