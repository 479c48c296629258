-- ===== src/Http/Routes.antt =====
-- components/http-server/http_server.c: start and stop of the server, the table of URIs and the
-- handler that every request goes through.
pub mod Table
use gate_lock_home_node.Base.{
  ℕ, Bool, true, false, Option, none, some, List, [], ◌∷◌, ◌++◌, ◌+◌, EspErr, esp_ok, esp_fail,
  esp_err_invalid_arg, is_ok, ltb, length, take, drop, set, get_elem?, cstr, same_text, codes,
  update, if◌then◌else◌,
}
use gate_lock_home_node.Http.Types.{
  async_handler_begin, register_uri_handler, start, stop, create_mutex, Httpd, Bank, Server,
  UriRecord, Method, max_uri_length, log_chunk_pool, max_async_requests, send_job_pool,
}
use gate_lock_home_node.Http.Respond.{M, ◌>>=◌, ◌>>◌, return, call, http_server_send_error}

-- http_server_config_t: the fields that `http_server_init` reads.
pub record ServerConfig : Type 0 where
  pub port : ℕ
  pub max_connections : ℕ

-- HTTP_SERVER_DEFAULT_CONFIG().
abbrev pub http_server_default_config : ServerConfig
http_server_default_config = record { port = 80; max_connections = 4 }

-- What a run of `master_request_handler` comes to: it has answered, or it calls a registered
-- function with a slot and a URI and then returns, or it writes through NULL.
pub data Handled (S : Type 0) : Type 0 where
  replied : Server S → Handled S
  call_back : ℕ → ℕ → List ℕ → Server S → Handled S
  null_write : Handled S

-- The first registered URI that is the request's.
unfoldable pub find_uri : List ℕ → List UriRecord → Option UriRecord
find_uri uri [] = none
find_uri uri (r ∷ rs) = if same_text r.uri uri then some r else find_uri uri rs

-- Whether the interface is handed out, and not NULL.
unfoldable pub http_server_get_interface : {S : Type 0} → Server S → Bool
http_server_get_interface s = elim s.server_handle [ none ↦ false | some _ ↦ true ]

module _ {S : Type 0} (env : Httpd) (bank : Bank S) where
  unfoldable pub http_server_init : ServerConfig → M S EspErr
  http_server_init config s =
      let (r, t) = call env (start config.port config.max_connections) s in
      if is_ok r
      then (do call env create_mutex; return esp_ok)
          (record t {
            server_handle = some env.new_handle;
            chunk_bank = bank.register_pool log_chunk_pool;
            async_bank = bank.register_pool max_async_requests;
            job_bank = bank.register_pool send_job_pool;
          })
      else (esp_fail, t)

  unfoldable pub stop_http_server : M S EspErr
  stop_http_server = call env stop

  -- The writes to the next record of the table, which has MAX_URIS records, and the registration.
  -- `none` is a write past the end of the table: the source does not test `uri_count`.
  unfoldable pub add_uri :
      Option UriRecord → List ℕ → Method → ℕ → Server S → Option (EspErr × Server S)
  add_uri none uri method cb s = none
  add_uri (some old) uri method cb s =
      let stored : List ℕ = cstr uri ++ drop (length (cstr uri)) old.uri in
      some (
        call env (register_uri_handler stored) (record s {
          uri_record =
              set s.uri_record s.uri_count
                (record { uri = stored; callback = cb; method = method });
          uri_count = s.uri_count + 1;
        }))

  unfoldable pub http_server_register_uri :
      Option (List ℕ) → Method → Option ℕ → Server S → Option (EspErr × Server S)
  unfolding add_uri
  http_server_register_uri none method cb s = some (esp_err_invalid_arg, s)
  http_server_register_uri (some uri) method none s = some (esp_err_invalid_arg, s)
  http_server_register_uri (some uri) method (some cb) s =
      if ltb max_uri_length (length (cstr uri))
      then some (esp_err_invalid_arg, s)
      else add_uri (get_elem? s.uri_record s.uri_count) uri method cb s

  -- The found record's callback is to be called with a slot for the request.
  -- `async_slot->response_started` is written before the test of `async_slot`, so an empty pool is
  -- a write through NULL. The answer "503 Server Busy" behind that test is never reached.
  unfoldable pub accept_request : ℕ → ℕ → Option ℕ → Server S → Handled S
  accept_request async_req callback none s = null_write
  accept_request async_req callback (some slot) s =
      call_back callback slot (env.uri_of async_req) (record s {
        async_objs =
            update s.async_objs slot (record { req = async_req; response_started = false });
      })

  unfoldable pub handle_found : ℕ → Option UriRecord → Server S → Handled S
  unfolding accept_request
  handle_found req none s =
      replied (http_server_send_error env (some req) (some (codes "404 Not Found")) s).1
  handle_found req (some r) s =
      accept_request (env.async_copy req) r.callback (bank.alloc s.async_bank).0 (record s {
        async_bank = (bank.alloc s.async_bank).1;
        calls = async_handler_begin req ∷ s.calls;
      })

  -- The array of a URI is read up to its NUL or its end, where the padding of the record holds a
  -- zero. The result is ESP_OK on every path that returns.
  unfoldable pub master_request_handler : ℕ → Server S → Handled S
  unfolding handle_found find_uri
  master_request_handler req s =
      handle_found req (find_uri (env.uri_of req) (take s.uri_count s.uri_record)) s
