-- ===== src/Main/Routes.antt =====
-- Which handler a request reaches once the node of main/home-node.c has started.
use gate_lock_home_node.Base.{
  ℕ, ◌≡◌, refl, ap, subst, sym, ◌∙◌, true, false, Option, none, some, List, ◌∷◌, esp_ok, is_ok,
}
use gate_lock_home_node.Http.Types.{
  Httpd, Bank, Server, log_chunk_pool, max_async_requests, send_job_pool, Call, start,
}
use gate_lock_home_node.Http.Routes.{
  find_uri, http_server_get_interface, http_server_init, http_server_default_config,
}
use gate_lock_home_node.Http.Routes.Table.{table}
use gate_lock_home_node.Node.Types.{
  Node, NodeEnv, register_event, event_gate_open, event_gate_close, event_gate_status, event_log,
  event_ota_update,
}
use gate_lock_home_node.Node.Request.{user_request_create, create_on, finish_create}
use gate_lock_home_node.Main.App.{request_config}
use gate_lock_home_node.Node.Requests.Owners.{taken, completed}
use gate_lock_home_node.Main.Endpoints.{
  route, callback_of, FreshTable, with_endpoints, register_endpoints-registered,
  with_endpoints-route,
}

-- The server has no URI registered yet, and is not started.
pub record FreshServer {S : Type 0} (s : Server S) : Type 0 where
  pub stopped : s.server_handle ≡ none
  pub unused : s.uri_count ≡ 0
  pub blanks : FreshTable s.uri_record

-- esp_http_server starts.
abbrev pub Starts : Httpd → Type 0
Starts env = (cs : List Call) (port n : ℕ) → is_ok (env.answer cs (start port n)) ≡ true

-- The URIs are routed by the endpoints.
abbrev pub IsRouted : {S : Type 0} → Server S → Type 0
IsRouted s = (u : List ℕ) → callback_of (find_uri u (table s)) ≡ route u

-- A server that is started and has had no request yet: its pools are new, and the works that wait
-- and the requests are those of the server v before.
pub record Opened {S : Type 0} (env : Httpd) (bank : Bank S) (v s : Server S) : Type 0 where
  pub chunks : s.chunk_bank ≡ bank.register_pool log_chunk_pool
  pub slots : s.async_bank ≡ bank.register_pool max_async_requests
  pub jobs : s.job_bank ≡ bank.register_pool send_job_pool
  pub waiting : s.works ≡ v.works
  pub texts : s.chunk_objs ≡ v.chunk_objs
  pub begun : (r : ℕ) → taken env r s.calls ≡ taken env r v.calls
  pub ended : (r : ℕ) → completed r s.calls ≡ completed r v.calls

module _ {S : Type 0} (env : NodeEnv) (bank : Bank S) where
  init_lem :
      (s : Server S)
      → Starts env.httpd
      → let (r, t) = http_server_init env.httpd bank http_server_default_config s in
        (is_ok r ≡ true)
        × (t.uri_record ≡ s.uri_record)
        × (t.uri_count ≡ s.uri_count)
        × (http_server_get_interface t ≡ true)
        × Opened env.httpd bank s t
  unfolding http_server_init http_server_get_interface
  init_lem s starts = rw (starts s.calls 80 4) (
    refl,
    refl,
    refl,
    refl,
    record {
      chunks = refl;
      slots = refl;
      jobs = refl;
      waiting = refl;
      texts = refl;
      begun = λ r. refl;
      ended = λ r. refl;
    },
  )

  create_on-Routed :
      (w : Node S) (v : Server S)
      → FreshTable w.server.uri_record
      → w.server.uri_count ≡ 0
      → Opened env.httpd bank v w.server
      → (t : Node S) × (create_on env bank request_config w ≡ some (esp_ok, t))
        × IsRouted t.server
        × (http_server_get_interface t.server ≡ http_server_get_interface w.server)
        × (t.ota ≡ w.ota)
        × Opened env.httpd bank v t.server
        × (t.delegate_queue ≡ w.delegate_queue)
  unfolding create_on http_server_get_interface
  create_on-Routed w v f h o =
      let e = register_endpoints-registered env bank w.server f h in
      let v : Node S = record w { request_interface = http_server_get_interface w.server } in
      (
        finished v (with_endpoints env bank w.server f),
        ap (λ (o : Option (Server S)). finish_create env bank o v) e,
        with_endpoints-route env bank w.server f,
        refl,
        refl,
        record {
          chunks = o.chunks;
          slots = o.slots;
          jobs = o.jobs;
          waiting = o.waiting;
          texts = o.texts;
          begun = o.begun;
          ended = o.ended;
        },
        refl,
      )
    where
      finished : Node S → Server S → Node S
      finished v s = record v {
        server = s;
        calls =
            register_event event_ota_update
            ∷ register_event event_log
            ∷ register_event event_gate_status
            ∷ register_event event_gate_close
            ∷ register_event event_gate_open
            ∷ v.calls;
      }

  stopped_lem : (s : Server S) → s.server_handle ≡ none → http_server_get_interface s ≡ false
  unfolding http_server_get_interface
  stopped_lem s h = rw h refl

  pub create-Routed :
      (w : Node S)
      → FreshServer w.server
      → Starts env.httpd
      → (t : Node S) × (user_request_create env bank (some request_config) w ≡ some (esp_ok, t))
        × IsRouted t.server
        × (http_server_get_interface t.server ≡ true)
        × (t.ota ≡ w.ota)
        × Opened env.httpd bank w.server t.server
        × (t.delegate_queue ≡ w.delegate_queue)
  unfolding user_request_create
  create-Routed w f starts =
      let down : http_server_get_interface w.server ≡ false = stopped_lem w.server f.stopped in
      let u : Server S = (http_server_init env.httpd bank http_server_default_config w.server).1 in
      let (ok, records, count, up, opened) = init_lem w.server starts in
      let (t, made, routed, kept, ota, still, queue) =
        create_on-Routed (record w { server = u }) w.server
          (subst FreshTable (sym records) f.blanks) (count ∙ f.unused) opened in
      (t, rw (down, ok) made, routed, kept ∙ up, ota, still, queue)

  -- On a node whose server is not started and has no URI registered, where esp_http_server starts,
  -- `user_request_create` with the endpoints of `app_main` succeeds; then the server is up, and each
  -- URI, whatever it is, is routed to the handler of its endpoint, and any other to none. The update
  -- service is left as it was.
  pub user_request_create-route :
      (w : Node S) (u : List ℕ)
      → FreshServer w.server
      → Starts env.httpd
      → (t : Node S) × (user_request_create env bank (some request_config) w ≡ some (esp_ok, t))
        × (callback_of (find_uri u (table t.server)) ≡ route u)
        × (http_server_get_interface t.server ≡ true)
        × (t.ota ≡ w.ota)
  user_request_create-route w u f starts =
      let (t, made, routed, up, ota, _, _) = create-Routed w f starts in
      (t, made, routed u, up, ota)
