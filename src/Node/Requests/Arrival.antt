-- ===== src/Node/Requests/Arrival.antt =====
-- A request that comes to components/http-server/http_server.c: it gets a slot that was free, or is
-- answered at once.
use gate_lock_home_node.Base.{
  ℕ, ◌+◌, ◌≡◌, refl, subst, sym, Bool, true, false, Option, none, some, some_eq, List, [], ◌∷◌,
  arith, eq_refl, count, ◌==◌, if◌then◌else◌, take, update, codes,
}
use gate_lock_home_node.Http.Types.{Bank, BankLaws, Server, Slot, UriRecord, async_handler_begin}
use gate_lock_home_node.Http.Respond.{http_server_send_error}
use gate_lock_home_node.Http.Routes.{master_request_handler, handle_found, accept_request, find_uri}
use gate_lock_home_node.Http.Async.Pools.{TakesWork}
use gate_lock_home_node.Node.Types.{
  NodeEnv, Node, DelegateJob, event_gate_open, event_gate_close, event_log, event_ota_update,
}
use gate_lock_home_node.Node.Request.{
  post_request, call_handler, finish_handled, handle_request, gate_close_request_handler,
  gate_open_request_handler, log_request_handler, ota_update_request_handler,
}
use gate_lock_home_node.Node.Requests.{World, deliver}
use gate_lock_home_node.Node.Requests.Owners.{
  Owned, WorldInv, closing, serving, serving-update, owners, taken, completed, event_slots,
  queue_slots, log_slots,
}
use gate_lock_home_node.Node.Requests.Handing.{InHand, quiet-WorldInv}
use gate_lock_home_node.Node.Requests.Handlers.{post_request-Owned}

-- Requests in other slots are open as before when a slot that nobody holds is filled.
open_requests-update :
    (objs : ℕ → Slot) (i : ℕ) (o : Slot) (r : ℕ) (events : List (ℕ × ℕ)) (commands : List ℕ)
    (queue : Option (List DelegateJob)) (sending : Option ℕ) (s : List ℕ)
    → count i (event_slots events)
        + count i commands
        + count i (queue_slots queue)
        + count i (log_slots sending)
        + count i s
      ≡ 0
    → serving (update objs i o) r (event_slots events)
        + serving (update objs i o) r commands
        + serving (update objs i o) r (queue_slots queue)
        + serving (update objs i o) r (log_slots sending)
        + serving (update objs i o) r s
      ≡ serving objs r (event_slots events)
        + serving objs r commands
        + serving objs r (queue_slots queue)
        + serving objs r (log_slots sending)
        + serving objs r s
open_requests-update objs i o r events commands queue sending s h = omega (
  arith,
  serving-update objs i o r (event_slots events) (omega arith),
  serving-update objs i o r commands (omega arith),
  serving-update objs i o r (queue_slots queue) (omega arith),
  serving-update objs i o r (log_slots sending) (omega arith),
  serving-update objs i o r s (omega arith),
)

module _ {S : Type 0} (env : NodeEnv) (bank : Bank S) (laws : BankLaws bank)
    (takes : TakesWork env.httpd) where
  -- Each of the four handlers posts the event of its request.
  call_handler-cases :
      (b c d : Bool) (slot : ℕ) (w : World S) (s : Server S)
      → InHand env bank laws takes slot w s
      → let u : Node S = record w.node { server = s } in
        WorldInv env bank (
          deliver env w (
            if b
            then post_request env bank event_gate_close slot u
            else if c
            then post_request env bank event_gate_open slot u
            else if d
            then post_request env bank event_log slot u
            else post_request env bank event_ota_update slot u))
  call_handler-cases true c d slot w s v =
      post_request-Owned env bank laws takes event_gate_close slot w s refl v
  call_handler-cases false true d slot w s v =
      post_request-Owned env bank laws takes event_gate_open slot w s refl v
  call_handler-cases false false true slot w s v =
      post_request-Owned env bank laws takes event_log slot w s refl v
  call_handler-cases false false false slot w s v =
      post_request-Owned env bank laws takes event_ota_update slot w s refl v

  call_handler-WorldInv :
      (id slot : ℕ) (w : World S) (s : Server S)
      → InHand env bank laws takes slot w s
      → WorldInv env bank
          (deliver env w (call_handler env bank id slot (record w.node { server = s })))
  unfolding gate_close_request_handler gate_open_request_handler log_request_handler
      ota_update_request_handler
  call_handler-WorldInv id slot w s v = call_handler-cases (id == 0) (id == 1) (id == 2) slot w s v

  send_error_lem :
      (req r : ℕ) (body : List ℕ) (s : Server S)
      → let t : Server S = (http_server_send_error env.httpd (some req) (some body) s).1 in
        (t ≡ record s { calls = t.calls })
        × (taken env.httpd r t.calls ≡ taken env.httpd r s.calls)
        × (completed r t.calls ≡ completed r s.calls)
  unfolding http_server_send_error
  send_error_lem req r body s = ground arith

  not_found-WorldInv :
      (req : ℕ) (body : List ℕ) (w : World S)
      → WorldInv env bank w
      → WorldInv env bank (
          deliver env w (record w.node {
            server = (http_server_send_error env.httpd (some req) (some body) w.node.server).1;
          }))
  not_found-WorldInv req body w v =
      let s : Server S = w.node.server in
      let t : Server S = (http_server_send_error env.httpd (some req) (some body) s).1 in
      let same : t ≡ record s { calls = t.calls } = (send_error_lem req 0 body s).0 in
      quiet-WorldInv env bank laws takes w (record w.node { server = t }) refl refl
        (subst (Owned env.httpd bank [] w.events w.commands w.node.delegate_queue w.sending)
          (sym same)
          (record {
            slots = v.slots;
            requests = λ r. omega (arith, v.requests r, send_error_lem req r body s);
            known = v.known;
            queued = v.queued;
            pools = v.pools;
            fed = v.fed;
          }))

  accepted-InHand :
      (req slot : ℕ) (w : World S)
      → (bank.alloc w.node.server.async_bank).0 ≡ some slot
      → WorldInv env bank w
      → InHand env bank laws takes slot w (record w.node.server {
        async_bank = (bank.alloc w.node.server.async_bank).1;
        calls = async_handler_begin req ∷ w.node.server.calls;
        async_objs =
            update w.node.server.async_objs slot
              (record { req = env.httpd.async_copy req; response_started = false });
      })
  accepted-InHand req slot w e v =
      let s : Server S = w.node.server in
      let o : Slot = record { req = env.httpd.async_copy req; response_started = false } in
      let fresh = laws.alloc_fresh s.async_bank slot e in
      let free : owners slot [] w.events w.commands w.node.delegate_queue w.sending s.works ≡ 0 =
        ground (arith, v.slots slot) in
      record {
        slots = λ i.
            ground (arith, v.slots i, v.slots slot, laws.alloc_held s.async_bank slot i e, fresh);
        requests = λ r. rw (eq_refl slot) (
            omega (
              arith,
              v.requests r,
              open_requests-update s.async_objs slot o r w.events w.commands w.node.delegate_queue
                  w.sending (closing s.works) (omega arith),
            ));
        known = v.known;
        queued = v.queued;
        pools = v.pools;
        fed = v.fed;
      }

  accepted-WorldInv :
      (req callback : ℕ) (slot : Option ℕ) (w : World S) (t : Node S)
      → (bank.alloc w.node.server.async_bank).0 ≡ slot
      → finish_handled env bank
          (accept_request env.httpd bank
            (env.httpd.async_copy req)
            callback
            slot
            (record w.node.server {
              async_bank = (bank.alloc w.node.server.async_bank).1;
              calls = async_handler_begin req ∷ w.node.server.calls;
            }))
          w.node
        ≡ some t
      → WorldInv env bank w
      → WorldInv env bank (deliver env w t)
  unfolding accept_request
  accepted-WorldInv req callback none w t e h v = cc
  accepted-WorldInv req callback (some slot) w t e h v =
      subst (λ (u : Node S). WorldInv env bank (deliver env w u)) (some_eq h)
        (call_handler-WorldInv callback slot w _ (accepted-InHand req slot w e v))

  found-WorldInv :
      (req : ℕ) (o : Option UriRecord) (w : World S) (t : Node S)
      → finish_handled env bank (handle_found env.httpd bank req o w.node.server) w.node ≡ some t
      → WorldInv env bank w
      → WorldInv env bank (deliver env w t)
  unfolding handle_found
  found-WorldInv req none w t h v =
      subst (λ (u : Node S). WorldInv env bank (deliver env w u)) (some_eq h)
        (not_found-WorldInv req (codes "404 Not Found") w v)
  found-WorldInv req (some r) w t h v =
      accepted-WorldInv req r.callback (bank.alloc w.node.server.async_bank).0 w t refl h v

  pub request-WorldInv :
      (req : ℕ) (w : World S) (t : Node S)
      → handle_request env bank req w.node ≡ some t
      → WorldInv env bank w
      → WorldInv env bank (deliver env w t)
  unfolding handle_request master_request_handler
  request-WorldInv req w t h v =
      found-WorldInv req
        (find_uri (env.httpd.uri_of req) (take w.node.server.uri_count w.node.server.uri_record)) w
        t h v
