-- ===== src/Node/Requests/Serving.antt =====
-- The server task of components/http-server/http_server.c, and the slots that its works hold.
use gate_lock_home_node.Base.{
  ℕ, ◌≡◌, refl, ◌∙◌, Bool-cases, inl, inr, Option, none, List, [], ◌∷◌, ◌++◌, append-nil, arith,
  count-append,
}
use gate_lock_home_node.Http.Types.{
  Call, trigger_close, async_handler_complete, resp_send_chunk, Work, async_data_worker,
  async_close_worker, async_finalize_worker, Bank, BankLaws, Server, SendJob, Slot, Httpd,
}
use gate_lock_home_node.Http.Async.{
  http_async_data_worker, http_async_close_worker, http_async_finalize_worker, start_response,
  next_work, server_task,
}
use gate_lock_home_node.Http.Async.Pools.{TakesWork, next_work-PoolsInv}
use gate_lock_home_node.Node.Types.{DelegateJob}
use gate_lock_home_node.Node.Requests.Owners.{
  Owned, Fed, log_slots, closing, finishing, closing-append, finishing-append, serving-same, taken,
  completed, event_slots, queue_slots, open_requests,
}

Fed-finalize :
    (jobs : ℕ → SendJob) (open_logs : List ℕ) (slot : ℕ) (ws : List Work)
    → Fed jobs open_logs ws
    → Fed jobs open_logs (ws ++ async_finalize_worker slot ∷ [])
Fed-finalize jobs open_logs slot [] f = tt
Fed-finalize jobs open_logs slot (async_data_worker j ∷ ws) f = (
  rw (closing-append ws (async_finalize_worker slot ∷ []), append-nil) f.0,
  Fed-finalize jobs open_logs slot ws f.1,
)
Fed-finalize jobs open_logs slot (async_close_worker s ∷ ws) f =
    Fed-finalize jobs open_logs slot ws f
Fed-finalize jobs open_logs slot (async_finalize_worker s ∷ ws) f =
    Fed-finalize jobs open_logs slot ws f

-- Requests that keep their slots are open as before.
open_requests-same :
    (objs other : ℕ → Slot) (r : ℕ) (hand : List ℕ) (events : List (ℕ × ℕ)) (commands : List ℕ)
    (queue : Option (List DelegateJob)) (sending : Option ℕ) (ws : List Work)
    → ((i : ℕ) → (other i).req ≡ (objs i).req)
    → open_requests other r hand events commands queue sending ws
      ≡ open_requests objs r hand events commands queue sending ws
open_requests-same objs other r hand events commands queue sending ws h = omega (
  arith,
  serving-same objs other r hand h,
  serving-same objs other r (event_slots events) h,
  serving-same objs other r commands h,
  serving-same objs other r (queue_slots queue) h,
  serving-same objs other r (log_slots sending) h,
  serving-same objs other r (closing ws) h,
)

module _ {S : Type 0} (env : Httpd) (bank : Bank S) (slot : ℕ) (s : Server S) where
  started_req :
      (i : ℕ) → ((start_response env bank slot s).1.async_objs i).req ≡ (s.async_objs i).req
  unfolding start_response
  started_req i = ground arith

  started_calls :
      (r : ℕ)
      → (taken env r (start_response env bank slot s).1.calls ≡ taken env r s.calls)
        × (completed r (start_response env bank slot s).1.calls ≡ completed r s.calls)
  unfolding start_response
  started_calls r = elim (Bool-cases (s.async_objs slot).response_started) [
    | inl e ↦ rw e (refl, refl)
    | inr e ↦ rw e (refl, refl)
  ]

module _ {S : Type 0} (env : Httpd) (bank : Bank S) (laws : BankLaws bank)
    (takes : TakesWork env) where
  next_work-Owned :
      (hand : List ℕ) (events : List (ℕ × ℕ)) (commands : List ℕ)
      (queue : Option (List DelegateJob)) (sending : Option ℕ) (ws : List Work) (s : Server S)
      → Owned env bank hand events commands queue sending (record s { works = ws })
      → Owned env bank hand events commands queue sending
          (next_work env bank ws (record s { works = ws }))
  unfolding http_async_data_worker http_async_close_worker http_async_finalize_worker
  next_work-Owned hand events commands queue sending [] s v = v
  next_work-Owned hand events commands queue sending (async_data_worker j ∷ ws) s v =
      let u : Server S = record s { works = ws } in
      let slot : ℕ = (s.job_objs j).slot in
      record {
        slots = v.slots;
        requests = λ r. omega (
          arith,
          v.requests r,
          started_calls env bank slot u r,
          open_requests-same s.async_objs (start_response env bank slot u).1.async_objs r hand
              events commands queue sending ws (started_req env bank slot u),
        );
        known = v.known;
        queued = v.queued;
        pools = next_work-PoolsInv env bank laws takes (async_data_worker j ∷ ws) s v.pools;
        fed = v.fed.1;
      }
  next_work-Owned hand events commands queue sending (async_close_worker slot ∷ ws) s v =
      let req : ℕ = (s.async_objs slot).req in
      let calls : List Call =
        trigger_close (env.to_sockfd req)
        ∷ async_handler_complete req
        ∷ resp_send_chunk req none
        ∷ s.calls in
      let ok = takes calls (async_finalize_worker slot) in
      let c = closing-append ws (async_finalize_worker slot ∷ []) ∙ append-nil (closing ws) in
      let f = finishing-append ws (async_finalize_worker slot ∷ []) in
      record {
        slots = λ i.
            rw (ok, c, f) (omega (arith, v.slots i, count-append i (finishing ws) (slot ∷ [])));
        requests = λ r. rw (ok, c) (omega (arith, v.requests r));
        known = v.known;
        queued = v.queued;
        pools = next_work-PoolsInv env bank laws takes (async_close_worker slot ∷ ws) s v.pools;
        fed = rw ok (Fed-finalize s.job_objs (log_slots sending) slot ws v.fed);
      }
  next_work-Owned hand events commands queue sending (async_finalize_worker slot ∷ ws) s v =
      record {
        slots = λ i. ground (arith, v.slots i, laws.free_held s.async_bank slot i);
        requests = v.requests;
        known = v.known;
        queued = v.queued;
        pools = next_work-PoolsInv env bank laws takes (async_finalize_worker slot ∷ ws) s v.pools;
        fed = v.fed;
      }

  pub server_task-Owned :
      (hand : List ℕ) (events : List (ℕ × ℕ)) (commands : List ℕ)
      (queue : Option (List DelegateJob)) (sending : Option ℕ) (s : Server S)
      → Owned env bank hand events commands queue sending s
      → Owned env bank hand events commands queue sending (server_task env bank s)
  unfolding server_task
  server_task-Owned hand events commands queue sending s v =
      next_work-Owned hand events commands queue sending s.works s v
