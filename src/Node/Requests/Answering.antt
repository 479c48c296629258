-- ===== src/Node/Requests/Answering.antt =====
-- The answers of components/user-request-response/user_output.c, and the slots that they give back
-- or pass on to the server task.
use gate_lock_home_node.Base.{
  ℕ, ◌≡◌, refl, sym, ◌∙◌, false, Option, none, some, List, [], ◌∷◌, ◌++◌, append-nil, arith, elem,
  elem-append, count-append, update,
}
use gate_lock_home_node.Http.Types.{
  Work, async_data_worker, async_close_worker, async_finalize_worker, Bank, BankLaws, Server,
  SendJob,
}
use gate_lock_home_node.Http.Respond.{http_server_send_response}
use gate_lock_home_node.Http.Async.{
  http_server_close_async_connection, http_server_send_chunked_response, send_allocated, send_data,
}
use gate_lock_home_node.Http.Async.Messages.{waiting_jobs}
use gate_lock_home_node.Http.Async.Pools.{PoolsInv, TakesWork, send_chunked-PoolsInv}
use gate_lock_home_node.Node.Types.{NodeEnv, DelegateJob}
use gate_lock_home_node.Node.Output.{respond_and_close}
use gate_lock_home_node.Node.Requests.Owners.{
  Owned, Fed, closing, finishing, closing-append, finishing-append, serving-append,
}

-- A new job for the log that is being sent, and the end of that log.
Fed-data :
    (jobs : ℕ → SendJob) (ctx job chunk : ℕ) (ws : List Work)
    → elem job (waiting_jobs ws) ≡ false
    → Fed jobs (ctx ∷ []) ws
    → Fed
        (update jobs job (record { slot = ctx; chunk = chunk }))
        (ctx ∷ [])
        (ws ++ async_data_worker job ∷ [])
Fed-data jobs ctx job chunk [] h f = ground arith
Fed-data jobs ctx job chunk (async_data_worker j ∷ ws) h f = (
  ground (
    arith,
    closing-append ws (async_data_worker job ∷ []),
    elem-append (jobs j).slot (closing ws) [],
  ),
  Fed-data jobs ctx job chunk ws (ground arith) f.1,
)
Fed-data jobs ctx job chunk (async_close_worker s ∷ ws) h f = Fed-data jobs ctx job chunk ws h f
Fed-data jobs ctx job chunk (async_finalize_worker s ∷ ws) h f = Fed-data jobs ctx job chunk ws h f

Fed-close :
    (jobs : ℕ → SendJob) (ctx : ℕ) (ws : List Work)
    → Fed jobs (ctx ∷ []) ws
    → Fed jobs [] (ws ++ async_close_worker ctx ∷ [])
Fed-close jobs ctx [] f = tt
Fed-close jobs ctx (async_data_worker j ∷ ws) f = (
  ground (
    arith,
    closing-append ws (async_close_worker ctx ∷ []),
    elem-append (jobs j).slot (closing ws) (ctx ∷ []),
  ),
  Fed-close jobs ctx ws f.1,
)
Fed-close jobs ctx (async_close_worker s ∷ ws) f = Fed-close jobs ctx ws f
Fed-close jobs ctx (async_finalize_worker s ∷ ws) f = Fed-close jobs ctx ws f

module _ {S : Type 0} (env : NodeEnv) (bank : Bank S) (laws : BankLaws bank)
    (taken : TakesWork env.httpd) where
  pub respond_and_close-Owned :
      (body : List ℕ) (slot : ℕ) (hand : List ℕ) (events : List (ℕ × ℕ)) (commands : List ℕ)
      (queue : Option (List DelegateJob)) (sending : Option ℕ) (s : Server S)
      → Owned env.httpd bank (slot ∷ hand) events commands queue sending s
      → Owned env.httpd bank hand events commands queue sending
          (respond_and_close env bank body slot s)
  unfolding respond_and_close http_server_send_response http_server_close_async_connection
  respond_and_close-Owned body slot hand events commands queue sending s v = record {
    slots = λ i. ground (arith, v.slots i, laws.free_held s.async_bank slot i);
    requests = λ r. omega (arith, v.requests r);
    known = v.known;
    queued = v.queued;
    pools = v.pools;
    fed = v.fed;
  }

  -- The blocks that were handed out, or not, are no slots.
  send_data-Owned :
      (ctx : ℕ) (body : List ℕ) (events : List (ℕ × ℕ)) (commands : List ℕ)
      (queue : Option (List DelegateJob)) (chunk job : ℕ) (cb jb : S) (s : Server S)
      → let u = record s { chunk_bank = cb; job_bank = jb } in
        elem job (waiting_jobs s.works) ≡ false
        → PoolsInv bank (send_data env.httpd bank ctx body chunk job u).1
        → Owned env.httpd bank [] events commands queue (some ctx) s
        → Owned env.httpd bank [] events commands queue
            (some ctx)
            (send_data env.httpd bank ctx body chunk job u).1
  unfolding send_data
  send_data-Owned ctx body events commands queue chunk job cb jb s free p v =
      let ok = taken s.calls (async_data_worker job) in
      let c = closing-append s.works (async_data_worker job ∷ []) ∙ append-nil (closing s.works) in
      let f =
        finishing-append s.works (async_data_worker job ∷ []) ∙ append-nil (finishing s.works) in
      record {
        slots = λ i. rw (ok, c, f) (v.slots i);
        requests = λ r. rw (ok, c) (v.requests r);
        known = v.known;
        queued = v.queued;
        pools = p;
        fed = rw ok (Fed-data s.job_objs ctx job chunk s.works free v.fed);
      }

  send_allocated-Owned :
      (ctx : ℕ) (body : List ℕ) (events : List (ℕ × ℕ)) (commands : List ℕ)
      (queue : Option (List DelegateJob)) (chunk job : Option ℕ) (cb jb : S) (s : Server S)
      → let u = record s { chunk_bank = cb; job_bank = jb } in
        ((j : ℕ) → job ≡ some j → elem j (waiting_jobs s.works) ≡ false)
        → PoolsInv bank (send_allocated env.httpd bank ctx body chunk job u).1
        → Owned env.httpd bank [] events commands queue (some ctx) s
        → Owned env.httpd bank [] events commands queue
            (some ctx)
            (send_allocated env.httpd bank ctx body chunk job u).1
  unfolding send_allocated
  send_allocated-Owned ctx body events commands queue none none cb jb s free p v = record {
    slots = v.slots;
    requests = v.requests;
    known = v.known;
    queued = v.queued;
    pools = p;
    fed = v.fed;
  }
  send_allocated-Owned ctx body events commands queue (some c) none cb jb s free p v = record {
    slots = v.slots;
    requests = v.requests;
    known = v.known;
    queued = v.queued;
    pools = p;
    fed = v.fed;
  }
  send_allocated-Owned ctx body events commands queue none (some j) cb jb s free p v = record {
    slots = v.slots;
    requests = v.requests;
    known = v.known;
    queued = v.queued;
    pools = p;
    fed = v.fed;
  }
  send_allocated-Owned ctx body events commands queue (some c) (some j) cb jb s free p v =
      send_data-Owned ctx body events commands queue c j cb jb s (free j refl) p v

  pub send_log_data-Owned :
      (ctx : ℕ) (body : List ℕ) (events : List (ℕ × ℕ)) (commands : List ℕ)
      (queue : Option (List DelegateJob)) (s : Server S)
      → Owned env.httpd bank [] events commands queue (some ctx) s
      → Owned env.httpd bank [] events commands queue
          (some ctx)
          (http_server_send_chunked_response env.httpd bank ctx (some body) s).1
  unfolding http_server_send_chunked_response
  send_log_data-Owned ctx body events commands queue s v =
      send_allocated-Owned ctx body events commands queue (bank.alloc s.chunk_bank).0
        (bank.alloc s.job_bank).0 (bank.alloc s.chunk_bank).1 (bank.alloc s.job_bank).1 s
        (λ j e. sym (v.pools.job_held j) ∙ laws.alloc_fresh s.job_bank j e)
        (send_chunked-PoolsInv env.httpd bank laws taken ctx (some body) s v.pools) v

  pub send_log_end-Owned :
      (ctx : ℕ) (events : List (ℕ × ℕ)) (commands : List ℕ) (queue : Option (List DelegateJob))
      (s : Server S)
      → Owned env.httpd bank [] events commands queue (some ctx) s
      → Owned env.httpd bank [] events commands queue none
          (http_server_send_chunked_response env.httpd bank ctx none s).1
  unfolding http_server_send_chunked_response
  send_log_end-Owned ctx events commands queue s v =
      let ok = taken s.calls (async_close_worker ctx) in
      let c = closing-append s.works (async_close_worker ctx ∷ []) in
      let f =
        finishing-append s.works (async_close_worker ctx ∷ []) ∙ append-nil (finishing s.works) in
      record {
        slots = λ i.
            rw (ok, c, f) (omega (arith, v.slots i, count-append i (closing s.works) (ctx ∷ [])));
        requests = λ r.
            rw (ok, c)
              (omega
                (arith, v.requests r, serving-append s.async_objs r (closing s.works) (ctx ∷ [])));
        known = v.known;
        queued = v.queued;
        pools = send_chunked-PoolsInv env.httpd bank laws taken ctx none s v.pools;
        fed = rw ok (Fed-close s.job_objs ctx s.works v.fed);
      }
