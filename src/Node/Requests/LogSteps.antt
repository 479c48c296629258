-- ===== src/Node/Requests/LogSteps.antt =====
-- The delegate task of main/routine_event_handler.c, which holds the slot of the log that it sends.
use gate_lock_home_node.Base.{
  ℕ, ◌≡◌, refl, ap, subst, sym, Bool-cases, inl, inr, Option, none, some, List, [], ◌∷◌, ◌++◌,
  arith, ◌==◌, length, is_ok,
}
use gate_lock_home_node.Http.Types.{
  Bank, BankLaws, SendJob, Work, async_data_worker, async_close_worker, async_finalize_worker,
}
use gate_lock_home_node.Http.Async.Pools.{TakesWork}
use gate_lock_home_node.Node.Types.{NodeEnv, DelegateJob}
use gate_lock_home_node.Node.Output.{user_request_response_send_log}
use gate_lock_home_node.Node.Log.{send_chunked-ok}
use gate_lock_home_node.Node.Requests.{World, start_log, read_log}
use gate_lock_home_node.Node.Requests.Owners.{Owned, WorldInv, Fed}
use gate_lock_home_node.Node.Requests.Answering.{send_log_data-Owned, send_log_end-Owned}

Fed-start :
    (jobs : ℕ → SendJob) (ctx : ℕ) (ws : List Work) → Fed jobs [] ws → Fed jobs (ctx ∷ []) ws
Fed-start jobs ctx [] f = tt
Fed-start jobs ctx (async_data_worker j ∷ ws) f = (ground arith, Fed-start jobs ctx ws f.1)
Fed-start jobs ctx (async_close_worker s ∷ ws) f = Fed-start jobs ctx ws f
Fed-start jobs ctx (async_finalize_worker s ∷ ws) f = Fed-start jobs ctx ws f

module _ {S : Type 0} (env : NodeEnv) (bank : Bank S) (laws : BankLaws bank)
    (takes : TakesWork env.httpd) where
  pub start_log-WorldInv :
      (sending : Option ℕ) (queue : Option (List DelegateJob)) (w : World S)
      → sending ≡ w.sending
      → queue ≡ w.node.delegate_queue
      → WorldInv env bank w
      → WorldInv env bank (start_log sending queue w)
  start_log-WorldInv none none w h k v = v
  start_log-WorldInv none (some []) w h k v = v
  start_log-WorldInv (some ctx) queue w h k v = v
  start_log-WorldInv none (some (job ∷ jobs)) w h k v =
      let u : Owned env.httpd bank [] w.events w.commands (some (job ∷ jobs)) none w.node.server =
        subst
          (λ (q : Option (List DelegateJob)).
            Owned env.httpd bank [] w.events w.commands q none w.node.server)
          (sym k)
          (subst
            (λ (o : Option ℕ).
              Owned env.httpd bank [] w.events w.commands w.node.delegate_queue o w.node.server)
            (sym h) v) in
      record {
        slots = λ i. omega (arith, u.slots i);
        requests = λ r. omega (arith, u.requests r);
        known = u.known;
        queued = refl;
        pools = u.pools;
        fed = Fed-start w.node.server.job_objs job.arg w.node.server.works u.fed;
      }

  pub read_log-WorldInv :
      (sending : Option ℕ) (bytes : List ℕ) (w : World S)
      → sending ≡ w.sending
      → WorldInv env bank w
      → WorldInv env bank (read_log env bank sending bytes w)
  unfolding user_request_response_send_log
  read_log-WorldInv none bytes w h v = v
  read_log-WorldInv (some ctx) bytes w h v =
      let u =
        subst
          (λ (o : Option ℕ).
            Owned env.httpd bank [] w.events w.commands w.node.delegate_queue o w.node.server)
          (sym h) v in
      let ok = ap is_ok (send_chunked-ok env bank ctx (some (bytes ++ 0 ∷ [])) w.node.server) in
      elim (Bool-cases (length bytes == 0)) [
        | inl end ↦ rw end (
            send_log_end-Owned env bank laws takes ctx w.events w.commands w.node.delegate_queue
              w.node.server u)
        | inr more ↦
            rw (more, ok)
              (send_log_data-Owned env bank laws takes ctx (bytes ++ 0 ∷ []) w.events w.commands
                w.node.delegate_queue w.node.server u)
      ]
