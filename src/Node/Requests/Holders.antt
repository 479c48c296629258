-- ===== src/Node/Requests/Holders.antt =====
-- The slots through which open requests will still be answered (components/http-server/http_server.c,
-- async_slot_t).
use gate_lock_home_node.Base.{
  ℕ, ◌≤◌, ◌<◌, ◌≡◌, Bool, true, some, List, [], ◌∷◌, ◌++◌, arith, elem, elem-append, elem-count,
  eq_refl, count, count-append, bit,
}
use gate_lock_home_node.Http.Types.{
  Bank, BankLaws, Slot, SendJob, Work, async_data_worker, async_close_worker, async_finalize_worker,
}
use gate_lock_home_node.Http.Async.Pools.{TakesWork}
use gate_lock_home_node.Node.Types.{NodeEnv}
use gate_lock_home_node.Node.Routine.{EventIds}
use gate_lock_home_node.Node.Requests.{World, Step, run_from}
use gate_lock_home_node.Node.Requests.Owners.{
  WorldInv, Fed, owners, open_requests, event_slots, queue_slots, log_slots, closing, serving,
  serving-append, taken, completed,
}
use gate_lock_home_node.Node.Requests.Handing.{QueueTakes}
use gate_lock_home_node.Node.Requests.History.{run_from-WorldInv}

-- The slots of the requests that the works send something to.
abbrev pub answering : (ℕ → SendJob) → List Work → List ℕ
answering jobs [] = []
answering jobs (async_data_worker j ∷ ws) = (jobs j).slot ∷ answering jobs ws
answering jobs (async_close_worker slot ∷ ws) = slot ∷ answering jobs ws
answering jobs (async_finalize_worker slot ∷ ws) = answering jobs ws

-- The slots of the events, the commands, the jobs, the log that is being sent and the works given.
abbrev kept : {S : Type 0} → World S → List ℕ → List ℕ
kept w works =
    event_slots w.events
    ++ (w.commands ++ (queue_slots w.node.delegate_queue ++ (log_slots w.sending ++ works)))

abbrev pub used : {S : Type 0} → World S → List ℕ
used w = kept w (answering w.node.server.job_objs w.node.server.works)

elem-Fed :
    (jobs : ℕ → SendJob) (logs : List ℕ) (ws : List Work) (i : ℕ)
    → Fed jobs logs ws
    → elem i (answering jobs ws) ≡ true
    → elem i (logs ++ closing ws) ≡ true
elem-Fed jobs logs [] i f h = cc
elem-Fed jobs logs (async_data_worker j ∷ ws) i f h =
    ground (arith, elem-Fed jobs logs ws i f.1, f.0)
elem-Fed jobs logs (async_close_worker s ∷ ws) i f h = ground (
  arith,
  elem-Fed jobs logs ws i f,
  elem-append i logs (s ∷ closing ws),
  elem-append i logs (closing ws),
)
elem-Fed jobs logs (async_finalize_worker s ∷ ws) i f h = elem-Fed jobs logs ws i f h

serving-elem :
    (objs : ℕ → Slot) (i : ℕ) (xs : List ℕ) → elem i xs ≡ true → 1 ≤ serving objs (objs i).req xs
serving-elem objs i [] h = cc
serving-elem objs i (x ∷ xs) h = ground (arith, serving-elem objs i xs, eq_refl (objs i).req)

elem-behind :
    (i : ℕ) (xs ys zs : List ℕ)
    → (elem i ys ≡ true → elem i zs ≡ true)
    → elem i (xs ++ ys) ≡ true
    → elem i (xs ++ zs) ≡ true
elem-behind i [] ys zs f h = f h
elem-behind i (x ∷ xs) ys zs f h = ground (arith, elem-behind i xs ys zs f)

log_or_close :
    (i : ℕ) (logs sent closes : List ℕ)
    → (elem i sent ≡ true → elem i (logs ++ closes) ≡ true)
    → elem i (logs ++ sent) ≡ true
    → elem i (logs ++ closes) ≡ true
log_or_close i logs sent closes f h =
    ground (arith, elem-append i logs sent, elem-append i logs closes)

module _ {S : Type 0} (w : World S) where
  elem-kept :
      (i : ℕ)
      → Fed w.node.server.job_objs (log_slots w.sending) w.node.server.works
      → elem i (used w) ≡ true
      → elem i (kept w (closing w.node.server.works)) ≡ true
  elem-kept i f h =
      let jobs : List ℕ = queue_slots w.node.delegate_queue in
      let logs : List ℕ = log_slots w.sending in
      let works : List Work = w.node.server.works in
      let sent : List ℕ = answering w.node.server.job_objs works in
      let fed : elem i (logs ++ sent) ≡ true → elem i (logs ++ closing works) ≡ true = λ e.
        log_or_close i logs sent (closing works) (elem-Fed w.node.server.job_objs logs works i f)
          e in
      elem-behind i (event_slots w.events) (w.commands ++ (jobs ++ (logs ++ sent)))
        (w.commands ++ (jobs ++ (logs ++ closing works)))
        (elem-behind i w.commands (jobs ++ (logs ++ sent)) (jobs ++ (logs ++ closing works))
          (elem-behind i jobs (logs ++ sent) (logs ++ closing works) fed))
        h

  count-kept :
      (i : ℕ)
      → count i (kept w (closing w.node.server.works))
        ≡ owners i [] w.events w.commands w.node.delegate_queue w.sending w.node.server.works
  count-kept i = omega (
    arith,
    count-append i (event_slots w.events) (
        w.commands
        ++ (queue_slots w.node.delegate_queue
            ++ (log_slots w.sending ++ closing w.node.server.works))),
    count-append i w.commands
        (queue_slots w.node.delegate_queue ++ (log_slots w.sending ++ closing w.node.server.works)),
    count-append i (queue_slots w.node.delegate_queue)
        (log_slots w.sending ++ closing w.node.server.works),
    count-append i (log_slots w.sending) (closing w.node.server.works),
  )

  serving-kept :
      (objs : ℕ → Slot) (r : ℕ)
      → serving objs r (kept w (closing w.node.server.works))
        ≡ open_requests objs r [] w.events w.commands w.node.delegate_queue w.sending
            w.node.server.works
  serving-kept objs r = omega (
    arith,
    serving-append objs r (event_slots w.events) (
        w.commands
        ++ (queue_slots w.node.delegate_queue
            ++ (log_slots w.sending ++ closing w.node.server.works))),
    serving-append objs r w.commands
        (queue_slots w.node.delegate_queue ++ (log_slots w.sending ++ closing w.node.server.works)),
    serving-append objs r (queue_slots w.node.delegate_queue)
        (log_slots w.sending ++ closing w.node.server.works),
    serving-append objs r (log_slots w.sending) (closing w.node.server.works),
  )

module _ {S : Type 0} (env : NodeEnv) (bank : Bank S) (ids : EventIds) (laws : BankLaws bank)
    (takes : TakesWork env.httpd) (queues : QueueTakes env) where
  used_open :
      (w : World S) (i : ℕ)
      → WorldInv env bank w
      → elem i (used w) ≡ true
      → let r = (w.node.server.async_objs i).req in
        (bank.held w.node.server.async_bank i ≡ true)
        × (completed r w.node.server.calls < taken env.httpd r w.node.server.calls)
  used_open w i v h =
      let objs : ℕ → Slot = w.node.server.async_objs in
      let all : List ℕ = kept w (closing w.node.server.works) in
      let e : elem i all ≡ true = elem-kept w i v.fed h in
      (
        held (omega (arith, v.slots i, count-kept w i, elem-count i all e)),
        omega (
          arith,
          v.requests (objs i).req,
          serving-kept w objs (objs i).req,
          serving-elem objs i all e,
        ),
      )
    where
      held : {b : Bool} → 1 ≤ bit b → b ≡ true
      held {b = b} h = ground (arith, h)

  -- With lawful pools, a server that takes every work and a delegate queue that takes every job:
  -- after any history from a state in which the slots are with their holders, every slot through
  -- which an event, a command, a job, the log that is being sent, waiting data or the end of a
  -- response will still use a request is handed out, and the request in it is open: it was taken
  -- more often than it was completed.
  pub history_holds :
      (ss : List Step) (w t : World S) (i : ℕ)
      → WorldInv env bank w
      → run_from env bank ids (some w) ss ≡ some t
      → elem i (used t) ≡ true
      → let r = (t.node.server.async_objs i).req in
        (bank.held t.node.server.async_bank i ≡ true)
        × (completed r t.node.server.calls < taken env.httpd r t.node.server.calls)
  history_holds ss w t i v h e =
      used_open t i (run_from-WorldInv env bank ids laws takes queues ss w t h v) e
