-- ===== src/Node/Requests/History.antt =====
-- Histories of requests: any order of arrivals, events, acknowledgements, and rounds of the delegate
-- task and of the server task.
use gate_lock_home_node.Base.{
  Bool-cases, ℕ, ◌≡◌, refl, ap, subst, sym, ◌∙◌, Option-cases, inl, inr, Option, none, some,
  some_eq, List, [], ◌∷◌, get_elem?,
}
use gate_lock_home_node.Http.Types.{Bank, BankLaws}
use gate_lock_home_node.Http.Async.Pools.{TakesWork}
use gate_lock_home_node.Node.Types.{NodeEnv, Node}
use gate_lock_home_node.Node.Request.{handle_request}
use gate_lock_home_node.Node.Routine.{EventIds, ota_service_event, routine_event_handler}
use gate_lock_home_node.Node.Requests.{
  World, Step, request_comes, event_runs, status_comes, discovery_comes, ota_service_comes,
  log_starts, log_reads, server_runs, step, run_from, delivered,
}
use gate_lock_home_node.Node.Requests.{comes_back, is_restarting, deliver}
use gate_lock_home_node.Node.Requests.Owners.{WorldInv}
use gate_lock_home_node.Node.Requests.Handing.{QueueTakes}
use gate_lock_home_node.Node.Requests.Serving.{server_task-Owned}
use gate_lock_home_node.Node.Requests.Steps.{
  run_event-WorldInv, acknowledge-WorldInv, other_event-WorldInv,
}
use gate_lock_home_node.Node.Requests.LogSteps.{start_log-WorldInv, read_log-WorldInv}
use gate_lock_home_node.Node.Requests.Arrival.{request-WorldInv}

module _ {S : Type 0} (env : NodeEnv) (bank : Bank S) (ids : EventIds) (laws : BankLaws bank)
    (takes : TakesWork env.httpd) (queues : QueueTakes env) where
  delivered-WorldInv :
      (req : ℕ) (o : Option (Node S)) (w t : World S)
      → handle_request env bank req w.node ≡ o
      → delivered env w o ≡ some t
      → WorldInv env bank w
      → WorldInv env bank t
  delivered-WorldInv req none w t e h v = cc
  delivered-WorldInv req (some u) w t e h v =
      subst (WorldInv env bank) (some_eq h) (request-WorldInv env bank laws takes req w u e v)

  restarted-WorldInv :
      (t : Node S) (w u : World S)
      → delivered env w (comes_back t) ≡ some u
      → WorldInv env bank (deliver env w t)
      → WorldInv env bank u
  restarted-WorldInv t w u h v = elim (Bool-cases (is_restarting t.calls)) [
    | inl gone ↦ absurd (cc (rw gone at h))
    | inr up ↦ subst (WorldInv env bank) (some_eq (rw up at h)) v
  ]

  step-WorldInv :
      (s : Step) (w t : World S)
      → step env bank ids w s ≡ some t
      → WorldInv env bank w
      → WorldInv env bank t
  step-WorldInv (request_comes req) w t h v =
      delivered-WorldInv req (handle_request env bank req w.node) w t refl h v
  step-WorldInv event_runs w t h v =
      subst (WorldInv env bank) (some_eq h)
        (run_event-WorldInv env bank ids laws takes w.events w queues refl v)
  step-WorldInv (status_comes i success) w t h v =
      subst (WorldInv env bank) (some_eq h)
        (acknowledge-WorldInv env bank ids laws takes (get_elem? w.commands i) i success w refl v)
  step-WorldInv (discovery_comes id) w t h v =
      subst (WorldInv env bank) (some_eq h) (other_event-WorldInv env bank ids laws takes id w v).0
  step-WorldInv (ota_service_comes id) w t h v =
      restarted-WorldInv (routine_event_handler env bank ids (ota_service_event id) w.node) w t h
        (other_event-WorldInv env bank ids laws takes id w v).1
  step-WorldInv log_starts w t h v =
      subst (WorldInv env bank) (some_eq h)
        (start_log-WorldInv env bank laws takes w.sending w.node.delegate_queue w refl refl v)
  step-WorldInv (log_reads bytes) w t h v =
      subst (WorldInv env bank) (some_eq h)
        (read_log-WorldInv env bank laws takes w.sending bytes w refl v)
  step-WorldInv server_runs w t h v = subst (WorldInv env bank) (some_eq h) (
      server_task-Owned env.httpd bank laws takes [] w.events w.commands w.node.delegate_queue
        w.sending w.node.server v)

  no_world : (ss : List Step) → run_from env bank ids none ss ≡ none
  no_world [] = refl
  no_world (s ∷ ss) = refl

  -- With lawful pools, a server that takes every work and a delegate queue that takes every job:
  -- after any history that ends neither in a write through NULL nor in a restart, from a state that
  -- satisfies it,
  -- every slot that is handed out has exactly one holder (an event, a command, a job, the log that
  -- is being sent or a work) and every other none, and each request is open exactly as often as it
  -- was taken and not completed.
  pub run_from-WorldInv :
      (ss : List Step) (w t : World S)
      → run_from env bank ids (some w) ss ≡ some t
      → WorldInv env bank w
      → WorldInv env bank t
  run_from-WorldInv [] w t h v = subst (WorldInv env bank) (some_eq h) v
  run_from-WorldInv (s ∷ ss) w t h v = elim (Option-cases (step env bank ids w s)) [
    | inl e ↦
        absurd
          (cc (ap (λ (o : Option (World S)). run_from env bank ids o ss) (sym e) ∙ h, no_world ss))
    | inr (u, e) ↦
        run_from-WorldInv ss u t
          (ap (λ (o : Option (World S)). run_from env bank ids o ss) (sym e) ∙ h)
          (step-WorldInv s w u e v)
  ]
