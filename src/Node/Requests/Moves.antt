-- ===== src/Node/Requests/Moves.antt =====
-- Each part outside with its oldest work, and what it leaves to do.
use gate_lock_home_node.Base.{
  ℕ, zero, suc, ◌+◌, ◌≡◌, ◌⊎◌, refl, ap, subst, sym, ◌∙◌, Bool, true, inl, inr, Option, none, some,
  List, [], ◌∷◌, arith, get_elem?, length, is_ok, eq_refl,
}
use gate_lock_home_node.Http.Types.{Bank, BankLaws, Work, async_close_worker}
use gate_lock_home_node.Http.Async.{http_server_send_chunked_response, server_task, next_work}
use gate_lock_home_node.Http.Async.Pools.{TakesWork}
use gate_lock_home_node.Http.Async.History.{rounds, rounds-append, next_work-rounds, rounds_none}
use gate_lock_home_node.Node.Types.{NodeEnv, DelegateJob, open_lock, close_lock, lock_status}
use gate_lock_home_node.Node.Output.{user_request_response_send_log}
use gate_lock_home_node.Node.Routine.{EventIds, user_request_event, routine_event_handler}
use gate_lock_home_node.Ota.Control.{ota_process_start}
use gate_lock_home_node.Node.Requests.{
  World, run_event, acknowledge, start_log, read_log, remove_at,
}
use gate_lock_home_node.Node.Requests.Owners.{AllKnown, is_known, queue_slots, log_slots}
use gate_lock_home_node.Node.Requests.Handing.{QueueTakes}
use gate_lock_home_node.Node.Requests.Steps.{known_cases}
use gate_lock_home_node.Node.Requests.Work.{
  IsLess, AtMost, command_gate-AtMost, delegate_post-AtMost, inform-AtMost,
}

-- From w to t there is less left, or nothing happened, for the reason P.
abbrev pub Moves : {S : Type 0} → (World S → Type 0) → World S → World S → Type 0
Moves P t w = IsLess t w ⊎ ((t ≡ w) × P w)

pub Moves-both :
    {S : Type 0}
    → (P Q : World S → Type 0) (u t w : World S) → Moves P t w
    → Moves Q u t
    → Moves (λ x. P x × Q x) u w
Moves-both P Q u t w (inl a) (inl b) = inl (omega arith)
Moves-both P Q u t w (inl a) (inr (e, q)) = inl (subst (λ x. IsLess x w) (sym e) a)
Moves-both P Q u t w (inr (e, p)) (inl b) = inl (subst (IsLess u) e b)
Moves-both P Q u t w (inr (e, p)) (inr (f, q)) = inr (f ∙ e, (p, subst Q e q))

module _ {S : Type 0} where
  abbrev pub NoEvents : World S → Type 0
  NoEvents w = length w.events ≡ 0

  abbrev pub NoCommands : World S → Type 0
  NoCommands w = length w.commands ≡ 0

  abbrev pub NoLog : World S → Type 0
  NoLog w = w.sending ≡ none

  abbrev pub NoJobs : World S → Type 0
  NoJobs w = w.sending ≡ none → length (queue_slots w.node.delegate_queue) ≡ 0

  abbrev pub NoWorks : World S → Type 0
  NoWorks w = rounds w.node.server.works ≡ 0

length-remove_at :
    (slot : ℕ) (xs : List ℕ) → get_elem? xs 0 ≡ some slot → length (remove_at 0 xs) + 1 ≡ length xs
length-remove_at slot [] h = cc
length-remove_at slot (x ∷ xs) h = omega arith

no_first : (xs : List ℕ) → get_elem? xs 0 ≡ none → length xs ≡ 0
no_first [] h = refl
no_first (x ∷ xs) h = cc

module _ {S : Type 0} (env : NodeEnv) (bank : Bank S) (ids : EventIds) (laws : BankLaws bank)
    (takes : TakesWork env.httpd) (queues : QueueTakes env) where
  event-AtMost :
      (e slot : ℕ) (w : World S)
      → is_known e ≡ true
      → AtMost env bank 4 w (routine_event_handler env bank ids (user_request_event e slot) w.node)
  unfolding routine_event_handler
  event-AtMost e slot w k = elim (known_cases e k) [
    | inl h ↦ rw h (command_gate-AtMost env bank open_lock slot w _ refl)
    | inr (inl h) ↦ rw h (command_gate-AtMost env bank close_lock slot w _ refl)
    | inr (inr (inl h)) ↦ rw h (command_gate-AtMost env bank lock_status slot w _ refl)
    | inr (inr (inr (inl h))) ↦ rw h (delegate_post-AtMost env bank slot w queues)
    | inr (inr (inr (inr h))) ↦ rw h (
        omega (
          arith,
          inform-AtMost env bank (is_ok (ota_process_start w.node.ota).0) slot w
              (record w.node { ota = (ota_process_start w.node.ota).1 }) refl refl refl,
        ))
  ]

  pub run_event-Moves :
      (es : List (ℕ × ℕ)) (w : World S)
      → w.events ≡ es
      → AllKnown es
      → Moves NoEvents (run_event env bank ids es w) w
  run_event-Moves [] w h k = inr (refl, ap length h)
  run_event-Moves ((e, slot) ∷ es) w h k =
      inl (omega (arith, event-AtMost e slot (record w { events = es }) k.0, ap length h))

  pub acknowledge-Moves :
      (o : Option ℕ) (success : Bool) (w : World S)
      → get_elem? w.commands 0 ≡ o
      → Moves NoCommands (acknowledge env bank ids o 0 success w) w
  unfolding routine_event_handler
  acknowledge-Moves none success w h = inr (refl, no_first w.commands h)
  acknowledge-Moves (some slot) success w h =
      let u : World S = record w { commands = remove_at 0 w.commands } in
      inl (
        rw (eq_refl ids.send_status) (
          omega (
            arith,
            inform-AtMost env bank success slot u w.node refl refl refl,
            length-remove_at slot w.commands h,
          )))

  pub start_log-Moves :
      (sending : Option ℕ) (queue : Option (List DelegateJob)) (w : World S)
      → w.sending ≡ sending
      → w.node.delegate_queue ≡ queue
      → Moves NoJobs (start_log sending queue w) w
  start_log-Moves none none w h k =
      inr (refl, λ e. ap (λ (q : Option (List DelegateJob)). length (queue_slots q)) k)
  start_log-Moves none (some []) w h k =
      inr (refl, λ e. ap (λ (q : Option (List DelegateJob)). length (queue_slots q)) k)
  start_log-Moves (some ctx) queue w h k = inr (refl, λ e. absurd (cc (h, e)))
  start_log-Moves none (some (job ∷ jobs)) w h k = inl (
      omega (
        arith,
        ap (λ (q : Option (List DelegateJob)). length (queue_slots q)) k,
        ap (λ (o : Option ℕ). length (log_slots o)) h,
      ))

  pub read_log-Moves :
      (sending : Option ℕ) (w : World S)
      → w.sending ≡ sending
      → Moves NoLog (read_log env bank sending [] w) w
  unfolding user_request_response_send_log http_server_send_chunked_response
  read_log-Moves none w h = inr (refl, h)
  read_log-Moves (some ctx) w h = inl (
      rw (takes w.node.server.calls (async_close_worker ctx)) (
        omega (
          arith,
          rounds-append w.node.server.works (async_close_worker ctx ∷ []),
          ap (λ (o : Option ℕ). length (log_slots o)) h,
        )))

  pub server_runs-Moves :
      (n : ℕ) (w : World S)
      → rounds w.node.server.works ≡ n
      → Moves NoWorks
          (record w { node = record w.node { server = server_task env.httpd bank w.node.server } })
          w
  unfolding server_task
  server_runs-Moves zero w h = inr (
    ap
        (λ (ws : List Work). record w {
          node = record w.node { server = next_work env.httpd bank ws w.node.server };
        })
        (rounds_none env.httpd bank laws takes w.node.server.works (omega (arith, h))),
    h,
  )
  server_runs-Moves (suc n) w h = inl (
      omega (
        arith,
        h,
        next_work-rounds env.httpd bank laws takes w.node.server.works w.node.server n
            (omega (arith, h)),
      ))
