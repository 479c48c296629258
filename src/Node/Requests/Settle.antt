-- ===== src/Node/Requests/Settle.antt =====
-- Rounds in which every part outside takes its oldest work, and how the open requests end in them.
use gate_lock_home_node.Base.{
  ℕ, zero, suc, ◌+◌, ◌≤◌, ◌≡◌, ◌≢◌, refl, ap, Bool, true, false, inl, inr, Option, none, some, List,
  [], ◌∷◌, arith, bit, count, get_elem?, length,
}
use gate_lock_home_node.Http.Types.{Bank, BankLaws, Slot, Work, max_async_requests}
use gate_lock_home_node.Http.Async.{server_task}
use gate_lock_home_node.Http.Async.Pools.{TakesWork}
use gate_lock_home_node.Http.Async.History.{rounds, rounds_none}
use gate_lock_home_node.Node.Types.{NodeEnv}
use gate_lock_home_node.Node.Routine.{EventIds}
use gate_lock_home_node.Node.Requests.{
  World, Step, event_runs, status_comes, log_starts, log_reads, server_runs, request_comes, step,
  run_from, run_event, acknowledge, start_log, read_log,
}
use gate_lock_home_node.Node.Requests.Owners.{
  WorldInv, AllKnown, queue_slots, log_slots, event_slots, closing, finishing, serving, taken,
  completed,
}
use gate_lock_home_node.Node.Requests.Handing.{QueueTakes}
use gate_lock_home_node.Node.Requests.Full.{HasBlocks, refused_held}
use gate_lock_home_node.Node.Requests.History.{run_from-WorldInv}
use gate_lock_home_node.Node.Requests.Work.{work_left}
use gate_lock_home_node.Node.Requests.Moves.{
  Moves, Moves-both, NoEvents, NoCommands, NoLog, NoJobs, NoWorks, run_event-Moves,
  acknowledge-Moves, start_log-Moves, read_log-Moves, server_runs-Moves,
}

no_length : {A : Type 0} → (xs : List A) → length xs ≡ 0 → xs ≡ []
no_length [] h = refl
no_length (x ∷ xs) h = absurd (omega arith)

no_bit : (b : Bool) → bit b ≡ 0 → b ≡ false
no_bit true h = absurd (omega arith)
no_bit false h = refl

-- A round of every part outside: the event loop, the codec, the end of the log, the delegate task
-- and the server task.
abbrev pub settling : Bool → ℕ → List Step
settling success zero = []
settling success (suc n) =
    event_runs
    ∷ status_comes 0 success
    ∷ log_reads []
    ∷ log_starts
    ∷ server_runs
    ∷ settling success n

module _ {S : Type 0} (env : NodeEnv) (bank : Bank S) (ids : EventIds) (laws : BankLaws bank)
    (takes : TakesWork env.httpd) (queues : QueueTakes env) where
  -- The state after each step of a round.
  abbrev run_steps : World S → List Step → Option (World S)
  run_steps w ss = run_from env bank ids (some w) ss

  abbrev after_event : World S → World S
  after_event w = run_event env bank ids w.events w

  abbrev after_status : Bool → World S → World S
  after_status success w = acknowledge env bank ids (get_elem? w.commands 0) 0 success w

  abbrev after_read : World S → World S
  after_read w = read_log env bank w.sending [] w

  abbrev after_start : World S → World S
  after_start w = start_log w.sending w.node.delegate_queue w

  abbrev after_server : World S → World S
  after_server w = record w {
    node = record w.node { server = server_task env.httpd bank w.node.server };
  }

  abbrev after_round : Bool → World S → World S
  after_round success w =
      after_server (after_start (after_read (after_status success (after_event w))))

  round-Moves :
      (success : Bool) (w : World S)
      → AllKnown w.events
      → Moves
          (λ x. (((NoEvents x × NoCommands x) × NoLog x) × NoJobs x) × NoWorks x)
          (after_round success w)
          w
  round-Moves success w k =
      let a : World S = after_event w in
      let b : World S = after_status success a in
      let c : World S = after_read b in
      let d : World S = after_start c in
      Moves-both (λ x. ((NoEvents x × NoCommands x) × NoLog x) × NoJobs x) NoWorks (after_server d)
        d w
        (Moves-both (λ x. (NoEvents x × NoCommands x) × NoLog x) NoJobs d c w
          (Moves-both (λ x. NoEvents x × NoCommands x) NoLog c b w
            (Moves-both NoEvents NoCommands b a w
              (run_event-Moves env bank ids laws takes queues w.events w refl k)
              (acknowledge-Moves env bank ids laws takes queues (get_elem? a.commands 0) success a
                refl))
            (read_log-Moves env bank ids laws takes queues b.sending b refl))
          (start_log-Moves env bank ids laws takes queues c.sending c.node.delegate_queue c refl
            refl))
        (server_runs-Moves env bank ids laws takes queues (rounds d.node.server.works) d refl)

  nothing_left :
      (w : World S)
      → (((NoEvents w × NoCommands w) × NoLog w) × NoJobs w) × NoWorks w
      → work_left w ≡ 0
  nothing_left w h = omega (
    arith,
    h.0.0.0.0,
    h.0.0.0.1,
    h.0.1 h.0.0.1,
    h.1,
    ap (λ (o : Option ℕ). length (log_slots o)) h.0.0.1,
  )

  round-less :
      (success : Bool) (n : ℕ) (w : World S)
      → AllKnown w.events
      → work_left w ≤ suc n
      → work_left (after_round success w) ≤ n
  round-less success n w k h = elim (round-Moves success w k) [
    | inl l ↦ omega (arith, l)
    | inr (e, p) ↦ omega (arith, nothing_left w p, ap work_left e)
  ]

  settles :
      (success : Bool) (n : ℕ) (w : World S)
      → WorldInv env bank w
      → work_left w ≤ n
      → (t : World S) × (run_steps w (settling success n) ≡ some t)
        × (work_left t ≡ 0)
        × WorldInv env bank t
  settles success zero w v h = (w, refl, omega arith, v)
  settles success (suc n) w v h =
      settles success n (after_round success w)
        (run_from-WorldInv env bank ids laws takes queues
          (event_runs ∷ status_comes 0 success ∷ log_reads [] ∷ log_starts ∷ server_runs ∷ []) w
          (after_round success w) refl v)
        (round-less success n w v.known h)

  -- Without work left nothing holds a slot.
  idle :
      (t : World S) (i r : ℕ)
      → WorldInv env bank t
      → work_left t ≡ 0
      → (bank.held t.node.server.async_bank i ≡ false)
        × (taken env.httpd r t.node.server.calls ≡ completed r t.node.server.calls)
  idle t i r v h =
      let objs : ℕ → Slot = t.node.server.async_objs in
      let events = no_length t.events (omega (arith, h)) in
      let commands = no_length t.commands (omega (arith, h)) in
      let jobs = no_length (queue_slots t.node.delegate_queue) (omega (arith, h)) in
      let log = no_length (log_slots t.sending) (omega (arith, h)) in
      let works = rounds_none env.httpd bank laws takes t.node.server.works (omega (arith, h)) in
      (
        no_bit (bank.held t.node.server.async_bank i) (
            omega (
              arith,
              v.slots i,
              ap (λ (xs : List (ℕ × ℕ)). count i (event_slots xs)) events,
              ap (count i) commands,
              ap (count i) jobs,
              ap (count i) log,
              ap (λ (ws : List Work). count i (closing ws) + count i (finishing ws)) works,
            )),
        omega (
          arith,
          v.requests r,
          ap (λ (xs : List (ℕ × ℕ)). serving objs r (event_slots xs)) events,
          ap (serving objs r) commands,
          ap (serving objs r) jobs,
          ap (serving objs r) log,
          ap (λ (ws : List Work). serving objs r (closing ws)) works,
        ),
      )

  -- With lawful pools that refuse a block only if all four are handed out, a server that takes every
  -- work and a delegate queue that takes every job: from any state that a history reaches from one in
  -- which the slots are with their holders, as many rounds of the parts outside as there is work left
  -- end without a write through NULL or a restart; then no slot is handed out, every request that was taken was
  -- completed, each as often as it was taken, and the next request is taken or answered.
  pub requests_settle :
      (has : HasBlocks bank max_async_requests) (ss : List Step) (w u : World S) (success : Bool)
      (n i r req : ℕ)
      → WorldInv env bank w
      → run_from env bank ids (some w) ss ≡ some u
      → work_left u ≤ n
      → (t : World S) × (run_from env bank ids (some u) (settling success n) ≡ some t)
        × (bank.held t.node.server.async_bank i ≡ false)
        × (taken env.httpd r t.node.server.calls ≡ completed r t.node.server.calls)
        × (step env bank ids t (request_comes req) ≢ none)
  requests_settle has ss w u success n i r req v h k =
      let (t, e, l, inv) =
        settles success n u (run_from-WorldInv env bank ids laws takes queues ss w u h v) k in
      let (free, done) = idle t i r inv l in
      (
        t,
        e,
        free,
        done,
        λ refused. cc (
          refused_held env bank ids max_async_requests req 0 t has refused (omega arith),
          (idle t 0 r inv l).0,
        ),
      )
