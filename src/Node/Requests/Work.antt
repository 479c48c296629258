-- ===== src/Node/Requests/Work.antt =====
-- The work that is left for the open requests, and the steps that do it.
use gate_lock_home_node.Base.{
  ℕ, ◌+◌, ◌*◌, ◌≤◌, ◌≡◌, refl, ap, subst, sym, ◌∙◌, Bool, true, false, Option, none, some, List, [],
  ◌∷◌, ◌++◌, append-nil, arith, length, length-append, drop, drop_past, is_ok, if◌then◌else◌,
  EspErr, esp_ok, esp_fail,
}
use gate_lock_home_node.Http.Types.{Bank, Server, Work}
use gate_lock_home_node.Http.Respond.{http_server_send_response}
use gate_lock_home_node.Http.Async.{http_server_close_async_connection}
use gate_lock_home_node.Http.Async.History.{rounds}
use gate_lock_home_node.Node.Types.{NodeEnv, Node, Command, DelegateJob, send_command, queue_send}
use gate_lock_home_node.Node.Output.{respond_and_close, user_request_response_inform_command_status}
use gate_lock_home_node.Node.Routine.{command_gate, delegate_post, pointer_size, append_job}
use gate_lock_home_node.Node.Requests.{World, posts, sends, deliver}
use gate_lock_home_node.Node.Requests.Owners.{queue_slots, job_slots, log_slots, job_slots-append}
use gate_lock_home_node.Node.Requests.Handing.{QueueTakes}

-- A job of the log costs a start, an end and two rounds of the server task; an event at most a job
-- besides.
abbrev pub work_of : ℕ → ℕ → Option (List DelegateJob) → Option ℕ → List Work → ℕ
work_of events commands queue sending works =
    5 * events
    + commands
    + 4 * length (queue_slots queue)
    + 3 * length (log_slots sending)
    + rounds works

abbrev pub work_left : {S : Type 0} → World S → ℕ
work_left w =
    work_of (length w.events) (length w.commands) w.node.delegate_queue w.sending
      w.node.server.works

-- Less is left than before.
abbrev pub IsLess : {S : Type 0} → World S → World S → Type 0
IsLess t w = work_left t + 1 ≤ work_left w

module _ {S : Type 0} (env : NodeEnv) (bank : Bank S) where
  deliver-work :
      (w : World S) (t : Node S) (xs : List (ℕ × ℕ)) (ys : List ℕ)
      → posts env t.calls ≡ posts env w.node.calls ++ xs
      → sends env t.calls ≡ sends env w.node.calls ++ ys
      → work_left (deliver env w t)
        ≡ work_of
            (length w.events + length xs)
            (length w.commands + length ys)
            t.delegate_queue
            w.sending
            t.server.works
  deliver-work w t xs ys p q =
      let e =
        ap length
          (ap (drop (length (posts env w.node.calls))) p ∙ drop_past (posts env w.node.calls) xs) in
      let c =
        ap length
          (ap (drop (length (sends env w.node.calls))) q ∙ drop_past (sends env w.node.calls) ys) in
      omega (
        arith,
        e,
        c,
        length-append w.events (drop (length (posts env w.node.calls)) (posts env t.calls)),
        length-append w.commands (drop (length (sends env w.node.calls)) (sends env t.calls)),
      )

  quiet-work :
      (w : World S) (t : Node S)
      → posts env t.calls ≡ posts env w.node.calls
      → sends env t.calls ≡ sends env w.node.calls
      → work_left (deliver env w t)
        ≡ work_of (length w.events) (length w.commands) t.delegate_queue w.sending t.server.works
  quiet-work w t p q = omega (
    arith,
    deliver-work w t [] [] (p ∙ sym (append-nil (posts env w.node.calls)))
        (q ∙ sym (append-nil (sends env w.node.calls))),
  )

  -- What a handler of the request path leaves: at most a command or a job.
  abbrev pub AtMost : ℕ → World S → Node S → Type 0
  AtMost n w t = work_left (deliver env w t) ≤ work_left w + n

  pub command_gate-AtMost :
      (command : Command) (slot : ℕ) (w : World S) (b : Bool)
      → is_ok (env.sent w.node.calls command slot) ≡ b
      → AtMost 4 w (command_gate env bank command slot w.node)
  unfolding command_gate user_request_response_inform_command_status respond_and_close
      http_server_send_response http_server_close_async_connection
  command_gate-AtMost command slot w true h =
      let t : Node S = record w.node { calls = send_command command slot ∷ w.node.calls } in
      subst
        (λ (c : Bool).
          AtMost 4 w (
            if c then t else (user_request_response_inform_command_status env bank false slot t).1))
        (sym h)
        (omega (
          arith,
          deliver-work w t [] (slot ∷ []) (sym (append-nil (posts env w.node.calls)))
              (ap (λ (c : Bool). sends env w.node.calls ++ (if c then slot ∷ [] else [])) h),
        ))
  command_gate-AtMost command slot w false h =
      let t : Node S = record w.node { calls = send_command command slot ∷ w.node.calls } in
      let a : Node S = (user_request_response_inform_command_status env bank false slot t).1 in
      subst (λ (c : Bool). AtMost 4 w (if c then t else a)) (sym h)
        (omega (
          arith,
          quiet-work w a refl (
              ap (λ (c : Bool). sends env w.node.calls ++ (if c then slot ∷ [] else [])) h
              ∙ append-nil (sends env w.node.calls)),
        ))

  append_job-length :
      (queue : Option (List DelegateJob)) (job : DelegateJob)
      → length (queue_slots (append_job env bank queue job)) ≤ length (queue_slots queue) + 1
  append_job-length none job = omega arith
  append_job-length (some jobs) job = omega (
    arith,
    ap length (job_slots-append jobs (job ∷ [])),
    length-append (job_slots jobs) (job.arg ∷ []),
  )

  pub delegate_post-AtMost :
      (slot : ℕ) (w : World S)
      → QueueTakes env
      → AtMost 4 w (delegate_post env bank slot pointer_size w.node).1
  unfolding delegate_post
  delegate_post-AtMost slot w q =
      let t : Node S = record w.node { calls = queue_send slot pointer_size ∷ w.node.calls } in
      let job : DelegateJob = record { arg = slot; arg_len = pointer_size } in
      let u : Node S = record t {
        delegate_queue = append_job env bank w.node.delegate_queue job;
      } in
      let posted : Bool → EspErr × Node S = λ c. if c then (esp_ok, u) else (esp_fail, t) in
      subst (λ (c : Bool). AtMost 4 w (posted c).1) (sym (q w.node.calls))
        (omega (arith, quiet-work w u refl refl, append_job-length w.node.delegate_queue job))

  pub inform-AtMost :
      (success : Bool) (slot : ℕ) (w : World S) (u : Node S)
      → u.calls ≡ w.node.calls
      → u.server ≡ w.node.server
      → u.delegate_queue ≡ w.node.delegate_queue
      → AtMost 0 w (user_request_response_inform_command_status env bank success slot u).1
  unfolding user_request_response_inform_command_status respond_and_close http_server_send_response
      http_server_close_async_connection
  inform-AtMost success slot w u c s q = omega (
    arith,
    quiet-work w (user_request_response_inform_command_status env bank success slot u).1
        (ap (posts env) c) (ap (sends env) c),
    ap (λ (x : Option (List DelegateJob)). length (queue_slots x)) q,
    ap (λ (x : Server S). rounds x.works) s,
  )
