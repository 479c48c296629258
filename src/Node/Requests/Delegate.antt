-- ===== src/Node/Requests/Delegate.antt =====
-- The task of main/routine_event_handler.c that sends the log, in rounds of its loop.
use gate_lock_home_node.Base.{
  ℕ, ◌≡◌, refl, ap, ◌∙◌, Bool-cases, Option-cases, ◌≢◌, inl, inr, Option, none, some, some_eq, List,
  [], ◌∷◌, ◌++◌, length, ◌==◌, is_ok,
}
use gate_lock_home_node.Http.Types.{Bank}
use gate_lock_home_node.Node.Types.{NodeEnv, Node, DelegateJob, snapshot_take}
use gate_lock_home_node.Node.Output.{user_request_response_send_log}
use gate_lock_home_node.Node.Routine.{
  EventIds, send_log_loop, delegated_to_task_send_log, delegate_run_task, run_job,
}
use gate_lock_home_node.Node.Log.{HasEnd, send_chunked-ok, send_log_terminates}
use gate_lock_home_node.Node.Requests.{World, Step, log_starts, log_reads, run_from, start_log}

abbrev log_rounds : List (List ℕ) → List Step
log_rounds [] = []
log_rounds (bytes ∷ reads) = log_reads bytes ∷ log_rounds reads

module _ {S : Type 0} (env : NodeEnv) (bank : Bank S) (ids : EventIds) where
  abbrev Finishes : List (List ℕ) → World S → Node S → Type 0
  Finishes reads w t =
      run_from env bank ids (some w) (log_rounds reads)
      ≡ some (record w { node = t; sending = none })

  -- Where no log is being sent, the rounds do nothing.
  no_log :
      (reads : List (List ℕ)) (w : World S)
      → run_from env bank ids (some (record w { sending = none })) (log_rounds reads)
        ≡ some (record w { sending = none })
  no_log [] w = refl
  no_log (bytes ∷ reads) w = no_log reads w

  send_log_loop-Finishes :
      (reads : List (List ℕ)) (ctx : ℕ) (w : World S) (t : Node S)
      → send_log_loop env bank reads ctx w.node ≡ some t
      → Finishes reads (record w { sending = some ctx }) t
  unfolding send_log_loop user_request_response_send_log
  send_log_loop-Finishes [] ctx w t h = cc
  send_log_loop-Finishes (bytes ∷ reads) ctx w t h =
      let ok = ap is_ok (send_chunked-ok env bank ctx (some (bytes ++ 0 ∷ [])) w.node.server) in
      elim (Bool-cases (length bytes == 0)) [
        | inl end ↦ rw end (
            no_log reads (record w { node = _ })
            ∙ ap (λ (x : Node S). some (record w { node = x; sending = none }))
                (some_eq (rw end at h)))
        | inr more ↦
            rw (more, ok)
              (send_log_loop-Finishes reads ctx (record w { node = _ }) t (rw (more, ok) at h))
      ]

  run_job-Finishes :
      (reads : List (List ℕ)) (queue : Option (List DelegateJob)) (w : World S) (t : Node S)
      → run_job env bank reads queue w.node ≡ some t
      → run_from env bank ids
          (some (start_log none queue (record w { sending = none })))
          (log_rounds reads)
        ≡ some (record w { node = t; sending = none })
  unfolding delegated_to_task_send_log
  run_job-Finishes reads none w t h =
      no_log reads w ∙ ap (λ (x : Node S). some (record w { node = x; sending = none })) (some_eq h)
  run_job-Finishes reads (some []) w t h =
      no_log reads w ∙ ap (λ (x : Node S). some (record w { node = x; sending = none })) (some_eq h)
  run_job-Finishes reads (some (job ∷ jobs)) w t h =
      send_log_loop-Finishes reads job.arg
        (record w {
          node = record w.node { delegate_queue = some jobs; calls = snapshot_take ∷ w.node.calls };
        })
        t h

  steps_of_task :
      (reads : List (List ℕ)) (w : World S) (t : Node S)
      → w.sending ≡ none
      → delegate_run_task env bank reads w.node ≡ some t
      → run_from env bank ids (some w) (log_starts ∷ log_rounds reads)
        ≡ some (record w { node = t; sending = none })
  unfolding delegate_run_task
  steps_of_task reads w t idle h =
      ap
        (λ (o : Option ℕ).
          run_from env bank ids (some (record w { sending = o })) (log_starts ∷ log_rounds reads))
        idle
      ∙ run_job-Finishes reads w.node.delegate_queue w t h

  run_job_returns :
      (reads : List (List ℕ)) (queue : Option (List DelegateJob)) (w : Node S)
      → HasEnd reads
      → run_job env bank reads queue w ≢ none
  run_job_returns reads none w h e = cc
  run_job_returns reads (some []) w h e = cc
  run_job_returns reads (some (job ∷ jobs)) w h e =
      send_log_terminates env bank reads job.arg (record w { delegate_queue = some jobs }) h e

  -- The steps of the log are the loop of `delegate_run_task`, cut into its rounds: with a snapshot that
  -- has an end, and while no log is being sent, they lead to the node that the loop returns.
  delegate_run_task-steps :
      (reads : List (List ℕ)) (w : World S)
      → HasEnd reads
      → w.sending ≡ none
      → (t : Node S) × (delegate_run_task env bank reads w.node ≡ some t)
        × (run_from env bank ids (some w) (log_starts ∷ log_rounds reads)
            ≡ some (record w { node = t; sending = none }))
  unfolding delegate_run_task
  delegate_run_task-steps reads w ends idle =
      elim (Option-cases (run_job env bank reads w.node.delegate_queue w.node)) [
        | inl e ↦ absurd (run_job_returns reads w.node.delegate_queue w.node ends e)
        | inr (t, e) ↦ (t, e, steps_of_task reads w t idle e)
      ]
