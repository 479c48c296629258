-- ===== src/Node/Log.antt =====
-- The log as an answer: `delegated_to_task_send_log` of main/routine_event_handler.c over the
-- asynchronous responses of components/http-server/http_server.c.
use gate_lock_home_node.Base.{
  ℕ, ◌≡◌, ◌≢◌, ◌⊎◌, ◌≤◌, refl, ap, sym, ◌∙◌, ◌==◌, Bool-cases, Option-cases, inl, inr, Option, none,
  some, some_eq, subst, List, [], ◌∷◌, ◌++◌, arith, length, esp_ok, is_ok, if◌then◌else◌,
}
use gate_lock_home_node.Http.Types.{Server, Bank, BankLaws}
use gate_lock_home_node.Http.Async.{send_allocated, http_server_send_chunked_response}
use gate_lock_home_node.Http.Async.Messages.{wire, emits}
use gate_lock_home_node.Http.Async.Pools.{PoolsInv, TakesWork}
use gate_lock_home_node.Http.Async.Delivery.{promised, reqs}
use gate_lock_home_node.Http.Async.History.{
  Event, sends, run, accepted, drain, rounds, history_delivered,
}
use gate_lock_home_node.Node.Types.{Node, NodeEnv, snapshot_read, snapshot_take}
use gate_lock_home_node.Node.Output.{user_request_response_send_log}
use gate_lock_home_node.Node.Routine.{send_log_loop, delegated_to_task_send_log}

-- What the log is sent as: the reads up to the first that is empty, and then the end.
abbrev pub log_events : List (List ℕ) → ℕ → List Event
log_events [] ctx = []
log_events (bytes ∷ reads) ctx =
    if length bytes == 0
    then sends ctx none ∷ []
    else sends ctx (some (bytes ++ 0 ∷ [])) ∷ log_events reads ctx

-- The snapshot has an end: a read that is empty.
abbrev pub HasEnd : List (List ℕ) → Type 0
HasEnd [] = ⊥
HasEnd (bytes ∷ reads) = (bytes ≡ []) ⊎ HasEnd reads

module _ {S : Type 0} (env : NodeEnv) (bank : Bank S) where
  send_allocated-ok :
      (slot : ℕ) (body : List ℕ) (c j : Option ℕ) (s : Server S)
      → (send_allocated env.httpd bank slot body c j s).0 ≡ esp_ok
  unfolding send_allocated
  send_allocated-ok slot body none none s = refl
  send_allocated-ok slot body (some c) none s = refl
  send_allocated-ok slot body none (some j) s = refl
  send_allocated-ok slot body (some c) (some j) s = refl

  pub send_chunked-ok :
      (slot : ℕ) (body : Option (List ℕ)) (s : Server S)
      → (http_server_send_chunked_response env.httpd bank slot body s).0 ≡ esp_ok
  unfolding http_server_send_chunked_response
  send_chunked-ok slot none s = refl
  send_chunked-ok slot (some body) s = send_allocated-ok slot body _ _ _

  send_log_loop-run :
      (reads : List (List ℕ)) (ctx : ℕ) (w t : Node S)
      → send_log_loop env bank reads ctx w ≡ some t
      → t.server ≡ run env.httpd bank w.server (log_events reads ctx)
  unfolding send_log_loop user_request_response_send_log
  send_log_loop-run [] ctx w t h = cc
  send_log_loop-run (bytes ∷ reads) ctx w t h =
      let ok = ap is_ok (send_chunked-ok ctx (some (bytes ++ 0 ∷ [])) w.server) in
      elim (Bool-cases (length bytes == 0)) [
        | inl end ↦ rw end (ap (λ (x : Node S). x.server) (sym (some_eq (rw end at h))))
        | inr more ↦ rw more (send_log_loop-run reads ctx _ t (rw (more, ok) at h))
      ]

  send_log_loop_terminates :
      (reads : List (List ℕ)) (ctx : ℕ) (w : Node S)
      → HasEnd reads
      → send_log_loop env bank reads ctx w ≢ none
  unfolding send_log_loop
  send_log_loop_terminates [] ctx w h = absurd h
  send_log_loop_terminates (bytes ∷ reads) ctx w (inl e) = ground arith
  send_log_loop_terminates (bytes ∷ reads) ctx w (inr h) =
      let t : Node S = record w { calls = snapshot_read ∷ w.calls } in
      ground (
        arith,
        send_log_loop_terminates reads ctx
            (user_request_response_send_log env bank (some (bytes ++ 0 ∷ [])) ctx t).1 h,
      )

  -- If one of the reads of the snapshot is empty, the loop that sends the log ends.
  pub send_log_terminates :
      (reads : List (List ℕ)) (ctx : ℕ) (w : Node S)
      → HasEnd reads
      → delegated_to_task_send_log env bank reads ctx w ≢ none
  unfolding delegated_to_task_send_log
  send_log_terminates reads ctx w h = send_log_loop_terminates reads ctx _ h

  -- If one of the reads of the snapshot is empty, the task that sends the log returns; by then it has
  -- handed over to the server the reads up to the first that is empty, each with its NUL, in their
  -- order, and after them the end of the response, and nothing else has changed in the server.
  pub send_log_returns :
      (reads : List (List ℕ)) (ctx : ℕ) (w : Node S)
      → HasEnd reads
      → (t : Node S) × (delegated_to_task_send_log env bank reads ctx w ≡ some t)
        × (t.server ≡ run env.httpd bank w.server (log_events reads ctx))
  unfolding delegated_to_task_send_log
  send_log_returns reads ctx w h =
      let started : Node S = record w { calls = snapshot_take ∷ w.calls } in
      elim (Option-cases (send_log_loop env bank reads ctx started)) [
        | inl e ↦ absurd (send_log_loop_terminates reads ctx started h e)
        | inr (t, e) ↦ (t, e, send_log_loop-run reads ctx started t e)
      ]

module _ {S : Type 0} (env : NodeEnv) (bank : Bank S) (laws : BankLaws bank)
    (taken : TakesWork env.httpd) where
  -- With lawful pools, a server that takes every work, and pools that agree with the waiting works:
  -- when the loop that sends the log has ended and the server task has made as many rounds as the
  -- waiting works need, the chunks sent are those of before and of the works that waited, then the
  -- reads of the snapshot up to the empty one that found room in the pools, in their order, and
  -- then the end of the response.
  pub send_log_delivered :
      (reads : List (List ℕ)) (ctx : ℕ) (w t : Node S) (n : ℕ)
      → PoolsInv bank w.server
      → delegated_to_task_send_log env bank reads ctx w ≡ some t
      → rounds t.server.works ≤ n
      → wire (drain env.httpd bank n t.server).calls
        ≡ promised w.server
          ++ emits (reqs w.server) (accepted env.httpd bank w.server (log_events reads ctx))
  unfolding delegated_to_task_send_log
  send_log_delivered reads ctx w t n v h k =
      let ran =
        send_log_loop-run env bank reads ctx (record w { calls = snapshot_take ∷ w.calls }) t h in
      ap (λ (s : Server S). wire (drain env.httpd bank n s).calls) ran
      ∙ history_delivered env.httpd bank laws taken (log_events reads ctx) w.server n v
          (subst (λ (s : Server S). rounds s.works ≤ n) ran k)
