-- ===== src/Http/Async/History.antt =====
-- Histories of the asynchronous responses (components/http-server/http_server.c): callers hand
-- data over, and the server task runs in between.
use gate_lock_home_node.Base.{
  ℕ, zero, suc, ◌+◌, ◌≤◌, ◌≡◌, refl, ap, ap₂, sym, ◌∙◌, false, Option, List, [], ◌∷◌, ◌++◌, arith,
  elem, append_assoc, append-nil,
}
use gate_lock_home_node.Http.Types.{
  Work, async_data_worker, async_close_worker, async_finalize_worker, Httpd, Bank, BankLaws, Server,
}
use gate_lock_home_node.Http.Async.{
  http_server_send_chunked_response, http_async_data_worker, http_async_close_worker,
  http_async_finalize_worker, server_task, next_work,
}
use gate_lock_home_node.Http.Async.Messages.{
  Message, messages, wire, emits, emits-append, waiting_jobs, waiting_chunks,
}
use gate_lock_home_node.Http.Async.Pools.{
  PoolsInv, TakesWork, send_chunked-PoolsInv, server_task-PoolsInv,
}
use gate_lock_home_node.Http.Async.Delivery.{
  promised, reqs, handed_over, send_chunked-promised, send_chunked-keeps, server_task-promised,
  server_task-reqs,
}

-- A caller's `send_chunked_response`, or one round of the server task.
pub data Event : Type 0 where
  sends : ℕ → Option (List ℕ) → Event
  serves : Event

module _ {S : Type 0} (env : Httpd) (bank : Bank S) where
  abbrev pub step : Server S → Event → Server S
  step s (sends slot body) = (http_server_send_chunked_response env bank slot body s).1
  step s serves = server_task env bank s

  abbrev pub run : Server S → List Event → Server S
  run s [] = s
  run s (e ∷ es) = run (step s e) es

  -- The messages that a history hands over, in its order.
  abbrev pub accepted : Server S → List Event → List Message
  accepted s [] = []
  accepted s (sends slot body ∷ es) =
      handed_over env bank slot body s ++ accepted (step s (sends slot body)) es
  accepted s (serves ∷ es) = accepted (step s serves) es

  abbrev pub drain : ℕ → Server S → Server S
  drain zero s = s
  drain (suc n) s = drain n (server_task env bank s)

-- The rounds that works need: the end of a response queues one more.
abbrev pub rounds : List Work → ℕ
rounds [] = 0
rounds (async_data_worker j ∷ ws) = 1 + rounds ws
rounds (async_close_worker s ∷ ws) = 2 + rounds ws
rounds (async_finalize_worker s ∷ ws) = 1 + rounds ws

pub rounds-append : (ws vs : List Work) → rounds (ws ++ vs) ≡ rounds ws + rounds vs
rounds-append [] vs = omega arith
rounds-append (async_data_worker j ∷ ws) vs = omega (arith, rounds-append ws vs)
rounds-append (async_close_worker s ∷ ws) vs = omega (arith, rounds-append ws vs)
rounds-append (async_finalize_worker s ∷ ws) vs = omega (arith, rounds-append ws vs)

module _ {S : Type 0} (env : Httpd) (bank : Bank S) (laws : BankLaws bank)
    (taken : TakesWork env) where
  -- With lawful pools and a server that takes every work: after any history, from a state whose
  -- pools agree with the waiting works, they still agree (the blocks that are handed out are just
  -- those that the waiting works use, each used once, and no text is longer than its chunk).
  pub run-PoolsInv :
      (es : List Event) (s : Server S) → PoolsInv bank s → PoolsInv bank (run env bank s es)
  run-PoolsInv [] s v = v
  run-PoolsInv (sends slot body ∷ es) s v =
      run-PoolsInv es (step env bank s (sends slot body))
        (send_chunked-PoolsInv env bank laws taken slot body s v)
  run-PoolsInv (serves ∷ es) s v =
      run-PoolsInv es (step env bank s serves) (server_task-PoolsInv env bank laws taken s v)

  run-promised :
      (es : List Event) (s : Server S)
      → PoolsInv bank s
      → promised (run env bank s es) ≡ promised s ++ emits (reqs s) (accepted env bank s es)
  run-promised [] s v = sym (append-nil (promised s))
  run-promised (sends slot body ∷ es) s v =
      let t : Server S = step env bank s (sends slot body) in
      run-promised es t (send_chunked-PoolsInv env bank laws taken slot body s v)
      ∙ ap₂ ◌++◌ (send_chunked-promised env bank laws taken slot body s v) (
          ap (λ (f : ℕ → ℕ). emits f (accepted env bank t es))
            (send_chunked-keeps env bank laws taken slot body s).0)
      ∙ append_assoc (promised s) _ _
      ∙ ap (◌++◌ (promised s))
          (sym (emits-append (reqs s) (handed_over env bank slot body s) (accepted env bank t es)))
  run-promised (serves ∷ es) s v =
      let t : Server S = server_task env bank s in
      run-promised es t (server_task-PoolsInv env bank laws taken s v)
      ∙ ap₂ ◌++◌ (server_task-promised env bank laws taken s) (
          ap (λ (f : ℕ → ℕ). emits f (accepted env bank t es))
            (server_task-reqs env bank laws taken s))

  drain-promised : (n : ℕ) (s : Server S) → promised (drain env bank n s) ≡ promised s
  drain-promised zero s = refl
  drain-promised (suc n) s =
      drain-promised n (server_task env bank s) ∙ server_task-promised env bank laws taken s

  pub next_work-rounds :
      (ws : List Work) (s : Server S) (n : ℕ)
      → rounds ws ≤ suc n
      → rounds (next_work env bank ws (record s { works = ws })).works ≤ n
  unfolding http_async_data_worker http_async_close_worker http_async_finalize_worker
  next_work-rounds [] s n h = omega arith
  next_work-rounds (async_data_worker j ∷ ws) s n h = omega arith
  next_work-rounds (async_close_worker slot ∷ ws) s n h =
      rw (taken _ (async_finalize_worker slot))
        (omega (arith, rounds-append ws (async_finalize_worker slot ∷ [])))
  next_work-rounds (async_finalize_worker slot ∷ ws) s n h = omega arith

  pub rounds_none : (ws : List Work) → rounds ws ≤ 0 → ws ≡ []
  rounds_none [] h = refl
  rounds_none (async_data_worker j ∷ ws) h = absurd (omega arith)
  rounds_none (async_close_worker s ∷ ws) h = absurd (omega arith)
  rounds_none (async_finalize_worker s ∷ ws) h = absurd (omega arith)

  drain-works : (n : ℕ) (s : Server S) → rounds s.works ≤ n → (drain env bank n s).works ≡ []
  unfolding server_task
  drain-works zero s h = rounds_none s.works h
  drain-works (suc n) s h = drain-works n (server_task env bank s) (next_work-rounds s.works s n h)

  drain-PoolsInv : (n : ℕ) (s : Server S) → PoolsInv bank s → PoolsInv bank (drain env bank n s)
  drain-PoolsInv zero s v = v
  drain-PoolsInv (suc n) s v =
      drain-PoolsInv n (server_task env bank s) (server_task-PoolsInv env bank laws taken s v)

  wire-promised : (s : Server S) → s.works ≡ [] → promised s ≡ wire s.calls
  wire-promised s h =
      ap (λ (ws : List Work). wire s.calls ++ emits (reqs s) (messages s.job_objs s.chunk_objs ws))
        h
      ∙ append-nil (wire s.calls)

  -- With pools that obey the laws of the bank, and a server that takes every work that is queued:
  -- from a state whose pools agree with the waiting works, after any history and as many further
  -- rounds of the server task as the waiting works need, the chunks sent are those of before and of
  -- the works that waited, and then exactly those that the history handed over, in the order of the
  -- calls: none is lost, doubled, changed or overtaken.
  pub history_delivered :
      (es : List Event) (s : Server S) (n : ℕ)
      → PoolsInv bank s
      → rounds (run env bank s es).works ≤ n
      → wire (drain env bank n (run env bank s es)).calls
        ≡ promised s ++ emits (reqs s) (accepted env bank s es)
  history_delivered es s n v h =
      let t : Server S = run env bank s es in
      sym (wire-promised (drain env bank n t) (drain-works n t h))
      ∙ drain-promised n t
      ∙ run-promised es s v

  -- Under the same conditions (lawful pools, every work taken, a state whose pools agree with the
  -- waiting works, enough rounds): no block of the chunk pool or of the job pool is then handed out.
  pub history_frees :
      (es : List Event) (s : Server S) (n : ℕ) (i : ℕ)
      → PoolsInv bank s
      → rounds (run env bank s es).works ≤ n
      → let t = drain env bank n (run env bank s es) in
        (bank.held t.chunk_bank i ≡ false) × (bank.held t.job_bank i ≡ false)
  history_frees es s n i v h =
      let t : Server S = drain env bank n (run env bank s es) in
      let inv : PoolsInv bank t = drain-PoolsInv n (run env bank s es) (run-PoolsInv es s v) in
      let done : t.works ≡ [] = drain-works n (run env bank s es) h in
      (
        inv.chunk_held i ∙ ap (λ (ws : List Work). elem i (waiting_chunks t.job_objs ws)) done,
        inv.job_held i ∙ ap (λ (ws : List Work). elem i (waiting_jobs ws)) done,
      )
