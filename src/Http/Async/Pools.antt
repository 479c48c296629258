-- ===== src/Http/Async/Pools.antt =====
-- The pools of chunks and jobs (components/http-server/http_server.c): which blocks are handed out.
use gate_lock_home_node.Base.{
  ℕ, ◌≡◌, refl, ap, sym, ◌∙◌, Bool, true, false, Option, none, some, List, [], ◌∷◌, ◌++◌, arith,
  elem, elem-append, Distinct, Distinct-snoc, drop, update, is_ok, ◌==◌, ◌||◌, drop-strncpy,
  append-nil,
}
use gate_lock_home_node.Http.Types.{
  Call, queue_work, Work, async_data_worker, async_close_worker, async_finalize_worker, Httpd, Bank,
  BankLaws, Server, Chunk, SendJob, log_chunk_size,
}
use gate_lock_home_node.Http.Async.{
  send_data, send_allocated, http_server_send_chunked_response, http_async_data_worker,
  http_async_close_worker, http_async_finalize_worker, server_task, next_work,
}
use gate_lock_home_node.Http.Async.Messages.{
  waiting_jobs, waiting_chunks, waiting_chunks-update, waiting_jobs-append, waiting_chunks-append,
}

-- `httpd_queue_work` takes every work, as it does while the server runs and its socket has room.
abbrev pub TakesWork : Httpd → Type 0
TakesWork env = (cs : List Call) (w : Work) → is_ok (env.answer cs (queue_work w)) ≡ true

-- A block is handed out exactly if a waiting job uses it, no two jobs share a chunk, and every
-- chunk keeps to its array.
pub record PoolsAgree {S : Type 0} (bank : Bank S) (job_bank chunk_bank : S) (jobs : ℕ → SendJob)
    (chunks : ℕ → Chunk) (works : List Work) : Type 0 where
  pub job_held : (j : ℕ) → bank.held job_bank j ≡ elem j (waiting_jobs works)
  pub chunk_held : (c : ℕ) → bank.held chunk_bank c ≡ elem c (waiting_chunks jobs works)
  pub jobs_distinct : Distinct (waiting_jobs works)
  pub chunks_distinct : Distinct (waiting_chunks jobs works)
  pub text_fits : (c : ℕ) → drop log_chunk_size (chunks c).text ≡ []

abbrev pub PoolsInv : {S : Type 0} → Bank S → Server S → Type 0
PoolsInv bank s = PoolsAgree bank s.job_bank s.chunk_bank s.job_objs s.chunk_objs s.works

module _ {S : Type 0} (env : Httpd) (bank : Bank S) (laws : BankLaws bank)
    (taken : TakesWork env) where
  -- A chunk and a job that were just handed out stay handed out, and now a waiting job uses them.
  send_data-PoolsInv :
      (slot : ℕ) (body : List ℕ) (chunk job : ℕ) (s : Server S)
      → ((j : ℕ) → bank.held s.job_bank j ≡ (j == job || elem j (waiting_jobs s.works)))
      → ((c : ℕ)
          → bank.held s.chunk_bank c ≡ (c == chunk || elem c (waiting_chunks s.job_objs s.works)))
      → elem job (waiting_jobs s.works) ≡ false
      → elem chunk (waiting_chunks s.job_objs s.works) ≡ false
      → Distinct (waiting_jobs s.works)
      → Distinct (waiting_chunks s.job_objs s.works)
      → ((c : ℕ) → drop log_chunk_size (s.chunk_objs c).text ≡ [])
      → PoolsInv bank (send_data env bank slot body chunk job s).1
  unfolding send_data
  send_data-PoolsInv slot body chunk job s jh ch jf cf jd cd fits = record {
    job_held = λ j.
        rw (ok, waiting_jobs-append s.works new)
          (ground (arith, jh j, elem-append j (waiting_jobs s.works) (job ∷ [])));
    chunk_held = λ c.
        rw (ok, waiting_chunks-append objs s.works new, old, last)
          (ground (arith, ch c, elem-append c (waiting_chunks s.job_objs s.works) (chunk ∷ [])));
    jobs_distinct =
        rw (ok, waiting_jobs-append s.works new) (Distinct-snoc (waiting_jobs s.works) job jd jf);
    chunks_distinct =
        rw (ok, waiting_chunks-append objs s.works new, old, last)
          (Distinct-snoc (waiting_chunks s.job_objs s.works) chunk cd cf);
    text_fits = λ c.
        ground
          (arith, fits c, drop-strncpy (s.chunk_objs chunk).text body log_chunk_size (fits chunk));
  }
    where
      new : List Work
      new = async_data_worker job ∷ []

      objs : ℕ → SendJob
      objs = update s.job_objs job (record { slot = slot; chunk = chunk })

      ok : is_ok (env.answer s.calls (queue_work (async_data_worker job))) ≡ true
      ok = taken s.calls (async_data_worker job)

      old : waiting_chunks objs s.works ≡ waiting_chunks s.job_objs s.works
      old = waiting_chunks-update s.job_objs job _ s.works jf

      last : waiting_chunks objs new ≡ chunk ∷ []
      last = ground arith

  -- Whatever the two allocations give, the pools agree with the waiting jobs afterwards.
  send_allocated-PoolsInv :
      (slot : ℕ) (body : List ℕ) (chunk job : Option ℕ) (s : Server S)
      → PoolsInv bank s
      → (bank.alloc s.chunk_bank).0 ≡ chunk
      → (bank.alloc s.job_bank).0 ≡ job
      → PoolsInv bank
          (send_allocated env bank slot body chunk job (record s {
            chunk_bank = (bank.alloc s.chunk_bank).1;
            job_bank = (bank.alloc s.job_bank).1;
          })).1
  unfolding send_allocated
  send_allocated-PoolsInv slot body none none s v ce je = record {
    job_held = λ j. laws.alloc_none s.job_bank j je ∙ v.job_held j;
    chunk_held = λ c. laws.alloc_none s.chunk_bank c ce ∙ v.chunk_held c;
    jobs_distinct = v.jobs_distinct;
    chunks_distinct = v.chunks_distinct;
    text_fits = v.text_fits;
  }
  send_allocated-PoolsInv slot body (some chunk) none s v ce je = record {
    job_held = λ j. laws.alloc_none s.job_bank j je ∙ v.job_held j;
    chunk_held = λ c. ground (
      arith,
      laws.free_held (bank.alloc s.chunk_bank).1 chunk c,
      laws.alloc_held s.chunk_bank chunk c ce,
      laws.alloc_fresh s.chunk_bank chunk ce,
      v.chunk_held c,
    );
    jobs_distinct = v.jobs_distinct;
    chunks_distinct = v.chunks_distinct;
    text_fits = v.text_fits;
  }
  send_allocated-PoolsInv slot body none (some job) s v ce je = record {
    job_held = λ j. ground (
      arith,
      laws.free_held (bank.alloc s.job_bank).1 job j,
      laws.alloc_held s.job_bank job j je,
      laws.alloc_fresh s.job_bank job je,
      v.job_held j,
    );
    chunk_held = λ c. laws.alloc_none s.chunk_bank c ce ∙ v.chunk_held c;
    jobs_distinct = v.jobs_distinct;
    chunks_distinct = v.chunks_distinct;
    text_fits = v.text_fits;
  }
  send_allocated-PoolsInv slot body (some chunk) (some job) s v ce je =
      send_data-PoolsInv slot body chunk job
        (record s {
          chunk_bank = (bank.alloc s.chunk_bank).1;
          job_bank = (bank.alloc s.job_bank).1;
        })
        (λ j. laws.alloc_held s.job_bank job j je ∙ ap (λ (b : Bool). j == job || b) (v.job_held j))
        (λ c.
          laws.alloc_held s.chunk_bank chunk c ce
          ∙ ap (λ (b : Bool). c == chunk || b) (v.chunk_held c))
        (sym (v.job_held job) ∙ laws.alloc_fresh s.job_bank job je)
        (sym (v.chunk_held chunk) ∙ laws.alloc_fresh s.chunk_bank chunk ce) v.jobs_distinct
        v.chunks_distinct v.text_fits

  -- Works that use the same blocks are alike for the pools.
  same_waiting :
      (s : Server S) (ws vs : List Work)
      → waiting_jobs vs ≡ waiting_jobs ws
      → waiting_chunks s.job_objs vs ≡ waiting_chunks s.job_objs ws
      → PoolsInv bank (record s { works = ws })
      → PoolsInv bank (record s { works = vs })
  same_waiting s ws vs h k v = record {
    job_held = λ j. v.job_held j ∙ ap (elem j) (sym h);
    chunk_held = λ c. v.chunk_held c ∙ ap (elem c) (sym k);
    jobs_distinct = rw h v.jobs_distinct;
    chunks_distinct = rw k v.chunks_distinct;
    text_fits = v.text_fits;
  }

  -- A work that uses no job changes nothing for the pools.
  push_idle :
      (s : Server S) (w : Work)
      → waiting_jobs (w ∷ []) ≡ []
      → waiting_chunks s.job_objs (w ∷ []) ≡ []
      → PoolsInv bank s
      → PoolsInv bank (record s { works = s.works ++ w ∷ [] })
  push_idle s w h k v = same_waiting s s.works (s.works ++ w ∷ []) jobs chunks v
    where
      jobs : waiting_jobs (s.works ++ w ∷ []) ≡ waiting_jobs s.works
      jobs =
          waiting_jobs-append s.works (w ∷ [])
          ∙ ap (◌++◌ (waiting_jobs s.works)) h
          ∙ append-nil (waiting_jobs s.works)

      chunks : waiting_chunks s.job_objs (s.works ++ w ∷ []) ≡ waiting_chunks s.job_objs s.works
      chunks =
          waiting_chunks-append s.job_objs s.works (w ∷ [])
          ∙ ap (◌++◌ (waiting_chunks s.job_objs s.works)) k
          ∙ append-nil (waiting_chunks s.job_objs s.works)

  -- With lawful pools and a server that takes every work: if the blocks handed out are just those
  -- of the waiting jobs, no two jobs share a block and every chunk keeps to its array, the same
  -- holds after `send_chunked_response`, with data or without, whether or not blocks are free.
  pub send_chunked-PoolsInv :
      (slot : ℕ) (body : Option (List ℕ)) (s : Server S)
      → PoolsInv bank s
      → PoolsInv bank (http_server_send_chunked_response env bank slot body s).1
  unfolding http_server_send_chunked_response
  send_chunked-PoolsInv slot (some body) s v = send_allocated-PoolsInv slot body _ _ s v refl refl
  send_chunked-PoolsInv slot none s v =
      rw (taken s.calls (async_close_worker slot))
        (push_idle s (async_close_worker slot) refl refl v)

  -- The oldest work gives back just the blocks that it used.
  pub next_work-PoolsInv :
      (ws : List Work) (s : Server S)
      → PoolsInv bank (record s { works = ws })
      → PoolsInv bank (next_work env bank ws (record s { works = ws }))
  unfolding http_async_data_worker http_async_close_worker http_async_finalize_worker
  next_work-PoolsInv [] s v = v
  next_work-PoolsInv (async_data_worker j ∷ ws) s v = record {
    job_held = λ i. ground (arith, laws.free_held s.job_bank j i, v.job_held i, v.jobs_distinct);
    chunk_held = λ c. ground (
      arith,
      laws.free_held s.chunk_bank (s.job_objs j).chunk c,
      v.chunk_held c,
      v.chunks_distinct,
    );
    jobs_distinct = v.jobs_distinct.1;
    chunks_distinct = v.chunks_distinct.1;
    text_fits = v.text_fits;
  }
  next_work-PoolsInv (async_close_worker slot ∷ ws) s v =
      rw (taken _ (async_finalize_worker slot)) (
        push_idle (record s { works = ws }) (async_finalize_worker slot) refl refl
          (same_waiting s (async_close_worker slot ∷ ws) ws refl refl v))
  next_work-PoolsInv (async_finalize_worker slot ∷ ws) s v =
      same_waiting s (async_finalize_worker slot ∷ ws) ws refl refl v

  -- With lawful pools and a server that takes every work: a round of the server task keeps the
  -- blocks handed out just those of the waiting jobs, no two jobs sharing one, and every chunk
  -- within its array.
  pub server_task-PoolsInv :
      (s : Server S) → PoolsInv bank s → PoolsInv bank (server_task env bank s)
  unfolding server_task
  server_task-PoolsInv s v = next_work-PoolsInv s.works s v
