-- ===== src/Http/Async.antt =====
-- components/http-server/http_server.c: the pools of chunks, jobs and asynchronous slots, the work
-- that is handed to the server task, and the workers that run there.
pub mod Messages
pub mod Pools
pub mod Delivery
pub mod History
use gate_lock_home_node.Base.{
  ℕ, true, Option, none, some, List, [], ◌∷◌, ◌++◌, EspErr, esp_ok, is_ok, take, strncpy, strnlen,
  update, if◌then◌else◌,
}
use gate_lock_home_node.Http.Types.{
  resp_set_type, resp_set_hdr, resp_send_chunk, async_handler_complete, trigger_close, queue_work,
  Work, async_data_worker, async_close_worker, async_finalize_worker, Httpd, Bank, Server, Slot,
  Chunk, SendJob, log_chunk_size,
}
use gate_lock_home_node.Http.Respond.{M, ◌>>=◌, ◌>>◌, return, call}

module _ {S : Type 0} (env : Httpd) (bank : Bank S) where
  -- `httpd_queue_work`: a work that is taken waits behind those taken before it.
  abbrev pub httpd_queue_work : Work → M S EspErr
  httpd_queue_work w s =
      let r : EspErr = env.answer s.calls (queue_work w) in
      (
        r,
        record s {
          works = if is_ok r then s.works ++ w ∷ [] else s.works;
          calls = queue_work w ∷ s.calls;
        },
      )

  abbrev pub bank_alloc_chunk : M S (Option ℕ)
  bank_alloc_chunk s =
      ((bank.alloc s.chunk_bank).0, record s { chunk_bank = (bank.alloc s.chunk_bank).1 })

  abbrev pub bank_alloc_job : M S (Option ℕ)
  bank_alloc_job s = ((bank.alloc s.job_bank).0, record s { job_bank = (bank.alloc s.job_bank).1 })

  abbrev pub bank_free_chunk : ℕ → M S (Unit {0})
  bank_free_chunk i s = (tt, record s { chunk_bank = bank.free s.chunk_bank i })

  abbrev pub bank_free_job : ℕ → M S (Unit {0})
  bank_free_job i s = (tt, record s { job_bank = bank.free s.job_bank i })

  abbrev pub bank_free_async : ℕ → M S (Unit {0})
  bank_free_async i s = (tt, record s { async_bank = bank.free s.async_bank i })

  -- The request pointer of the slot is never NULL in the model: `master_request_handler` fills it.
  unfoldable pub http_server_close_async_connection : ℕ → M S EspErr
  http_server_close_async_connection slot s =
      (do
        call env (async_handler_complete (s.async_objs slot).req)
        bank_free_async slot
        return esp_ok)
        s

  unfoldable pub http_async_finalize_worker : ℕ → M S (Unit {0})
  http_async_finalize_worker slot = bank_free_async slot

  unfoldable pub http_async_close_worker : ℕ → M S (Unit {0})
  http_async_close_worker slot s =
      let req : ℕ = (s.async_objs slot).req in
      (do
        call env (resp_send_chunk req none)
        let sockfd = env.to_sockfd req
        call env (async_handler_complete req)
        call env (trigger_close sockfd)
        httpd_queue_work (async_finalize_worker slot)
        return tt)
        s

  -- The headers of a response go out before its first chunk.
  unfoldable pub start_response : ℕ → M S (Unit {0})
  start_response slot s =
      let o : Slot = s.async_objs slot in
      (
        tt,
        record s {
          async_objs =
              if o.response_started
              then s.async_objs
              else update s.async_objs slot (record { req = o.req; response_started = true });
          calls =
              if o.response_started
              then s.calls
              else resp_set_hdr o.req "Connection" "close"
                ∷ resp_set_hdr o.req "Cache-Control" "no-cache"
                ∷ resp_set_type o.req "text/plain"
                ∷ s.calls;
        },
      )

  unfoldable pub http_async_data_worker : ℕ → M S (Unit {0})
  unfolding start_response
  http_async_data_worker job s =
      let j : SendJob = s.job_objs job in
      let req : ℕ = (s.async_objs j.slot).req in
      let chunk : Chunk = s.chunk_objs j.chunk in
      (do
        start_response j.slot
        call env (resp_send_chunk req (some (take chunk.len chunk.text)))
        bank_free_chunk j.chunk
        bank_free_job job)
        s

  -- Both blocks at hand: fill them and hand the job over.
  unfoldable pub send_data : ℕ → List ℕ → ℕ → ℕ → M S EspErr
  send_data slot body chunk job s =
      let text : List ℕ = strncpy (s.chunk_objs chunk).text body log_chunk_size in
      (do httpd_queue_work (async_data_worker job); return esp_ok)
        (record s {
          chunk_objs =
              update s.chunk_objs chunk (record { len = strnlen text log_chunk_size; text = text });
          job_objs = update s.job_objs job (record { slot = slot; chunk = chunk });
        })

  -- `if (!chunk || !job)`: the block that was handed out, if any, goes back.
  unfoldable pub send_allocated : ℕ → List ℕ → Option ℕ → Option ℕ → M S EspErr
  unfolding send_data
  send_allocated slot body none none = return esp_ok
  send_allocated slot body (some chunk) none = bank_free_chunk chunk >> return esp_ok
  send_allocated slot body none (some job) = bank_free_job job >> return esp_ok
  send_allocated slot body (some chunk) (some job) = send_data slot body chunk job

  unfoldable pub http_server_send_chunked_response : ℕ → Option (List ℕ) → M S EspErr
  unfolding send_allocated
  http_server_send_chunked_response slot (some body) = do
    chunk ← bank_alloc_chunk
    job ← bank_alloc_job
    send_allocated slot body chunk job
  http_server_send_chunked_response slot none = do
    httpd_queue_work (async_close_worker slot)
    return esp_ok

  abbrev pub run_work : Work → M S (Unit {0})
  run_work (async_data_worker job) = http_async_data_worker job
  run_work (async_close_worker slot) = http_async_close_worker slot
  run_work (async_finalize_worker slot) = http_async_finalize_worker slot

  -- The server task takes the oldest work and runs it.
  abbrev pub next_work : List Work → Server S → Server S
  next_work [] s = s
  next_work (w ∷ ws) s = (run_work w (record s { works = ws })).1

  unfoldable pub server_task : Server S → Server S
  server_task s = next_work s.works s
