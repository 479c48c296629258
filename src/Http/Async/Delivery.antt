-- ===== src/Http/Async/Delivery.antt =====
-- The asynchronous responses (components/http-server/http_server.c) as a queue of messages: what
-- the callers hand over and what the clients receive.
use gate_lock_home_node.Base.{
  ℕ, ◌≡◌, refl, ap, ap₂, fun_ext, sym, ◌∙◌, Bool, true, false, Option, none, some, List, [], ◌∷◌,
  ◌++◌, arith, append_assoc, append-nil, take, cstr, update, if◌then◌else◌, take-strnlen-strncpy,
  strncpy, strnlen,
}
use gate_lock_home_node.Http.Types.{
  Call, resp_set_type, resp_set_hdr, Work, async_data_worker, async_close_worker,
  async_finalize_worker, Httpd, Bank, BankLaws, Server, Chunk, SendJob, Slot, log_chunk_size,
}
use gate_lock_home_node.Http.Async.{
  send_data, send_allocated, http_server_send_chunked_response, http_async_data_worker,
  http_async_close_worker, http_async_finalize_worker, server_task, next_work,
}
use gate_lock_home_node.Http.Async.Messages.{
  Message, sent_text, send_bytes, end_response, give_back, messages, messages-update,
  messages-append, wire, emits, emits-append,
}
use gate_lock_home_node.Http.Async.Pools.{PoolsInv, TakesWork}

-- The request that a slot holds.
abbrev pub reqs : {S : Type 0} → Server S → ℕ → ℕ
reqs s slot = (s.async_objs slot).req

-- The messages that wait in a server, oldest first.
abbrev pub pending : {S : Type 0} → Server S → List Message
pending s = messages s.job_objs s.chunk_objs s.works

-- All that the clients have received, and will receive from the messages that wait.
abbrev pub promised : {S : Type 0} → Server S → List (ℕ × Option (List ℕ))
promised s = wire s.calls ++ emits (reqs s) (pending s)

abbrev pub both : Option ℕ → Option ℕ → Bool
both (some _) (some _) = true
both _ _ = false

module _ {S : Type 0} (env : Httpd) (bank : Bank S) where
  -- Whether both pools have a free block.
  abbrev pub has_blocks : Server S → Bool
  has_blocks s = both (bank.alloc s.chunk_bank).0 (bank.alloc s.job_bank).0

  -- What a call of `send_chunked_response` adds to the messages: the end of the response always,
  -- data if both pools have a free block, cut to the size of a chunk.
  abbrev pub handed_over : ℕ → Option (List ℕ) → Server S → List Message
  handed_over slot none s = end_response slot ∷ []
  handed_over slot (some body) s =
      if has_blocks s then send_bytes slot (take log_chunk_size (cstr body)) ∷ [] else []

module _ {S : Type 0} (env : Httpd) (bank : Bank S) (laws : BankLaws bank)
    (taken : TakesWork env) where
  send_data-pending :
      (slot : ℕ) (body : List ℕ) (s : Server S) (chunk job : ℕ)
      → PoolsInv bank s
      → (bank.alloc s.chunk_bank).0 ≡ some chunk
      → (bank.alloc s.job_bank).0 ≡ some job
      → pending (send_data env bank slot body chunk job s).1
        ≡ pending s ++ send_bytes slot (take log_chunk_size (cstr body)) ∷ []
  unfolding send_data
  send_data-pending slot body s chunk job v ce je = rw (taken s.calls (async_data_worker job)) (
      messages-append jobs chunks s.works (async_data_worker job ∷ [])
      ∙ ap (λ (ms : List Message). ms ++ messages jobs chunks (async_data_worker job ∷ [])) old
      ∙ ap (◌++◌ (pending s)) new)
    where
      text : List ℕ
      text = strncpy (s.chunk_objs chunk).text body log_chunk_size

      jobs : ℕ → SendJob
      jobs = update s.job_objs job (record { slot = slot; chunk = chunk })

      chunks : ℕ → Chunk
      chunks = update s.chunk_objs chunk (record { len = strnlen text log_chunk_size; text = text })

      old : messages jobs chunks s.works ≡ pending s
      old =
          messages-update s.job_objs s.chunk_objs job _ chunk _ s.works
            (sym (v.job_held job) ∙ laws.alloc_fresh s.job_bank job je)
            (sym (v.chunk_held chunk) ∙ laws.alloc_fresh s.chunk_bank chunk ce)

      new :
          messages jobs chunks (async_data_worker job ∷ [])
          ≡ send_bytes slot (take log_chunk_size (cstr body)) ∷ []
      new = ground (
        arith,
        take-strnlen-strncpy (s.chunk_objs chunk).text body log_chunk_size (v.text_fits chunk),
      )

  send_allocated-pending :
      (slot : ℕ) (body : List ℕ) (s : Server S) (chunk job : Option ℕ)
      → PoolsInv bank s
      → (bank.alloc s.chunk_bank).0 ≡ chunk
      → (bank.alloc s.job_bank).0 ≡ job
      → pending
          (send_allocated env bank slot body chunk job (record s {
            chunk_bank = (bank.alloc s.chunk_bank).1;
            job_bank = (bank.alloc s.job_bank).1;
          })).1
        ≡ pending s
          ++ (if both chunk job then send_bytes slot (take log_chunk_size (cstr body)) ∷ [] else [])
  unfolding send_allocated
  send_allocated-pending slot body s none none v ce je = sym (append-nil (pending s))
  send_allocated-pending slot body s (some c) none v ce je = sym (append-nil (pending s))
  send_allocated-pending slot body s none (some j) v ce je = sym (append-nil (pending s))
  send_allocated-pending slot body s (some c) (some j) v ce je =
      send_data-pending slot body s c j v ce je

  -- With lawful pools, a server that takes every work, and pools that agree with the waiting works:
  -- a call of `send_chunked_response` puts its message behind those that wait, and changes none of
  -- them. The message is the end of the response, or the data cut to 256 bytes; data is dropped
  -- if a pool is empty.
  pub send_chunked-pending :
      (slot : ℕ) (body : Option (List ℕ)) (s : Server S)
      → PoolsInv bank s
      → pending (http_server_send_chunked_response env bank slot body s).1
        ≡ pending s ++ handed_over env bank slot body s
  unfolding http_server_send_chunked_response
  send_chunked-pending slot (some body) s v = send_allocated-pending slot body s _ _ v refl refl
  send_chunked-pending slot none s v =
      rw (taken s.calls (async_close_worker slot))
        (messages-append s.job_objs s.chunk_objs s.works (async_close_worker slot ∷ []))

  send_allocated-keeps :
      (slot : ℕ) (body : List ℕ) (chunk job : Option ℕ) (s : Server S)
      → let t = (send_allocated env bank slot body chunk job s).1 in
        (reqs t ≡ reqs s) × (wire t.calls ≡ wire s.calls)
  unfolding send_allocated
  send_allocated-keeps slot body none none s = (refl, refl)
  send_allocated-keeps slot body none (some j) s = (refl, refl)
  send_allocated-keeps slot body (some c) none s = (refl, refl)
  send_allocated-keeps slot body (some c) (some j) s = (refl, refl)

  pub send_chunked-keeps :
      (slot : ℕ) (body : Option (List ℕ)) (s : Server S)
      → let t = (http_server_send_chunked_response env bank slot body s).1 in
        (reqs t ≡ reqs s) × (wire t.calls ≡ wire s.calls)
  unfolding http_server_send_chunked_response
  send_chunked-keeps slot (some body) s = send_allocated-keeps slot body _ _ _
  send_chunked-keeps slot none s = (refl, refl)

  pub send_chunked-promised :
      (slot : ℕ) (body : Option (List ℕ)) (s : Server S)
      → PoolsInv bank s
      → promised (http_server_send_chunked_response env bank slot body s).1
        ≡ promised s ++ emits (reqs s) (handed_over env bank slot body s)
  send_chunked-promised slot body s v =
      let (same, sent) = send_chunked-keeps slot body s in
      ap₂ ◌++◌ sent (ap₂ emits same (send_chunked-pending slot body s v))
      ∙ ap (◌++◌ (wire s.calls))
          (emits-append (reqs s) (pending s) (handed_over env bank slot body s))
      ∙ sym (append_assoc (wire s.calls) _ _)

  start-reqs :
      (started : Bool) (objs : ℕ → Slot) (i : ℕ)
      → ◌≡◌ {A = ℕ → ℕ}
          (λ k.
            ((if started
                then objs
                else update objs i (record { req = (objs i).req; response_started = true }))
              k).req)
          (λ k. (objs k).req)
  start-reqs true objs i = refl
  start-reqs false objs i = fun_ext (λ k. ground arith)

  start-wire :
      (started : Bool) (r : ℕ) (cs : List Call)
      → wire (
          if started
          then cs
          else resp_set_hdr r "Connection" "close"
            ∷ resp_set_hdr r "Cache-Control" "no-cache"
            ∷ resp_set_type r "text/plain"
            ∷ cs)
        ≡ wire cs
  start-wire true r cs = refl
  start-wire false r cs = refl

  -- Serving the oldest work sends its message next, and promises nothing more.
  next_work-promised :
      (ws : List Work) (s : Server S)
      → promised (next_work env bank ws (record s { works = ws }))
        ≡ promised (record s { works = ws })
  unfolding http_async_data_worker http_async_close_worker http_async_finalize_worker
  next_work-promised [] s = refl
  next_work-promised (async_data_worker j ∷ ws) s =
      let slot : ℕ = (s.job_objs j).slot in
      let started : Bool = (s.async_objs slot).response_started in
      ap₂ ◌++◌
        (ap
          (λ (w : List (ℕ × Option (List ℕ))).
            w ++ (reqs s slot, some (sent_text (s.chunk_objs (s.job_objs j).chunk))) ∷ [])
          (start-wire started (reqs s slot) s.calls))
        (ap (λ (f : ℕ → ℕ). emits f (messages s.job_objs s.chunk_objs ws))
          (start-reqs started s.async_objs slot))
      ∙ append_assoc (wire s.calls) _ _
  next_work-promised (async_close_worker slot ∷ ws) s = rw (taken _ (async_finalize_worker slot)) (
      ap (◌++◌ (wire s.calls ++ (reqs s slot, none) ∷ [])) (
        ap (emits (reqs s)) (messages-append s.job_objs s.chunk_objs ws _)
        ∙ emits-append (reqs s) (messages s.job_objs s.chunk_objs ws) (give_back slot ∷ [])
        ∙ append-nil _)
      ∙ append_assoc (wire s.calls) _ _)
  next_work-promised (async_finalize_worker slot ∷ ws) s = refl

  pub server_task-promised : (s : Server S) → promised (server_task env bank s) ≡ promised s
  unfolding server_task
  server_task-promised s = next_work-promised s.works s

  next_work-reqs : (ws : List Work) (s : Server S) → reqs (next_work env bank ws s) ≡ reqs s
  unfolding http_async_data_worker http_async_close_worker http_async_finalize_worker
  next_work-reqs [] s = refl
  next_work-reqs (async_data_worker j ∷ ws) s =
      start-reqs (s.async_objs (s.job_objs j).slot).response_started s.async_objs
        (s.job_objs j).slot
  next_work-reqs (async_close_worker slot ∷ ws) s = refl
  next_work-reqs (async_finalize_worker slot ∷ ws) s = refl

  pub server_task-reqs : (s : Server S) → reqs (server_task env bank s) ≡ reqs s
  unfolding server_task
  server_task-reqs s = next_work-reqs s.works s
