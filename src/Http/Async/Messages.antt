-- ===== src/Http/Async/Messages.antt =====
-- The works of the server task as the messages that they stand for, with the job and chunk objects
-- read through (components/http-server/http_server.c, http_send_job_t and http_chunk_t).
use gate_lock_home_node.Base.{
  ℕ, ◌≡◌, refl, ap, false, Option, none, some, List, [], ◌∷◌, ◌++◌, arith, elem, take, update,
}
use gate_lock_home_node.Http.Types.{
  Call, resp_send_chunk, Work, async_data_worker, async_close_worker, async_finalize_worker, Chunk,
  SendJob,
}

-- What a work will do: send bytes on a slot, end its response, or give the slot back.
pub data Message : Type 0 where
  send_bytes : ℕ → List ℕ → Message
  end_response : ℕ → Message
  give_back : ℕ → Message

-- The jobs that wait, and the chunks that they point to.
abbrev pub waiting_jobs : List Work → List ℕ
waiting_jobs [] = []
waiting_jobs (async_data_worker j ∷ ws) = j ∷ waiting_jobs ws
waiting_jobs (async_close_worker s ∷ ws) = waiting_jobs ws
waiting_jobs (async_finalize_worker s ∷ ws) = waiting_jobs ws

abbrev pub waiting_chunks : (ℕ → SendJob) → List Work → List ℕ
waiting_chunks jobs [] = []
waiting_chunks jobs (async_data_worker j ∷ ws) = (jobs j).chunk ∷ waiting_chunks jobs ws
waiting_chunks jobs (async_close_worker s ∷ ws) = waiting_chunks jobs ws
waiting_chunks jobs (async_finalize_worker s ∷ ws) = waiting_chunks jobs ws

abbrev pub sent_text : Chunk → List ℕ
sent_text c = take c.len c.text

abbrev pub messages : (ℕ → SendJob) → (ℕ → Chunk) → List Work → List Message
messages jobs chunks [] = []
messages jobs chunks (async_data_worker j ∷ ws) =
    send_bytes (jobs j).slot (sent_text (chunks (jobs j).chunk)) ∷ messages jobs chunks ws
messages jobs chunks (async_close_worker s ∷ ws) = end_response s ∷ messages jobs chunks ws
messages jobs chunks (async_finalize_worker s ∷ ws) = give_back s ∷ messages jobs chunks ws

-- A new job and a new chunk disturb no work that waits, if neither is in use.
pub waiting_chunks-update :
    (jobs : ℕ → SendJob) (i : ℕ) (v : SendJob) (ws : List Work)
    → elem i (waiting_jobs ws) ≡ false
    → waiting_chunks (update jobs i v) ws ≡ waiting_chunks jobs ws
waiting_chunks-update jobs i v [] h = refl
waiting_chunks-update jobs i v (async_data_worker j ∷ ws) h =
    ground (arith, waiting_chunks-update jobs i v ws)
waiting_chunks-update jobs i v (async_close_worker s ∷ ws) h = waiting_chunks-update jobs i v ws h
waiting_chunks-update jobs i v (async_finalize_worker s ∷ ws) h =
    waiting_chunks-update jobs i v ws h

pub messages-update :
    (jobs : ℕ → SendJob) (chunks : ℕ → Chunk) (i : ℕ) (v : SendJob) (c : ℕ) (x : Chunk)
    (ws : List Work)
    → elem i (waiting_jobs ws) ≡ false
    → elem c (waiting_chunks jobs ws) ≡ false
    → messages (update jobs i v) (update chunks c x) ws ≡ messages jobs chunks ws
messages-update jobs chunks i v c x [] h k = refl
messages-update jobs chunks i v c x (async_data_worker j ∷ ws) h k =
    ground (arith, messages-update jobs chunks i v c x ws)
messages-update jobs chunks i v c x (async_close_worker s ∷ ws) h k =
    ap (◌∷◌ (end_response s)) (messages-update jobs chunks i v c x ws h k)
messages-update jobs chunks i v c x (async_finalize_worker s ∷ ws) h k =
    ap (◌∷◌ (give_back s)) (messages-update jobs chunks i v c x ws h k)

-- A work that is queued stands behind the others.
pub waiting_jobs-append :
    (ws vs : List Work) → waiting_jobs (ws ++ vs) ≡ waiting_jobs ws ++ waiting_jobs vs
waiting_jobs-append [] vs = refl
waiting_jobs-append (async_data_worker j ∷ ws) vs = ap (◌∷◌ j) (waiting_jobs-append ws vs)
waiting_jobs-append (async_close_worker s ∷ ws) vs = waiting_jobs-append ws vs
waiting_jobs-append (async_finalize_worker s ∷ ws) vs = waiting_jobs-append ws vs

pub waiting_chunks-append :
    (jobs : ℕ → SendJob) (ws vs : List Work)
    → waiting_chunks jobs (ws ++ vs) ≡ waiting_chunks jobs ws ++ waiting_chunks jobs vs
waiting_chunks-append jobs [] vs = refl
waiting_chunks-append jobs (async_data_worker j ∷ ws) vs =
    ap (◌∷◌ (jobs j).chunk) (waiting_chunks-append jobs ws vs)
waiting_chunks-append jobs (async_close_worker s ∷ ws) vs = waiting_chunks-append jobs ws vs
waiting_chunks-append jobs (async_finalize_worker s ∷ ws) vs = waiting_chunks-append jobs ws vs

pub messages-append :
    (jobs : ℕ → SendJob) (chunks : ℕ → Chunk) (ws vs : List Work)
    → messages jobs chunks (ws ++ vs) ≡ messages jobs chunks ws ++ messages jobs chunks vs
messages-append jobs chunks [] vs = refl
messages-append jobs chunks (async_data_worker j ∷ ws) vs =
    ap (◌∷◌ (send_bytes (jobs j).slot (sent_text (chunks (jobs j).chunk))))
      (messages-append jobs chunks ws vs)
messages-append jobs chunks (async_close_worker s ∷ ws) vs =
    ap (◌∷◌ (end_response s)) (messages-append jobs chunks ws vs)
messages-append jobs chunks (async_finalize_worker s ∷ ws) vs =
    ap (◌∷◌ (give_back s)) (messages-append jobs chunks ws vs)

-- The chunks that went to the clients, oldest first, each with its request.
abbrev pub wire : List Call → List (ℕ × Option (List ℕ))
wire [] = []
wire (resp_send_chunk r b ∷ cs) = wire cs ++ (r, b) ∷ []
wire (_ ∷ cs) = wire cs

-- What messages put on the wire, by the requests of their slots.
abbrev pub emits : (ℕ → ℕ) → List Message → List (ℕ × Option (List ℕ))
emits reqs [] = []
emits reqs (send_bytes s b ∷ ms) = (reqs s, some b) ∷ emits reqs ms
emits reqs (end_response s ∷ ms) = (reqs s, none) ∷ emits reqs ms
emits reqs (give_back s ∷ ms) = emits reqs ms

pub emits-append :
    (reqs : ℕ → ℕ) (xs ys : List Message) → emits reqs (xs ++ ys) ≡ emits reqs xs ++ emits reqs ys
emits-append reqs [] ys = refl
emits-append reqs (send_bytes s b ∷ xs) ys = ap (◌∷◌ (reqs s, some b)) (emits-append reqs xs ys)
emits-append reqs (end_response s ∷ xs) ys = ap (◌∷◌ (reqs s, none)) (emits-append reqs xs ys)
emits-append reqs (give_back s ∷ xs) ys = emits-append reqs xs ys
