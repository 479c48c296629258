-- ===== src/Node/Requests/Owners.antt =====
-- Who holds the slot of an open request (components/http-server/http_server.c, async_slot_t), and
-- how many requests were taken and completed.
use gate_lock_home_node.Base.{
  ℕ, ◌+◌, ◌≡◌, refl, ap, Bool, true, false, ◌||◌, Option, none, some, List, [], ◌∷◌, ◌++◌, arith,
  elem, count, bit, ◌==◌, update,
}
use gate_lock_home_node.Http.Types.{
  Call, async_handler_begin, async_handler_complete, Work, async_data_worker, async_close_worker,
  async_finalize_worker, Httpd, Bank, Server, Slot, SendJob,
}
use gate_lock_home_node.Http.Async.Pools.{PoolsInv}
use gate_lock_home_node.Node.Types.{
  NodeEnv, DelegateJob, event_gate_open, event_gate_close, event_gate_status, event_log,
  event_ota_update,
}
use gate_lock_home_node.Node.Requests.{World}

-- The slots of the holders, each in its own way: events, jobs, the log that is being sent, and works.
abbrev pub event_slots : List (ℕ × ℕ) → List ℕ
event_slots [] = []
event_slots ((event, slot) ∷ es) = slot ∷ event_slots es

abbrev pub job_slots : List DelegateJob → List ℕ
job_slots [] = []
job_slots (job ∷ jobs) = job.arg ∷ job_slots jobs

abbrev pub queue_slots : Option (List DelegateJob) → List ℕ
queue_slots none = []
queue_slots (some jobs) = job_slots jobs

abbrev pub log_slots : Option ℕ → List ℕ
log_slots none = []
log_slots (some ctx) = ctx ∷ []

abbrev pub closing : List Work → List ℕ
closing [] = []
closing (async_data_worker j ∷ ws) = closing ws
closing (async_close_worker slot ∷ ws) = slot ∷ closing ws
closing (async_finalize_worker slot ∷ ws) = closing ws

abbrev pub finishing : List Work → List ℕ
finishing [] = []
finishing (async_data_worker j ∷ ws) = finishing ws
finishing (async_close_worker slot ∷ ws) = finishing ws
finishing (async_finalize_worker slot ∷ ws) = slot ∷ finishing ws

-- How many of the slots hold request r.
abbrev pub serving : (ℕ → Slot) → ℕ → List ℕ → ℕ
serving objs r [] = 0
serving objs r (x ∷ xs) = bit (r == (objs x).req) + serving objs r xs

-- How often request r was taken, as the copy that esp_http_server makes, and completed.
abbrev pub taken : Httpd → ℕ → List Call → ℕ
taken env r [] = 0
taken env r (async_handler_begin q ∷ cs) = bit (r == env.async_copy q) + taken env r cs
taken env r (_ ∷ cs) = taken env r cs

abbrev pub completed : ℕ → List Call → ℕ
completed r [] = 0
completed r (async_handler_complete q ∷ cs) = bit (r == q) + completed r cs
completed r (_ ∷ cs) = completed r cs

-- The events of requests.
abbrev pub is_known : ℕ → Bool
is_known e =
    (e == event_gate_open)
    || (e == event_gate_close)
    || (e == event_gate_status)
    || (e == event_log)
    || (e == event_ota_update)

abbrev pub AllKnown : List (ℕ × ℕ) → Type 0
AllKnown [] = Unit {0}
AllKnown ((event, slot) ∷ es) = (is_known event ≡ true) × AllKnown es

-- Data waits for a slot only before the end of its response, which waits behind it or is still to
-- be sent.
abbrev pub Fed : (ℕ → SendJob) → List ℕ → List Work → Type 0
Fed jobs open_logs [] = Unit {0}
Fed jobs open_logs (async_data_worker j ∷ ws) =
    (elem (jobs j).slot (open_logs ++ closing ws) ≡ true) × Fed jobs open_logs ws
Fed jobs open_logs (async_close_worker slot ∷ ws) = Fed jobs open_logs ws
Fed jobs open_logs (async_finalize_worker slot ∷ ws) = Fed jobs open_logs ws

-- How often slot i is to be completed, by all that hold one: those in hand, the events, the
-- commands, the jobs, the log and the works.
abbrev pub owners :
    ℕ → List ℕ → List (ℕ × ℕ) → List ℕ → Option (List DelegateJob) → Option ℕ → List Work → ℕ
owners i in_hand events commands queue sending works =
    count i in_hand
    + count i (event_slots events)
    + count i commands
    + count i (queue_slots queue)
    + count i (log_slots sending)
    + count i (closing works)

-- The same for the requests in those slots.
abbrev pub open_requests :
    (ℕ → Slot)
    → ℕ
    → List ℕ
    → List (ℕ × ℕ)
    → List ℕ
    → Option (List DelegateJob)
    → Option ℕ
    → List Work
    → ℕ
open_requests objs r in_hand events commands queue sending works =
    serving objs r in_hand
    + serving objs r (event_slots events)
    + serving objs r commands
    + serving objs r (queue_slots queue)
    + serving objs r (log_slots sending)
    + serving objs r (closing works)

abbrev pub has_queue : Option (List DelegateJob) → Bool
has_queue none = false
has_queue (some jobs) = true

-- A slot is handed out exactly if it has one holder, and then it has just one; a request is open as
-- often as it was taken and not completed. The other fields say what this stands on: every event
-- that waits is one of a request, there is a delegate queue, the pools agree with the works, and no
-- data waits behind the end of its response.
pub record Owned {S : Type 0} (env : Httpd) (bank : Bank S) (in_hand : List ℕ)
    (events : List (ℕ × ℕ)) (commands : List ℕ) (queue : Option (List DelegateJob))
    (sending : Option ℕ) (s : Server S) : Type 0 where
  pub slots :
      (i : ℕ)
      → owners i in_hand events commands queue sending s.works + count i (finishing s.works)
        ≡ bit (bank.held s.async_bank i)
  pub requests :
      (r : ℕ)
      → taken env r s.calls
        ≡ completed r s.calls
          + open_requests s.async_objs r in_hand events commands queue sending s.works
  pub known : AllKnown events
  pub queued : has_queue queue ≡ true
  pub pools : PoolsInv bank s
  pub fed : Fed s.job_objs (log_slots sending) s.works

abbrev pub WorldInv : {S : Type 0} → NodeEnv → Bank S → World S → Type 0
WorldInv env bank w =
    Owned env.httpd bank [] w.events w.commands w.node.delegate_queue w.sending w.node.server

-- Adding to a queue, and a slot that is new.
pub event_slots-append :
    (xs ys : List (ℕ × ℕ)) → event_slots (xs ++ ys) ≡ event_slots xs ++ event_slots ys
event_slots-append [] ys = refl
event_slots-append ((e, slot) ∷ xs) ys = ap (◌∷◌ slot) (event_slots-append xs ys)

pub job_slots-append :
    (xs ys : List DelegateJob) → job_slots (xs ++ ys) ≡ job_slots xs ++ job_slots ys
job_slots-append [] ys = refl
job_slots-append (job ∷ xs) ys = ap (◌∷◌ job.arg) (job_slots-append xs ys)

pub closing-append : (ws vs : List Work) → closing (ws ++ vs) ≡ closing ws ++ closing vs
closing-append [] vs = refl
closing-append (async_data_worker j ∷ ws) vs = closing-append ws vs
closing-append (async_close_worker slot ∷ ws) vs = ap (◌∷◌ slot) (closing-append ws vs)
closing-append (async_finalize_worker slot ∷ ws) vs = closing-append ws vs

pub finishing-append : (ws vs : List Work) → finishing (ws ++ vs) ≡ finishing ws ++ finishing vs
finishing-append [] vs = refl
finishing-append (async_data_worker j ∷ ws) vs = finishing-append ws vs
finishing-append (async_close_worker slot ∷ ws) vs = finishing-append ws vs
finishing-append (async_finalize_worker slot ∷ ws) vs = ap (◌∷◌ slot) (finishing-append ws vs)

pub serving-append :
    (objs : ℕ → Slot) (r : ℕ) (xs ys : List ℕ)
    → serving objs r (xs ++ ys) ≡ serving objs r xs + serving objs r ys
serving-append objs r [] ys = omega arith
serving-append objs r (x ∷ xs) ys = omega (arith, serving-append objs r xs ys)

pub AllKnown-append : (xs ys : List (ℕ × ℕ)) → AllKnown xs → AllKnown ys → AllKnown (xs ++ ys)
AllKnown-append [] ys h k = k
AllKnown-append ((e, slot) ∷ xs) ys h k = (h.0, AllKnown-append xs ys h.1 k)

-- A slot that nobody holds can be filled anew.
pub serving-update :
    (objs : ℕ → Slot) (i : ℕ) (o : Slot) (r : ℕ) (xs : List ℕ)
    → count i xs ≡ 0
    → serving (update objs i o) r xs ≡ serving objs r xs
serving-update objs i o r [] h = refl
serving-update objs i o r (x ∷ xs) h = ground (arith, serving-update objs i o r xs)

-- The mark that a response has begun leaves the request.
pub serving-same :
    (objs other : ℕ → Slot) (r : ℕ) (xs : List ℕ)
    → ((i : ℕ) → (other i).req ≡ (objs i).req)
    → serving other r xs ≡ serving objs r xs
serving-same objs other r [] h = refl
serving-same objs other r (x ∷ xs) h =
    rw (h x) (ap (λ (n : ℕ). bit (r == (objs x).req) + n) (serving-same objs other r xs h))
