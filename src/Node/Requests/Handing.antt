-- ===== src/Node/Requests/Handing.antt =====
-- How the request path (components/user-request/user_request.c, main/routine_event_handler.c) hands
-- the slot of a request on: to the event adapter, the codec, the delegate queue, or back.
use gate_lock_home_node.Base.{
  ℕ, ◌≡◌, refl, ap, subst, sym, ◌∙◌, true, Option, none, some, List, [], ◌∷◌, ◌++◌, append-nil,
  arith, count-append, drop, length, drop_past,
}
use gate_lock_home_node.Http.Types.{Bank, BankLaws, Server}
use gate_lock_home_node.Http.Async.Pools.{TakesWork}
use gate_lock_home_node.Node.Types.{NodeEnv, Node, DelegateJob, Call}
use gate_lock_home_node.Node.Output.{respond_and_close}
use gate_lock_home_node.Node.Routine.{append_job}
use gate_lock_home_node.Node.Requests.{World, posts, sends, deliver}
use gate_lock_home_node.Node.Requests.Owners.{
  Owned, WorldInv, is_known, AllKnown-append, event_slots-append, job_slots-append, serving-append,
  event_slots, job_slots,
}
use gate_lock_home_node.Node.Requests.Answering.{respond_and_close-Owned}

-- The delegate queue takes every job, as `xQueueSend` does that waits without end.
abbrev pub QueueTakes : NodeEnv → Type 0
QueueTakes env = (cs : List Call) → env.queued cs ≡ true

module _ {S : Type 0} (env : NodeEnv) (bank : Bank S) (laws : BankLaws bank)
    (takes : TakesWork env.httpd) where
  pub to_adapter :
      (event slot : ℕ) (events : List (ℕ × ℕ)) (commands : List ℕ)
      (queue : Option (List DelegateJob)) (sending : Option ℕ) (s : Server S)
      → is_known event ≡ true
      → Owned env.httpd bank (slot ∷ []) events commands queue sending s
      → Owned env.httpd bank [] (events ++ (event, slot) ∷ []) commands queue sending s
  to_adapter event slot events commands queue sending s k v = record {
    slots = λ i.
        rw (event_slots-append events ((event, slot) ∷ []))
          (omega (arith, v.slots i, count-append i (event_slots events) (slot ∷ [])));
    requests = λ r. rw (event_slots-append events ((event, slot) ∷ [])) (
        omega
          (arith, v.requests r, serving-append s.async_objs r (event_slots events) (slot ∷ [])));
    known = AllKnown-append events ((event, slot) ∷ []) v.known (k, tt);
    queued = v.queued;
    pools = v.pools;
    fed = v.fed;
  }

  pub to_codec :
      (slot : ℕ) (events : List (ℕ × ℕ)) (commands : List ℕ) (queue : Option (List DelegateJob))
      (sending : Option ℕ) (s : Server S)
      → Owned env.httpd bank (slot ∷ []) events commands queue sending s
      → Owned env.httpd bank [] events (commands ++ slot ∷ []) queue sending s
  to_codec slot events commands queue sending s v = record {
    slots = λ i. omega (arith, v.slots i, count-append i commands (slot ∷ []));
    requests = λ r. omega (arith, v.requests r, serving-append s.async_objs r commands (slot ∷ []));
    known = v.known;
    queued = v.queued;
    pools = v.pools;
    fed = v.fed;
  }

  pub to_delegate :
      (slot len : ℕ) (events : List (ℕ × ℕ)) (commands : List ℕ) (queue : Option (List DelegateJob))
      (sending : Option ℕ) (s : Server S)
      → Owned env.httpd bank (slot ∷ []) events commands queue sending s
      → Owned env.httpd bank [] events commands
          (append_job env bank queue (record { arg = slot; arg_len = len }))
          sending
          s
  to_delegate slot len events commands none sending s v = absurd (cc v.queued)
  to_delegate slot len events commands (some jobs) sending s v =
      let j : DelegateJob = record { arg = slot; arg_len = len } in
      record {
        slots = λ i.
            rw (job_slots-append jobs (j ∷ []))
              (omega (arith, v.slots i, count-append i (job_slots jobs) (slot ∷ [])));
        requests = λ r. rw (job_slots-append jobs (j ∷ [])) (
            omega
              (arith, v.requests r, serving-append s.async_objs r (job_slots jobs) (slot ∷ [])));
        known = v.known;
        queued = refl;
        pools = v.pools;
        fed = v.fed;
      }

  -- A request in hand.
  abbrev pub InHand : ℕ → World S → Server S → Type 0
  InHand slot w s =
      Owned env.httpd bank (slot ∷ []) w.events w.commands w.node.delegate_queue w.sending s

  pub answered-Owned :
      (body : List ℕ) (slot : ℕ) (w : World S) (s : Server S)
      → InHand slot w s
      → Owned env.httpd bank [] w.events w.commands w.node.delegate_queue w.sending
          (respond_and_close env bank body slot s)
  answered-Owned body slot w s v =
      respond_and_close-Owned env bank laws takes body slot [] w.events w.commands
        w.node.delegate_queue w.sending s v

  -- The outside keeps just what it took of the new calls.
  pub deliver-WorldInv :
      (w : World S) (t : Node S) (xs : List (ℕ × ℕ)) (ys : List ℕ)
      → posts env t.calls ≡ posts env w.node.calls ++ xs
      → sends env t.calls ≡ sends env w.node.calls ++ ys
      → Owned env.httpd bank []
          (w.events ++ xs)
          (w.commands ++ ys)
          t.delegate_queue
          w.sending
          t.server
      → WorldInv env bank (deliver env w t)
  deliver-WorldInv w t xs ys p q v =
      let e : drop (length (posts env w.node.calls)) (posts env t.calls) ≡ xs =
        ap (drop (length (posts env w.node.calls))) p ∙ drop_past (posts env w.node.calls) xs in
      let c : drop (length (sends env w.node.calls)) (sends env t.calls) ≡ ys =
        ap (drop (length (sends env w.node.calls))) q ∙ drop_past (sends env w.node.calls) ys in
      subst
        (λ (es : List (ℕ × ℕ)).
          Owned env.httpd bank [] (w.events ++ es)
            (w.commands ++ drop (length (sends env w.node.calls)) (sends env t.calls))
            t.delegate_queue w.sending t.server)
        (sym e)
        (subst
          (λ (cs : List ℕ).
            Owned env.httpd bank [] (w.events ++ xs) (w.commands ++ cs) t.delegate_queue w.sending
              t.server)
          (sym c) v)

  pub quiet-WorldInv :
      (w : World S) (t : Node S)
      → posts env t.calls ≡ posts env w.node.calls
      → sends env t.calls ≡ sends env w.node.calls
      → Owned env.httpd bank [] w.events w.commands t.delegate_queue w.sending t.server
      → WorldInv env bank (deliver env w t)
  quiet-WorldInv w t p q v =
      deliver-WorldInv w t [] [] (p ∙ sym (append-nil (posts env w.node.calls)))
        (q ∙ sym (append-nil (sends env w.node.calls)))
        (rw (append-nil w.events, append-nil w.commands) v)
