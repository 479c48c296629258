-- ===== src/Node/Requests/Steps.antt =====
-- The steps of the event loop (main/routine_event_handler.c), and the slots with their holders.
use gate_lock_home_node.Base.{
  ℕ, zero, suc, ◌+◌, ◌≡◌, refl, ap, subst, sym, Bool, true, false, inl, inr, Option, none, some,
  some_eq, List, [], ◌∷◌, arith, eq_refl, count, bit, ◌==◌, get_elem?, is_ok, if◌then◌else◌, ◌⊎◌,
}
use gate_lock_home_node.Http.Types.{Bank, BankLaws, Slot}
use gate_lock_home_node.Http.Async.Pools.{TakesWork}
use gate_lock_home_node.Node.Types.{
  NodeEnv, Node, Call, open_lock, close_lock, lock_status, signal_discovery_complete, restart,
  set_reconnect, event_gate_open, event_gate_close, event_gate_status, event_log, event_ota_update,
}
use gate_lock_home_node.Node.Routine.{
  EventIds, discovery_event, user_request_event, ota_service_event, routine_event_handler,
  routine_discovery_events_handler, routine_ota_service_events_handler,
}
use gate_lock_home_node.Ota.Control.{ota_process_start, ota_set_valid}
use gate_lock_home_node.Ota.Types.{
  Ota, routine_event_reboot_required, routine_event_verification_pending,
}
use gate_lock_home_node.Node.Requests.{
  World, posts, sends, deliver, run_event, acknowledge, remove_at,
}
use gate_lock_home_node.Node.Requests.Owners.{Owned, WorldInv, is_known, serving}
use gate_lock_home_node.Node.Requests.Handing.{QueueTakes, InHand, quiet-WorldInv}
use gate_lock_home_node.Node.Requests.Handlers.{
  command_gate-Owned, delegate_post-Owned, inform-Owned,
}

count-remove_at :
    (j i slot : ℕ) (xs : List ℕ)
    → get_elem? xs i ≡ some slot
    → count j xs ≡ bit (j == slot) + count j (remove_at i xs)
count-remove_at j i slot [] h = cc
count-remove_at j zero slot (x ∷ xs) h = ap (λ (y : ℕ). bit (j == y) + count j xs) (some_eq h)
count-remove_at j (suc i) slot (x ∷ xs) h = omega (arith, count-remove_at j i slot xs h)

serving-remove_at :
    (objs : ℕ → Slot) (r i slot : ℕ) (xs : List ℕ)
    → get_elem? xs i ≡ some slot
    → serving objs r xs ≡ bit (r == (objs slot).req) + serving objs r (remove_at i xs)
serving-remove_at objs r i slot [] h = cc
serving-remove_at objs r zero slot (x ∷ xs) h =
    ap (λ (y : ℕ). bit (r == (objs y).req) + serving objs r xs) (some_eq h)
serving-remove_at objs r (suc i) slot (x ∷ xs) h =
    omega (arith, serving-remove_at objs r i slot xs h)

-- What the routine handler does with the event of a request.
pub known_cases :
    (e : ℕ)
    → is_known e ≡ true
    → (e ≡ event_gate_open)
      ⊎ ((e ≡ event_gate_close)
          ⊎ ((e ≡ event_gate_status) ⊎ ((e ≡ event_log) ⊎ (e ≡ event_ota_update))))
known_cases e h = ground arith

module _ {S : Type 0} (env : NodeEnv) (bank : Bank S) (ids : EventIds) (laws : BankLaws bank)
    (takes : TakesWork env.httpd) where
  user_request_event-WorldInv :
      (e slot : ℕ) (w : World S)
      → QueueTakes env
      → is_known e ≡ true
      → InHand env bank laws takes slot w w.node.server
      → WorldInv env bank
          (deliver env w (routine_event_handler env bank ids (user_request_event e slot) w.node))
  unfolding routine_event_handler
  user_request_event-WorldInv e slot w q k v = elim (known_cases e k) [
    | inl h ↦ rw h (command_gate-Owned env bank laws takes open_lock slot w v)
    | inr (inl h) ↦ rw h (command_gate-Owned env bank laws takes close_lock slot w v)
    | inr (inr (inl h)) ↦ rw h (command_gate-Owned env bank laws takes lock_status slot w v)
    | inr (inr (inr (inl h))) ↦ rw h (delegate_post-Owned env bank laws takes slot w q v)
    | inr (inr (inr (inr h))) ↦ rw h (
        inform-Owned env bank laws takes (is_ok (ota_process_start w.node.ota).0) slot w
          (record w.node { ota = (ota_process_start w.node.ota).1 }) refl refl refl v)
  ]

  pub run_event-WorldInv :
      (es : List (ℕ × ℕ)) (w : World S)
      → QueueTakes env
      → es ≡ w.events
      → WorldInv env bank w
      → WorldInv env bank (run_event env bank ids es w)
  run_event-WorldInv [] w q h v = v
  run_event-WorldInv ((e, slot) ∷ es) w q h v =
      let u =
        subst
          (λ (xs : List (ℕ × ℕ)).
            Owned env.httpd bank [] xs w.commands w.node.delegate_queue w.sending w.node.server)
          (sym h) v in
      user_request_event-WorldInv e slot (record w { events = es }) q u.known.0
        (record {
          slots = λ i. omega (arith, u.slots i);
          requests = λ r. omega (arith, u.requests r);
          known = u.known.1;
          queued = u.queued;
          pools = u.pools;
          fed = u.fed;
        })

  pub acknowledge-WorldInv :
      (o : Option ℕ) (i : ℕ) (success : Bool) (w : World S)
      → get_elem? w.commands i ≡ o
      → WorldInv env bank w
      → WorldInv env bank (acknowledge env bank ids o i success w)
  unfolding routine_event_handler
  acknowledge-WorldInv none i success w h v = v
  acknowledge-WorldInv (some slot) i success w h v =
      let u : World S = record w { commands = remove_at i w.commands } in
      let held : InHand env bank laws takes slot u w.node.server = record {
        slots = λ j. omega (arith, v.slots j, count-remove_at j i slot w.commands h);
        requests = λ r.
            omega (
              arith,
              v.requests r,
              serving-remove_at w.node.server.async_objs r i slot w.commands h,
            );
        known = v.known;
        queued = v.queued;
        pools = v.pools;
        fed = v.fed;
      } in
      rw (eq_refl ids.send_status)
        (inform-Owned env bank laws takes success slot u w.node refl refl refl held)

  -- The events of the other components hold no request.
  same-WorldInv :
      (w : World S) (t : Node S)
      → posts env t.calls ≡ posts env w.node.calls
      → sends env t.calls ≡ sends env w.node.calls
      → t.server ≡ w.node.server
      → t.delegate_queue ≡ w.node.delegate_queue
      → WorldInv env bank w
      → WorldInv env bank (deliver env w t)
  same-WorldInv w t p s e q v = quiet-WorldInv env bank laws takes w t p s (rw (e, q) v)

  discovery-cases :
      (b : Bool) (w : World S)
      → WorldInv env bank w
      → WorldInv env bank (
          deliver env w (
            if b
            then record w.node { calls = signal_discovery_complete ∷ w.node.calls }
            else w.node))
  discovery-cases true w v =
      same-WorldInv w (record w.node { calls = signal_discovery_complete ∷ w.node.calls }) refl refl
        refl refl v
  discovery-cases false w v = same-WorldInv w w.node refl refl refl refl v

  ota_service-cases :
      (b c : Bool) (w : World S) (o : Ota)
      → WorldInv env bank w
      → let calls : List Call = restart ∷ set_reconnect false ∷ w.node.calls in
        WorldInv env bank (
          deliver env w (
            if b
            then record w.node { calls = calls }
            else (if c then record w.node { ota = o; calls = calls } else w.node)))
  ota_service-cases true c w o v =
      same-WorldInv w (record w.node { calls = restart ∷ set_reconnect false ∷ w.node.calls }) refl
        refl refl refl v
  ota_service-cases false true w o v =
      same-WorldInv w
        (record w.node { ota = o; calls = restart ∷ set_reconnect false ∷ w.node.calls }) refl refl
        refl refl v
  ota_service-cases false false w o v = same-WorldInv w w.node refl refl refl refl v

  pub other_event-WorldInv :
      (id : ℕ) (w : World S)
      → WorldInv env bank w
      → WorldInv env bank
          (deliver env w (routine_event_handler env bank ids (discovery_event id) w.node))
        × WorldInv env bank
            (deliver env w (routine_event_handler env bank ids (ota_service_event id) w.node))
  unfolding routine_event_handler routine_discovery_events_handler
      routine_ota_service_events_handler
  other_event-WorldInv id w v = (
    discovery-cases (id == ids.discovery_complete) w v,
    ota_service-cases (id == routine_event_reboot_required)
        (id == routine_event_verification_pending) w (ota_set_valid true w.node.ota).1 v,
  )
