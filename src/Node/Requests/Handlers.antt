-- ===== src/Node/Requests/Handlers.antt =====
-- The handlers of components/user-request/user_request.c and main/routine_event_handler.c that have a
-- request in hand: each hands its slot on or answers it.
use gate_lock_home_node.Base.{
  ℕ, ◌≡◌, refl, ap, subst, sym, ◌∙◌, Bool, true, false, [], ◌∷◌, ◌++◌, append-nil, is_ok,
  if◌then◌else◌, codes, EspErr, esp_ok, esp_fail,
}
use gate_lock_home_node.Http.Types.{Bank, BankLaws, Server}
use gate_lock_home_node.Http.Async.Pools.{TakesWork}
use gate_lock_home_node.Node.Types.{NodeEnv, Node, Command, post_event, send_command, queue_send}
use gate_lock_home_node.Node.Output.{respond_and_close, user_request_response_inform_command_status}
use gate_lock_home_node.Node.Request.{post_request}
use gate_lock_home_node.Node.Routine.{command_gate, delegate_post, pointer_size, append_job}
use gate_lock_home_node.Node.Requests.{World, posts, sends, deliver}
use gate_lock_home_node.Node.Requests.Owners.{WorldInv, is_known}
use gate_lock_home_node.Node.Requests.Handing.{
  QueueTakes, InHand, to_adapter, to_codec, to_delegate, answered-Owned, deliver-WorldInv,
  quiet-WorldInv,
}

module _ {S : Type 0} (env : NodeEnv) (bank : Bank S) (laws : BankLaws bank)
    (takes : TakesWork env.httpd) where
  post_request-cases :
      (event slot : ℕ) (w : World S) (s : Server S) (b : Bool)
      → is_ok (env.posted w.node.calls event slot) ≡ b
      → is_known event ≡ true
      → InHand env bank laws takes slot w s
      → WorldInv env bank
          (deliver env w (post_request env bank event slot (record w.node { server = s })))
  unfolding post_request
  post_request-cases event slot w s true h k v =
      let u : Node S = record w.node { server = s } in
      let t : Node S = record u { calls = post_event event slot ∷ u.calls } in
      subst
        (λ (c : Bool). WorldInv env bank (
          deliver env w (
            if c
            then t
            else record t { server = respond_and_close env bank (codes "failure") slot s })))
        (sym h)
        (deliver-WorldInv env bank laws takes w t ((event, slot) ∷ []) []
          (ap (λ (c : Bool). posts env w.node.calls ++ (if c then (event, slot) ∷ [] else [])) h)
          (sym (append-nil (sends env w.node.calls)))
          (rw (append-nil w.commands) (
            to_adapter env bank laws takes event slot w.events w.commands w.node.delegate_queue
              w.sending s k v)))
  post_request-cases event slot w s false h k v =
      let u : Node S = record w.node { server = s } in
      let t : Node S = record u { calls = post_event event slot ∷ u.calls } in
      let a : Node S = record t { server = respond_and_close env bank (codes "failure") slot s } in
      subst (λ (c : Bool). WorldInv env bank (deliver env w (if c then t else a))) (sym h)
        (quiet-WorldInv env bank laws takes w a
          (ap (λ (c : Bool). posts env w.node.calls ++ (if c then (event, slot) ∷ [] else [])) h
            ∙ append-nil (posts env w.node.calls))
          refl (answered-Owned env bank laws takes (codes "failure") slot w s v))

  pub post_request-Owned :
      (event slot : ℕ) (w : World S) (s : Server S)
      → is_known event ≡ true
      → InHand env bank laws takes slot w s
      → WorldInv env bank
          (deliver env w (post_request env bank event slot (record w.node { server = s })))
  post_request-Owned event slot w s k v =
      post_request-cases event slot w s (is_ok (env.posted w.node.calls event slot)) refl k v

  command_gate-cases :
      (command : Command) (slot : ℕ) (w : World S) (b : Bool)
      → is_ok (env.sent w.node.calls command slot) ≡ b
      → InHand env bank laws takes slot w w.node.server
      → WorldInv env bank (deliver env w (command_gate env bank command slot w.node))
  unfolding command_gate user_request_response_inform_command_status
  command_gate-cases command slot w true h v =
      let t : Node S = record w.node { calls = send_command command slot ∷ w.node.calls } in
      subst
        (λ (c : Bool). WorldInv env bank (
          deliver env w (
            if c
            then t
            else (user_request_response_inform_command_status env bank false slot t).1)))
        (sym h)
        (deliver-WorldInv env bank laws takes w t [] (slot ∷ [])
          (sym (append-nil (posts env w.node.calls)))
          (ap (λ (c : Bool). sends env w.node.calls ++ (if c then slot ∷ [] else [])) h)
          (rw (append-nil w.events) (
            to_codec env bank laws takes slot w.events w.commands w.node.delegate_queue w.sending
              w.node.server v)))
  command_gate-cases command slot w false h v =
      let t : Node S = record w.node { calls = send_command command slot ∷ w.node.calls } in
      let a : Node S = (user_request_response_inform_command_status env bank false slot t).1 in
      subst (λ (c : Bool). WorldInv env bank (deliver env w (if c then t else a))) (sym h)
        (quiet-WorldInv env bank laws takes w a refl
          (ap (λ (c : Bool). sends env w.node.calls ++ (if c then slot ∷ [] else [])) h
            ∙ append-nil (sends env w.node.calls))
          (answered-Owned env bank laws takes (codes "Failed") slot w w.node.server v))

  pub command_gate-Owned :
      (command : Command) (slot : ℕ) (w : World S)
      → InHand env bank laws takes slot w w.node.server
      → WorldInv env bank (deliver env w (command_gate env bank command slot w.node))
  command_gate-Owned command slot w v =
      command_gate-cases command slot w (is_ok (env.sent w.node.calls command slot)) refl v

  pub delegate_post-Owned :
      (slot : ℕ) (w : World S)
      → QueueTakes env
      → InHand env bank laws takes slot w w.node.server
      → WorldInv env bank (deliver env w (delegate_post env bank slot pointer_size w.node).1)
  unfolding delegate_post
  delegate_post-Owned slot w q v =
      let t : Node S = record w.node { calls = queue_send slot pointer_size ∷ w.node.calls } in
      let u : Node S = record t {
        delegate_queue =
            append_job env bank w.node.delegate_queue
              (record { arg = slot; arg_len = pointer_size });
      } in
      let posted : Bool → EspErr × Node S = λ c. if c then (esp_ok, u) else (esp_fail, t) in
      subst (λ (c : Bool). WorldInv env bank (deliver env w (posted c).1)) (sym (q w.node.calls))
        (quiet-WorldInv env bank laws takes w u refl refl (
          to_delegate env bank laws takes slot pointer_size w.events w.commands
            w.node.delegate_queue w.sending w.node.server v))

  -- The request is answered, and no call is made that the adapter or the codec takes.
  pub inform-Owned :
      (success : Bool) (slot : ℕ) (w : World S) (u : Node S)
      → u.calls ≡ w.node.calls
      → u.server ≡ w.node.server
      → u.delegate_queue ≡ w.node.delegate_queue
      → InHand env bank laws takes slot w w.node.server
      → WorldInv env bank
          (deliver env w (user_request_response_inform_command_status env bank success slot u).1)
  unfolding user_request_response_inform_command_status
  inform-Owned success slot w u c s q v =
      quiet-WorldInv env bank laws takes w
        (user_request_response_inform_command_status env bank success slot u).1 (ap (posts env) c)
        (ap (sends env) c)
        (rw (s, q)
          (answered-Owned env bank laws takes (if success then codes "success" else codes "Failed")
            slot w w.node.server v))
