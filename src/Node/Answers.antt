-- ===== src/Node/Answers.antt =====
-- How a request that came to its handler (components/user-request/user_request.c) is answered by
-- the routine handlers (main/routine_event_handler.c).
use gate_lock_home_node.Base.{
  ℕ, ◌+◌, bit, ◌≡◌, refl, Bool, true, false, Bool-cases, inl, inr, eq_refl, Option, none, some,
  List, [], ◌∷◌, ◌==◌, ◌++◌, append_assoc, is_ok, codes, cstr, if◌then◌else◌,
}
use gate_lock_home_node.Http.Types.{Server, Bank, BankLaws}
use gate_lock_home_node.Http.Respond.{http_server_send_response}
use gate_lock_home_node.Http.Async.{http_server_close_async_connection}
use gate_lock_home_node.Http.Async.Messages.{wire}
use gate_lock_home_node.Node.Types.{
  Node, NodeEnv, Command, open_lock, close_lock, lock_status, post_event, event_gate_open,
  event_gate_close, event_gate_status,
}
use gate_lock_home_node.Node.Output.{respond_and_close, user_request_response_inform_command_status}
use gate_lock_home_node.Node.Request.{post_request}
use gate_lock_home_node.Node.Requests.Owners.{completed}
use gate_lock_home_node.Node.Routine.{
  EventIds, user_request_event, message_codec_event, routine_event_handler, command_gate,
}

module _ {S : Type 0} (env : NodeEnv) (bank : Bank S) where
  -- The chunks of a plain response: the URI, a colon, the text and the end.
  abbrev pub response : Server S → ℕ → List ℕ → List (ℕ × Option (List ℕ))
  response s slot text =
      let r : ℕ = (s.async_objs slot).req in
      (r, some (cstr (env.httpd.uri_of r)))
      ∷ (r, some (codes ": "))
      ∷ (r, some text)
      ∷ (r, none)
      ∷ []

  -- A request is answered with a text: the response is the next thing on the wire, the request in
  -- the slot is completed once more and no other is, and the slot is free again.
  pub record Answered (slot : ℕ) (text : List ℕ) (s t : Server S) : Type 0 where
    pub sent : wire t.calls ≡ wire s.calls ++ response s slot text
    pub slots :
        (i : ℕ) → bank.held t.async_bank i ≡ (if i == slot then false else bank.held s.async_bank i)
    pub works : t.works ≡ s.works
    pub finished :
        (r : ℕ) → completed r t.calls ≡ bit (r == (s.async_objs slot).req) + completed r s.calls

abbrev pub gate_event : Command → ℕ
gate_event open_lock = event_gate_open
gate_event close_lock = event_gate_close
gate_event lock_status = event_gate_status

module _ {S : Type 0} (env : NodeEnv) (bank : Bank S) (ids : EventIds) where
  abbrev pub is_posted : Command → ℕ → Node S → Bool
  is_posted c slot w = is_ok (env.posted w.calls (gate_event c) slot)

  abbrev pub is_sent : Command → ℕ → Node S → Bool
  is_sent c slot w = is_ok (env.sent (post_event (gate_event c) slot ∷ w.calls) c slot)

  -- The life of a gate request from its handler on: an event that is posted reaches the routine
  -- handler, and a command that is taken is acknowledged with `success`.
  pub gate_request : Command → ℕ → Bool → Node S → Node S
  gate_request c slot success w =
      let posted : Node S = post_request env bank (gate_event c) slot w in
      let handled : Node S =
        routine_event_handler env bank ids (user_request_event (gate_event c) slot) posted in
      let acknowledged : Node S =
        routine_event_handler env bank ids (message_codec_event ids.send_status success slot)
          handled in
      if is_posted c slot w then (if is_sent c slot w then acknowledged else handled) else posted

  -- The text that the request is answered with.
  abbrev pub answer_text : Command → ℕ → Bool → Node S → List ℕ
  answer_text c slot success w =
      if is_posted c slot w
      then (if is_sent c slot w
          then (if success then cstr (codes "success") else cstr (codes "Failed"))
          else cstr (codes "Failed"))
      else cstr (codes "failure")

module _ {S : Type 0} (env : NodeEnv) (bank : Bank S) (laws : BankLaws bank) where
  respond_and_close-Answered :
      (body : List ℕ) (slot : ℕ) (s : Server S)
      → Answered env bank slot (cstr body) s (respond_and_close env bank body slot s)
  unfolding respond_and_close http_server_send_response http_server_close_async_connection
  respond_and_close-Answered body slot s = record {
    sent = simp append_assoc;
    slots = λ i. laws.free_held s.async_bank slot i;
    works = refl;
    finished = λ r. refl;
  }

  routine-command_gate :
      (ids : EventIds) (c : Command) (slot : ℕ) (w : Node S)
      → routine_event_handler env bank ids (user_request_event (gate_event c) slot) w
        ≡ command_gate env bank c slot w
  unfolding routine_event_handler
  routine-command_gate ids open_lock slot w = refl
  routine-command_gate ids close_lock slot w = refl
  routine-command_gate ids lock_status slot w = refl

  routine-acknowledged :
      (ids : EventIds) (slot : ℕ) (success : Bool) (w : Node S)
      → Answered env bank slot
          (if success then cstr (codes "success") else cstr (codes "Failed"))
          w.server
          (routine_event_handler env bank ids
            (message_codec_event ids.send_status success slot)
            w).server
  unfolding routine_event_handler user_request_response_inform_command_status
  routine-acknowledged ids slot true w =
      rw eq_refl (respond_and_close-Answered (codes "success") slot w.server)
  routine-acknowledged ids slot false w =
      rw eq_refl (respond_and_close-Answered (codes "Failed") slot w.server)

  -- With a pool of slots that obeys the laws of the bank: a gate request is answered exactly once,
  -- whichever call fails on the way: "failure" if its event is not posted, "Failed" if the codec
  -- does not take the command, and else "success" or "Failed" by the acknowledgement. It is
  -- then completed, once, and no other request is; its slot is free, and no other has changed hands.
  pub gate_request-Answered :
      (ids : EventIds) (c : Command) (slot : ℕ) (success : Bool) (w : Node S)
      → Answered env bank slot
          (answer_text env bank ids c slot success w)
          w.server
          (gate_request env bank ids c slot success w).server
  unfolding gate_request post_request command_gate user_request_response_inform_command_status
  gate_request-Answered ids c slot success w = elim (Bool-cases (is_posted env bank ids c slot w)) [
    | inr unposted ↦ rw unposted (respond_and_close-Answered (codes "failure") slot w.server)
    | inl posted ↦ elim (Bool-cases (is_sent env bank ids c slot w)) [
      | inr unsent ↦
          rw (posted, unsent, routine-command_gate, unsent)
            (respond_and_close-Answered (codes "Failed") slot w.server)
      | inl sent ↦
          rw (posted, sent, routine-command_gate, sent) (routine-acknowledged ids slot success _)
    ]
  ]
