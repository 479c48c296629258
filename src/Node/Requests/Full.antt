-- ===== src/Node/Requests/Full.antt =====
-- When components/http-server/http_server.c cannot take a request: its write through NULL.
use gate_lock_home_node.Base.{
  ℕ, ◌+◌, ◌<◌, ◌≡◌, refl, ap, ◌∙◌, true, Option, none, some, List, [], bit, count,
}
use gate_lock_home_node.Http.Types.{Bank, BankLaws}
use gate_lock_home_node.Http.Async.Pools.{TakesWork}
use gate_lock_home_node.Http.Routes.{
  Handled, replied, call_back, null_write, master_request_handler,
}
use gate_lock_home_node.Http.Routes.Table.{master_request_handler-null_iff}
use gate_lock_home_node.Node.Types.{NodeEnv, Node}
use gate_lock_home_node.Node.Request.{handle_request, finish_handled}
use gate_lock_home_node.Node.Routine.{EventIds}
use gate_lock_home_node.Node.Requests.{World, Step, request_comes, step, run_from, delivered}
use gate_lock_home_node.Node.Requests.Owners.{WorldInv, owners, finishing}
use gate_lock_home_node.Node.Requests.Handing.{QueueTakes}
use gate_lock_home_node.Node.Requests.History.{run_from-WorldInv}

-- A pool of n blocks refuses one only if all are handed out.
abbrev pub HasBlocks : {S : Type 0} → Bank S → ℕ → Type 0
HasBlocks {S} bank n = (b : S) (i : ℕ) → (bank.alloc b).0 ≡ none → i < n → bank.held b i ≡ true

module _ {S : Type 0} (env : NodeEnv) (bank : Bank S) (ids : EventIds) where
  wrote_null : (h : Handled S) (w : Node S) → finish_handled env bank h w ≡ none → h ≡ null_write
  wrote_null (replied s) w e = cc
  wrote_null (call_back id slot uri s) w e = cc
  wrote_null null_write w e = refl

  no_slot :
      (req : ℕ) (o : Option (Node S)) (w : World S)
      → handle_request env bank req w.node ≡ o
      → delivered env w o ≡ none
      → (bank.alloc w.node.server.async_bank).0 ≡ none
  unfolding handle_request
  no_slot req none w h e =
      let wrote = wrote_null (master_request_handler env.httpd bank req w.node.server) w.node h in
      ((master_request_handler-null_iff env.httpd bank req w.node.server).0 wrote).1
  no_slot req (some t) w h e = cc

  pub refused_held :
      (n req i : ℕ) (w : World S)
      → HasBlocks bank n
      → step env bank ids w (request_comes req) ≡ none
      → i < n
      → bank.held w.node.server.async_bank i ≡ true
  refused_held n req i w has h l =
      has w.node.server.async_bank i (no_slot req (handle_request env bank req w.node) w refl h) l

  -- With lawful pools that refuse a block only if all n are handed out, a server that takes every
  -- work and a queue that takes every job: after any history from a state in which the slots are
  -- with their holders, a request makes the server write through NULL only if each of the n slots
  -- has exactly one holder that is still to complete or to finish an earlier request.
  pub request_refused :
      (laws : BankLaws bank) (takes : TakesWork env.httpd) (queues : QueueTakes env)
      (ss : List Step) (w t : World S) (n req i : ℕ)
      → HasBlocks bank n
      → WorldInv env bank w
      → run_from env bank ids (some w) ss ≡ some t
      → step env bank ids t (request_comes req) ≡ none
      → i < n
      → owners i [] t.events t.commands t.node.delegate_queue t.sending t.node.server.works
          + count i (finishing t.node.server.works)
        ≡ 1
  request_refused laws takes queues ss w t n req i has v h e l =
      let inv = run_from-WorldInv env bank ids laws takes queues ss w t h v in
      inv.slots i ∙ ap bit (refused_held n req i t has e l)
