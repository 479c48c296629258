-- ===== src/Main/Life.antt =====
-- The life of the node: the start of main/home-node.c, and then any history of requests.
use gate_lock_home_node.Base.{
  ℕ, ◌≤◌, ◌≡◌, ◌≢◌, refl, ap, subst, sym, ◌∙◌, Bool, true, false, none, some, some_eq, List, [],
  arith, drop, if◌then◌else◌,
}
use gate_lock_home_node.Http.Types.{Bank, BankLaws, log_chunk_size, max_async_requests}
use gate_lock_home_node.Http.Async.Pools.{TakesWork}
use gate_lock_home_node.Node.Types.{Node}
use gate_lock_home_node.Node.Routine.{EventIds}
use gate_lock_home_node.Node.Requests.{World, Step, request_comes, step, run_from}
use gate_lock_home_node.Node.Requests.Owners.{WorldInv, taken, completed, has_queue}
use gate_lock_home_node.Node.Requests.Handing.{QueueTakes}
use gate_lock_home_node.Node.Requests.Work.{work_left}
use gate_lock_home_node.Node.Requests.Settle.{settling, requests_settle}
use gate_lock_home_node.Node.Requests.Full.{HasBlocks}
use gate_lock_home_node.Main.Types.{MainEnv, System}
use gate_lock_home_node.Main.App.{app_main}
use gate_lock_home_node.Main.Routes.{FreshServer, Opened}
use gate_lock_home_node.Main.Display.{Display}
use gate_lock_home_node.Main.Display.Laws.{DisplayLaws}
use gate_lock_home_node.Main.Boot.{AllWell}
use gate_lock_home_node.Main.Boot.Parts.{queue_after}
use gate_lock_home_node.Main.Boot.Stages.{app_main-Reaches}

-- No block of a pool that was just registered is handed out.
abbrev pub RegistersFree : {S : Type 0} → Bank S → Type 0
RegistersFree bank = (n i : ℕ) → bank.held (bank.register_pool n) i ≡ false

-- The node as the linker leaves it: the server is not started and has no URI, no work and no call,
-- there is
-- no queue of jobs, and a chunk holds no more than its array.
pub record FreshNode {S : Type 0} (w : Node S) : Type 0 where
  pub server : FreshServer w.server
  pub works : w.server.works ≡ []
  pub calls : w.server.calls ≡ []
  pub queue : w.delegate_queue ≡ none
  pub room : (c : ℕ) → drop log_chunk_size (w.server.chunk_objs c).text ≡ []

-- The node, with nothing taken by the parts outside.
abbrev pub opening : {S : Type 0} → Node S → World S
opening w = record { node = w; events = []; commands = []; sending = none }

module _ {S : Type 0} (env : MainEnv) (bank : Bank S) (new : RegistersFree bank) where
  Opened-WorldInv :
      (s w : Node S)
      → FreshNode s
      → Opened env.node.httpd bank s.server w.server
      → w.delegate_queue ≡ some []
      → WorldInv env.node bank (opening w)
  Opened-WorldInv s w f o q =
      let works = o.waiting ∙ f.works in
      record {
        slots = λ i. rw (q, works, o.slots, new _ i) (omega arith);
        requests = λ r.
            rw (q, works)
              (omega (
                arith,
                o.begun r ∙ ap (taken env.node.httpd r) f.calls,
                o.ended r ∙ ap (completed r) f.calls,
              ));
        known = tt;
        queued = ap has_queue q;
        pools = record {
          job_held = λ j. rw (works, o.jobs) (new _ j);
          chunk_held = λ c. rw (works, o.chunks) (new _ c);
          jobs_distinct = rw works tt;
          chunks_distinct = rw works tt;
          text_fits = λ c. rw o.texts (f.room c);
        };
        fed = rw works tt;
      }

  -- If all that the start calls on succeeds and the queue of jobs can be made, then from the node as
  -- the linker leaves it the idle loop of `app_main` is reached with every slot free and no request
  -- open.
  pub app_main-WorldInv :
      {display : Display}
      → (laws : DisplayLaws display) (s t : System S) → AllWell env
      → env.node.queue_created ≡ true
      → laws.Dark s.gui
      → FreshNode s.node
      → app_main env display bank s ≡ some (tt, t)
      → WorldInv env.node bank (opening t.node)
  app_main-WorldInv {display} laws s t well made d f h =
      let r =
        app_main-Reaches env well laws bank s.node.server f.server s.node.delegate_queue s d
          (refl, refl) in
      let (told, routed, up, opened, queue) = r.holds in
      let w = Opened-WorldInv s.node r.after.node f opened (
        queue
        ∙ ap (queue_after env.node) f.queue
        ∙ ap (λ (b : Bool). if b then some [] else none) made) in
      let same = ap (λ (p : Unit {0} × System S). p.1) (some_eq (sym r.back ∙ h)) in
      subst (λ (x : System S). WorldInv env.node bank (opening x.node)) same w

  -- If all that the start calls on succeeds and the queue of jobs can be made, with lawful pools
  -- whose blocks are free at first and that refuse a block only if all four are handed out, a server
  -- that takes every work and a queue that takes every job: once the node has started as the linker
  -- left it, and after any history of requests, events, acknowledgements and rounds of its tasks that
  -- ends neither in a write through NULL nor in a restart, as many further rounds as there is work
  -- left (in each the parts outside take their oldest work, and the log that is sent is at its end)
  -- run without either. Then every slot is free, every request was completed as often as it was taken, and the
  -- next request is taken or answered.
  pub node_settles :
      {display : Display}
      → (laws : DisplayLaws display) (blocks : BankLaws bank)
        (has : HasBlocks bank max_async_requests) (takes : TakesWork env.node.httpd)
        (queues : QueueTakes env.node) (ids : EventIds) (s t : System S) (ss : List Step)
        (u : World S) (success : Bool) (n i r req : ℕ)
      → AllWell env
      → env.node.queue_created ≡ true
      → laws.Dark s.gui
      → FreshNode s.node
      → app_main env display bank s ≡ some (tt, t)
      → run_from env.node bank ids (some (opening t.node)) ss ≡ some u
      → work_left u ≤ n
      → (v : World S) × (run_from env.node bank ids (some u) (settling success n) ≡ some v)
        × (bank.held v.node.server.async_bank i ≡ false)
        × (taken env.node.httpd r v.node.server.calls ≡ completed r v.node.server.calls)
        × (step env.node bank ids v (request_comes req) ≢ none)
  node_settles laws blocks has takes queues ids s t ss u success n i r req well made d f h k l =
      let inv = app_main-WorldInv laws s t well made d f h in
      requests_settle env.node bank ids blocks takes queues has ss (opening t.node) u success n i r
        req inv k l
