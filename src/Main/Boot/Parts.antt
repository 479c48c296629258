-- ===== src/Main/Boot/Parts.antt =====
-- The parts of the node that main/home-node.c starts: the display, the delegate task, the endpoints,
-- the answers and the update service.
use gate_lock_home_node.Base.{
  ◌<◌, ◌≡◌, refl, ap, subst, sym, ◌∙◌, Option-cases, inl, inr, if◌then◌else◌, Bool, true, Option,
  none, some, List, [], ◌∷◌, ◌++◌, arith, EspErr, esp_ok, length,
}
use gate_lock_home_node.Http.Types.{Bank, Server}
use gate_lock_home_node.Http.Routes.{http_server_get_interface}
use gate_lock_home_node.Gui.Types.{Gui, GuiEvent, gui_op_queue_length}
use gate_lock_home_node.Node.Types.{Node, NodeEnv, DelegateJob}
use gate_lock_home_node.Node.Request.{user_request_create}
use gate_lock_home_node.Node.Output.{user_request_response_create}
use gate_lock_home_node.Node.Routine.{routine_handler_init, init_task}
use gate_lock_home_node.Main.Types.{MainEnv, System}
use gate_lock_home_node.Main.Start.{on_gui, on_node, put_gui, put_node, inform, deref}
use gate_lock_home_node.Main.App.{request_config, use_interface, start_updates}
use gate_lock_home_node.Main.Routes.{FreshServer, IsRouted, Opened, create-Routed}
use gate_lock_home_node.Main.Display.{Display}
use gate_lock_home_node.Main.Display.Laws.{DisplayLaws}
use gate_lock_home_node.Main.Boot.{AllWell, Carried, Booting, Serving, Reaches}

-- A step of the display, for any display.
put_gui-Reaches :
    {S A : Type 0}
    → (f : Gui → Option (A × Gui)) (s : System S) (a : A) (g : Gui) (P : Gui → Node S → Type 0)
    → f s.gui ≡ some (a, g)
    → P g s.node
    → Reaches (on_gui f) s P
put_gui-Reaches {S} {A} f s a g P e p = record {
  value = tt;
  after = record s { gui = g };
  back = ap (λ (o : Option (A × Gui)). put_gui o s) e;
  holds = p;
}

module _ {S : Type 0} {display : Display} (laws : DisplayLaws display) (v : Server S)
    (q : Option (List DelegateJob)) where
  pub start_lcd-Reaches :
      (s : System S)
      → laws.Dark s.gui × Carried v q s.node
      → Reaches (on_gui display.start_lcd) s (λ g w. laws.Lit g × Carried v q w)
  start_lcd-Reaches s (d, f) =
      let (g, e, lit) = laws.lights s.gui d in
      put_gui-Reaches display.start_lcd s esp_ok g (λ g w. laws.Lit g × Carried v q w) e (lit, f)

  pub start_op-Reaches :
      (s : System S)
      → laws.Lit s.gui × Carried v q s.node
      → Reaches (on_gui display.start_op) s (Booting laws v q [])
  start_op-Reaches s (d, f) =
      let (g, e, told) = laws.starts s.gui d in
      put_gui-Reaches display.start_op s esp_ok g (Booting laws v q []) e (told, f)

  pub inform-Reaches :
      (e : GuiEvent) (events : List GuiEvent) (s : System S)
      → length events < gui_op_queue_length
      → Booting laws v q events s.gui s.node
      → Reaches (inform display e) s (Booting laws v q (events ++ e ∷ []))
  inform-Reaches e events s room (b, f) =
      let (g, h, told) = laws.takes e events s.gui room b in
      put_gui-Reaches (display.inform e none) s esp_ok g (Booting laws v q (events ++ e ∷ [])) h
        (told, f)

  pub use_interface-Reaches :
      (s : System S) (events : List GuiEvent)
      → Booting laws v q events s.gui s.node
      → Reaches (use_interface display) s (Booting laws v q events)
  use_interface-Reaches s events (b, f) = record {
    value = tt;
    after = s;
    back = ap (λ (x : Bool). deref x s) (laws.is_up events s.gui b);
    holds = (b, f);
  }

-- The queue after `routine_handler_init`.
abbrev pub queue_after : NodeEnv → Option (List DelegateJob) → Option (List DelegateJob)
queue_after env none = if env.queue_created then some [] else none
queue_after env (some jobs) = some jobs

module _ {S : Type 0} (env : MainEnv) (well : AllWell env) (bank : Bank S) {display : Display}
    (laws : DisplayLaws display) (v : Server S) where
  routine_handler_init_lem :
      (w : Node S)
      → ((routine_handler_init env.node bank w).1.server ≡ w.server)
        × ((routine_handler_init env.node bank w).1.delegate_queue
            ≡ queue_after env.node w.delegate_queue)
  unfolding routine_handler_init init_task
  routine_handler_init_lem w = elim (Option-cases w.delegate_queue) [
    | inl e ↦ ground (arith, e)
    | inr (jobs, e) ↦ ground (arith, e)
  ]

  pub routine_handler_init-Reaches :
      (q : Option (List DelegateJob)) (events : List GuiEvent) (s : System S)
      → Booting laws v q events s.gui s.node
      → Reaches
          (on_node (λ w. some (routine_handler_init env.node bank w)))
          s
          (Booting laws v (queue_after env.node q) events)
  routine_handler_init-Reaches q events s (b, (h, e)) = record {
    value = tt;
    after = record s { node = (routine_handler_init env.node bank s.node).1 };
    back = refl;
    holds = (
      b,
      (
        (routine_handler_init_lem s.node).0 ∙ h,
        (routine_handler_init_lem s.node).1 ∙ ap (queue_after env.node) e,
      ),
    );
  }

  pub user_request_create-Reaches :
      (q : Option (List DelegateJob)) (events : List GuiEvent) (s : System S)
      → FreshServer v
      → Booting laws v q events s.gui s.node
      → Reaches
          (on_node (user_request_create env.node bank (some request_config)))
          s
          (Serving laws env.node.httpd bank v q events)
  user_request_create-Reaches q events s f (b, (h, e)) =
      let (w, made, routed, up, ota, opened, queue) =
        create-Routed env.node bank s.node (subst FreshServer (sym h) f) well.serves in
      record {
        value = tt;
        after = record s { node = w };
        back = ap (λ (o : Option (EspErr × Node S)). put_node o s) made;
        holds = (
          b,
          routed,
          up,
          subst (λ (u : Server S). Opened env.node.httpd bank u w.server) h opened,
          queue ∙ e,
        );
      }

  user_request_response_create_lem :
      (w : Node S)
      → http_server_get_interface w.server ≡ true
      → ((user_request_response_create env.node bank w).1.server ≡ w.server)
        × ((user_request_response_create env.node bank w).1.delegate_queue ≡ w.delegate_queue)
  unfolding user_request_response_create
  user_request_response_create_lem w up = rw up (refl, refl)

  pub user_request_response_create-Reaches :
      (q : Option (List DelegateJob)) (events : List GuiEvent) (s : System S)
      → Serving laws env.node.httpd bank v q events s.gui s.node
      → Reaches
          (on_node (λ w. some (user_request_response_create env.node bank w)))
          s
          (Serving laws env.node.httpd bank v q events)
  user_request_response_create-Reaches q events s (b, routed, up, opened, e) =
      let (server, queue) = user_request_response_create_lem s.node up in
      record {
        value = tt;
        after = record s { node = (user_request_response_create env.node bank s.node).1 };
        back = refl;
        holds = (
          b,
          subst IsRouted (sym server) routed,
          ap http_server_get_interface server ∙ up,
          subst (Opened env.node.httpd bank v) (sym server) opened,
          queue ∙ e,
        );
      }

  pub start_updates-Reaches :
      (q : Option (List DelegateJob)) (events : List GuiEvent) (s : System S)
      → Serving laws env.node.httpd bank v q events s.gui s.node
      → Reaches
          (on_node (λ w. some (start_updates env w)))
          s
          (Serving laws env.node.httpd bank v q events)
  start_updates-Reaches q events s h = record {
    value = tt;
    after = record s { node = (start_updates env s.node).1 };
    back = refl;
    holds = h;
  }
