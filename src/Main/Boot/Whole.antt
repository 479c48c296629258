-- ===== src/Main/Boot/Whole.antt =====
-- What `app_main` of main/home-node.c has started and shown when it idles.
use gate_lock_home_node.Base.{
  ℕ, ◌+◌, ◌*◌, ◌≤◌, ◌≡◌, refl, ap, ◌∙◌, true, Option, some, List, [], ◌∷◌, ◌++◌, map, arith, length,
  flat_map, append-nil,
}
use gate_lock_home_node.Http.Types.{Bank}
use gate_lock_home_node.Http.Routes.{http_server_get_interface}
use gate_lock_home_node.Gui.Types.{Gui, GuiEnv, GuiEvent, OpInfo}
use gate_lock_home_node.Gui.Op.View.{Shown, shown, view, event_effect, op_effect}
use gate_lock_home_node.Main.Types.{MainEnv, System}
use gate_lock_home_node.Main.App.{app_main}
use gate_lock_home_node.Main.Routes.{FreshServer}
use gate_lock_home_node.Gui.Types.{Child}
use gate_lock_home_node.Gui.Op.{op_calls}
use gate_lock_home_node.Gui.Op.Moves.{AlwaysLocks}
use gate_lock_home_node.Gui.Op.Steps.{settle, weight, op_weight}
use gate_lock_home_node.Gui.Op.Settle.{gui_settles}
use gate_lock_home_node.Http.Routes.{find_uri}
use gate_lock_home_node.Http.Routes.Table.{table}
use gate_lock_home_node.Main.Endpoints.{callback_of, route}
use gate_lock_home_node.Gui.Lcd.{LcdController}
use gate_lock_home_node.Gui.Lcd.Ready.{Works}
use gate_lock_home_node.Main.Display.{lcd_display, no_display}
use gate_lock_home_node.Main.Display.Laws.{
  Told, Dark, lcd_display-DisplayLaws, no_display-DisplayLaws,
}
use gate_lock_home_node.Main.Boot.{AllWell}
use gate_lock_home_node.Main.Boot.Stages.{boot_events, app_main-Reaches}

abbrev events_of : List OpInfo → List GuiEvent
events_of ops = map (λ (op : OpInfo). op.event) ops

abbrev event_weight : List GuiEvent → ℕ
event_weight [] = 0
event_weight (e ∷ es) = 1 + 2 * length (op_calls e) + event_weight es

op_weight_lem : (ops : List OpInfo) → op_weight ops ≡ event_weight (events_of ops)
op_weight_lem [] = refl
op_weight_lem (op ∷ ops) =
    ap (λ (n : ℕ). 1 + 2 * length (op_calls op.event) + n) (op_weight_lem ops)

effects_lem :
    (children : List Child) (screen : Option ℕ) (ops : List OpInfo)
    → flat_map (op_effect children screen) ops
      ≡ flat_map (event_effect children screen) (events_of ops)
effects_lem children screen [] = refl
effects_lem children screen (op ∷ ops) =
    ap (λ (xs : List Shown). event_effect children screen op.event ++ xs)
      (effects_lem children screen ops)

-- The display shows, once its tasks have run, just what it was told.
Told-settles :
    (env : GuiEnv) (stack : List ℕ) (events : List GuiEvent) (g : Gui) (n : ℕ)
    → AlwaysLocks env
    → Told events g
    → event_weight events ≤ n
    → shown (settle env stack n g).calls ≡ flat_map (event_effect g.children g.lv_screen) events
Told-settles env stack events g n locks b h =
    let w : weight g ≡ event_weight events =
      rw (b.idle, b.still, b.queued)
        (omega (arith, op_weight_lem b.ops ∙ ap event_weight b.told)) in
    gui_settles env locks stack [] g n (rw b.idle refl) (omega (arith, w))
    ∙ append-nil (view g)
    ∙ rw (b.idle, b.still, b.queued, b.quiet)
        (effects_lem g.children g.lv_screen b.ops
          ∙ ap (flat_map (event_effect g.children g.lv_screen)) b.told)

-- The server is up, and a URI is routed by the endpoints.
abbrev pub Serves : {S : Type 0} → List ℕ → System S → Type 0
Serves u t =
    (http_server_get_interface t.node.server ≡ true)
    × (callback_of (find_uri u (table t.node.server)) ≡ route u)

-- If all that the start calls on succeeds (wifi calls back within the tests of the wait, there is a
-- peer registry, the gate is discovered, and the display's drivers, queues and tasks work), then from a display and a server
-- as the linker leaves them `app_main` reaches its idle loop, with a display and without one. There
-- the server is up, and every URI is routed to the handler of its endpoint and any other to none.
-- With a display, once its two tasks have run 18 rounds with the lock of LVGL obtained, it has shown
-- just what the four events of the start promise, in their order.
pub app_main-Serves :
    {S : Type 0}
    → (env : MainEnv) (gui : GuiEnv) (controller : LcdController) (bank : Bank S) (s : System S)
      (u stack : List ℕ)
    → AllWell env
    → Works gui
    → AlwaysLocks gui
    → Dark s.gui
    → FreshServer s.node.server
    → (t : System S) × (v : System S) × (app_main env (lcd_display gui controller) bank s
        ≡ some (tt, t))
      × (app_main env no_display bank s ≡ some (tt, v))
      × (Serves u t)
      × (Serves u v)
      × (shown (settle gui stack 18 t.gui).calls
          ≡ flat_map (event_effect t.gui.children t.gui.lv_screen) boot_events)
unfolding op_calls lcd_display-DisplayLaws no_display-DisplayLaws
app_main-Serves env gui controller bank s u stack well works locks d f =
    let r =
      app_main-Reaches env well (lcd_display-DisplayLaws gui works controller) bank s.node.server f
        s.node.delegate_queue s d (refl, refl) in
    let q =
      app_main-Reaches env well no_display-DisplayLaws bank s.node.server f s.node.delegate_queue s
        tt (refl, refl) in
    let (told, routed, up, _, _) = r.holds in
    let (lit, served, ready, _, _) = q.holds in
    (
      r.after,
      q.after,
      r.back,
      q.back,
      (up, routed u),
      (ready, served u),
      Told-settles gui stack boot_events r.after.gui 18 locks told (omega arith),
    )
