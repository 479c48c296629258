-- ===== src/Main/Display/Laws.antt =====
-- What main/home-node.c relies on in its display, and that each display has it.
use gate_lock_home_node.Base.{
  ◌<◌, ◌≡◌, refl, ap, sym, ◌∙◌, true, none, some, List, [], ◌∷◌, ◌++◌, map, arith, esp_ok, length,
  length-map, map-append, ltb, lt→ltb,
}
use gate_lock_home_node.Gui.Types.{
  Gui, GuiEnv, GuiEvent, OpInfo, gui_op_queue_length, queue_create, task_create, made,
}
use gate_lock_home_node.Gui.Lcd.{LcdController, lcd_init}
use gate_lock_home_node.Gui.Lcd.Ready.{Works, lcd_init-Ready, lcd_init-total}
use gate_lock_home_node.Gui.Op.{gui_op_init, gui_op_get_interface, gui_inform, event_data}
use gate_lock_home_node.Gui.Op.View.{shown}
use gate_lock_home_node.Gui.Dummy.{dummy_lcd_init, dummy_op_init, dummy_get_interface, dummy_inform}
use gate_lock_home_node.Main.Display.{Display, lcd_display, no_display}

-- A display that starts from the states `Dark`, and takes as many events as its queue has places.
pub record DisplayLaws (display : Display) : Type 1 where
  pub Dark : Gui → Type 0
  pub Lit : Gui → Type 0
  pub Informed : List GuiEvent → Gui → Type 0
  pub lights : (g : Gui) → Dark g → (t : Gui) × (display.start_lcd g ≡ some (esp_ok, t)) × Lit t
  pub starts :
      (g : Gui) → Lit g → (t : Gui) × (display.start_op g ≡ some (esp_ok, t)) × Informed [] t
  pub is_up : (es : List GuiEvent) (g : Gui) → Informed es g → display.interface g ≡ true
  pub takes :
      (e : GuiEvent) (es : List GuiEvent) (g : Gui)
      → length es < gui_op_queue_length
      → Informed es g
      → (t : Gui) × (display.inform e none g ≡ some (esp_ok, t)) × Informed (es ++ e ∷ []) t

-- What the display was told: the events wait, and nothing is shown yet.
pub record Told (events : List GuiEvent) (g : Gui) : Type 0 where
  pub ops : List OpInfo
  pub queued : g.gui_op_queue ≡ some ops
  pub told : map (λ (op : OpInfo). op.event) ops ≡ events
  pub idle : g.notify_queue ≡ some []
  pub still : g.pending ≡ []
  pub ready : g.init ≡ true
  pub quiet : shown g.calls ≡ []

-- The display as the linker leaves it.
pub record Dark (g : Gui) : Type 0 where
  pub still : g.pending ≡ []
  pub quiet : shown g.calls ≡ []

length_told :
    (ops : List OpInfo) (events : List GuiEvent)
    → map (λ (op : OpInfo). op.event) ops ≡ events
    → length ops ≡ length events
length_told ops events h = sym (length-map (λ (op : OpInfo). op.event) ops) ∙ ap length h

pub inform_lem :
    (e : GuiEvent) (events : List GuiEvent) (g : Gui)
    → length events < gui_op_queue_length
    → Told events g
    → (t : Gui) × (gui_inform e none g ≡ some (esp_ok, t)) × Told (events ++ e ∷ []) t
unfolding gui_inform
inform_lem e events g room b =
    let op : OpInfo = record { event = e; evt_data = event_data none } in
    let left : ltb (length b.ops) gui_op_queue_length ≡ true =
      lt→ltb (length b.ops) gui_op_queue_length (omega (arith, length_told b.ops events b.told)) in
    (
      record g { gui_op_queue = some (b.ops ++ op ∷ []) },
      rw (b.queued, left) refl,
      record {
        ops = b.ops ++ op ∷ [];
        queued = refl;
        told =
            map-append (λ (o : OpInfo). o.event) b.ops (op ∷ [])
            ∙ ap (λ (es : List GuiEvent). es ++ e ∷ []) b.told;
        idle = b.idle;
        still = b.still;
        ready = b.ready;
        quiet = b.quiet;
      },
    )

-- The screen is there, and nothing is shown or queued.
abbrev pub Idle : Gui → Type 0
Idle g = (g.notify_queue ≡ some []) × (g.pending ≡ []) × (shown g.calls ≡ [])

module _ (env : GuiEnv) (works : Works env) where
  pub lcd_init_lem :
      (controller : LcdController) (g : Gui)
      → Dark g
      → (t : Gui) × (lcd_init env controller g ≡ some (esp_ok, t)) × Idle t
  lcd_init_lem controller g d =
      let (t, e) = lcd_init-total env controller g works in
      let ready = (lcd_init-Ready env controller g t esp_ok e).1 in
      (t, e, (ready.queue, ready.pending ∙ d.still, ready.quiet ∙ d.quiet))

  pub gui_op_init_lem :
      (g : Gui) → Idle g → (t : Gui) × (gui_op_init env g ≡ some (esp_ok, t)) × Told [] t
  unfolding gui_op_init shown
  gui_op_init_lem g (n, p, q) =
      let u : Gui = record (made queue_create g) { gui_op_queue = some [] } in
      (
        record (made task_create u) { init = true },
        rw (works.queue g.calls, works.task u.calls) refl,
        record {
          ops = [];
          queued = refl;
          told = refl;
          idle = n;
          still = p;
          ready = refl;
          quiet = q;
        },
      )

  unfoldable pub lcd_display-DisplayLaws :
      (controller : LcdController) → DisplayLaws (lcd_display env controller)
  unfolding gui_op_get_interface
  lcd_display-DisplayLaws controller = record {
    Dark = Dark;
    Lit = Idle;
    Informed = Told;
    lights = lcd_init_lem controller;
    starts = gui_op_init_lem;
    is_up = λ es g b. b.ready;
    takes = inform_lem;
  }

unfoldable pub no_display-DisplayLaws : DisplayLaws no_display
unfolding dummy_lcd_init dummy_op_init dummy_get_interface dummy_inform
no_display-DisplayLaws = record {
  Dark = λ g. Unit {0};
  Lit = λ g. Unit {0};
  Informed = λ es g. g.init ≡ true;
  lights = λ g d. (g, refl, tt);
  starts = λ g l. (record g { init = true }, refl, refl);
  is_up = λ es g up. up;
  takes = λ e es g room up. (g, refl, up);
}
