-- ===== src/Gui/Lcd/Ready.antt =====
-- What components/gui-component/src/lcd_device.c leaves behind: a worker and a screen with objects.
use gate_lock_home_node.Base.{
  ℕ, ◌≡◌, ◌*◌, refl, ap, subst, some_eq, sym, ◌∙◌, true, Option-cases, inl, inr, Option, none, some,
  List, [], ◌∷◌, ◌++◌, arith, append_assoc, EspErr, esp_ok, is_ok,
}
use gate_lock_home_node.Gui.Types.{
  Gui, GuiEnv, NotifyMsg, Call, Child, ChildType, ui_child_icon, ui_child_label, ui_child_bar,
  lv_obj_create, queue_create, task_create, made, lvgl_port_init, lvgl_port_add_disp,
}
use gate_lock_home_node.Gui.Worker.{ui_worker_init}
use gate_lock_home_node.Gui.Home.{init_children, create_call, place_calls, ui_home_init}
use gate_lock_home_node.Gui.Op.View.{shown}
use gate_lock_home_node.Gui.Lcd.{
  LcdController, ssd1306, sh1107, check_calls, checked_calls, start_ui, show_home, lcd_init,
  lcd_h_res, lcd_v_res,
}

module _ (env : GuiEnv) (screen : Option ℕ) where
  -- LVGL was asked for an object of the child's type on the screen, and its answer is the child's.
  pub record Created (calls : List Call) (c : Child) : Type 0 where
    pub before : List Call
    pub since : List Call
    pub asked : calls ≡ since ++ create_call screen c.type ∷ before
    pub answered : c.lv_obj ≡ env.created before

  abbrev pub AllCreated : List Call → List Child → Type 0
  AllCreated calls [] = Unit {0}
  AllCreated calls (c ∷ cs) = Created calls c × AllCreated calls cs

-- A child but for its object.
abbrev pub without_object : Child → Child
without_object c = record c { lv_obj = none }

abbrev pub SamePlaces : List Child → List Child → Type 0
SamePlaces [] [] = Unit {0}
SamePlaces (c ∷ cs) (d ∷ ds) = (without_object d ≡ without_object c) × SamePlaces cs ds
SamePlaces [] (d ∷ ds) = ⊥
SamePlaces (c ∷ cs) [] = ⊥

module _ (env : GuiEnv) (screen : Option ℕ) where
  place_calls-shown :
      (type : ChildType) (obj : Option ℕ) (c : Child) (calls : List Call)
      → shown (place_calls type obj c ++ (create_call screen type ∷ calls)) ≡ shown calls
  unfolding shown
  place_calls-shown ui_child_label obj c calls = refl
  place_calls-shown ui_child_icon obj c calls = refl
  place_calls-shown ui_child_bar obj c calls = refl

  init_children-Created :
      (cs : List Child) (calls : List Call)
      → let (ds, after) = init_children env screen cs calls in
        (AllCreated env screen after ds × SamePlaces cs ds)
        × ((since : List Call) × (after ≡ since ++ calls))
        × (shown after ≡ shown calls)
  unfolding init_children shown
  init_children-Created [] calls = ((tt, tt), ([], refl), refl)
  init_children-Created (c ∷ cs) calls =
      let obj : Option ℕ = env.created calls in
      let placed : List Call = place_calls c.type obj c in
      let asked : List Call = create_call screen c.type ∷ calls in
      let ((made_all, same), (since, e), quiet) = init_children-Created cs (placed ++ asked) in
      (
        (
          (
            record {
              before = calls;
              since = since ++ placed;
              asked = e ∙ sym (append_assoc since placed asked);
              answered = refl;
            },
            made_all,
          ),
          (refl, same),
        ),
        (
          since ++ (placed ++ create_call screen c.type ∷ []),
          e
              ∙ sym (
                  append_assoc since (placed ++ create_call screen c.type ∷ []) calls
                  ∙ ap (λ (xs : List Call). since ++ xs)
                      (append_assoc placed (create_call screen c.type ∷ []) calls)),
        ),
        quiet ∙ place_calls-shown c.type obj c calls,
      )

-- Every driver call succeeds, and the queue and the task of the worker are made.
pub record Works (env : GuiEnv) : Type 0 where
  pub driven : (cs : List Call) (c : Call) → is_ok (env.driver_result cs c) ≡ true
  pub queue : (cs : List Call) → env.queue_created cs ≡ true
  pub task : (cs : List Call) → env.task_created cs ≡ true

-- What the start of the display leaves: an empty queue of messages, the objects of the children,
-- and nothing shown or changed besides.
pub record Ready (env : GuiEnv) (g t : Gui) : Type 0 where
  pub queue : t.notify_queue ≡ some []
  pub created : AllCreated env t.lv_screen t.calls t.children
  pub places : SamePlaces g.children t.children
  pub quiet : shown t.calls ≡ shown g.calls
  pub pending : t.pending ≡ g.pending
  pub ops : t.gui_op_queue ≡ g.gui_op_queue

check_calls-shown :
    (controller : LcdController) (env : GuiEnv) (g t : Gui)
    → check_calls env (checked_calls controller) g ≡ some t
    → (shown t.calls ≡ shown g.calls) × (t ≡ record g { calls = t.calls })
unfolding check_calls checked_calls shown
check_calls-shown (ssd1306 height) env g t h = ground arith
check_calls-shown sh1107 env g t h = ground arith

ui_worker_init_lem :
    (env : GuiEnv) (g t : Gui)
    → ui_worker_init env g ≡ some t
    → (shown t.calls ≡ shown g.calls) × (t ≡ record g { calls = t.calls; notify_queue = some [] })
unfolding ui_worker_init shown
ui_worker_init_lem env g t h = ground arith

ui_home_init-Ready :
    (env : GuiEnv) (g : Gui) → g.notify_queue ≡ some [] → Ready env g (ui_home_init env g)
unfolding ui_home_init shown
ui_home_init-Ready env g e =
    let screen : Option ℕ = env.created g.calls in
    let ((made_all, same), since, quiet) =
      init_children-Created env screen g.children (lv_obj_create ∷ g.calls) in
    record {
      queue = e;
      created = made_all;
      places = same;
      quiet = quiet;
      pending = refl;
      ops = refl;
    }

Ready-onto :
    (env : GuiEnv) (g u t : Gui) (q : Option (List NotifyMsg))
    → shown u.calls ≡ shown g.calls
    → u ≡ record g { calls = u.calls; notify_queue = q }
    → Ready env u t
    → Ready env g t
Ready-onto env g u t q quiet same r = record {
  queue = r.queue;
  created = r.created;
  places = subst (λ (v : Gui). SamePlaces v.children t.children) same r.places;
  quiet = r.quiet ∙ quiet;
  pending = r.pending ∙ ap (λ (v : Gui). v.pending) same;
  ops = r.ops ∙ ap (λ (v : Gui). v.gui_op_queue) same;
}

display_on : GuiEnv → LcdController → Gui → Gui
display_on env controller g =
    let h : ℕ = lcd_h_res controller in
    let v : ℕ = lcd_v_res controller in
    made (lvgl_port_add_disp (h * v) h v) (made lvgl_port_init g)

start_ui-Ready :
    (env : GuiEnv) (controller : LcdController) (g t : Gui) (r : EspErr) (o : Option Gui)
    → ui_worker_init env (display_on env controller g) ≡ o
    → start_ui env controller (some g) ≡ some (r, t)
    → (r ≡ esp_ok) × Ready env g t
unfolding shown display_on
start_ui-Ready env controller g t r none e h = absurd (ground arith)
start_ui-Ready env controller g t r (some u) e h =
    let (quiet, same) = ui_worker_init_lem env (display_on env controller g) u e in
    let ended : ◌≡◌ {A = Option (EspErr × Gui)} (some (esp_ok, ui_home_init env u)) (some (r, t)) =
      ground arith in
    let left = ap (λ (x : EspErr × Gui). x.1) (some_eq ended) in
    (
      ap (λ (x : EspErr × Gui). x.0) (sym (some_eq ended)),
      Ready-onto env g u t (some []) quiet same (
          subst (Ready env u) left
            (ui_home_init-Ready env u (ap (λ (v : Gui). v.notify_queue) same))),
    )

-- The start of the display, where it comes back, answers ESP_OK, and leaves an empty queue of
-- messages and a screen on which LVGL was asked for an object of each child's type, which is the
-- child's; the places of the children are those of before, and nothing besides is shown or queued.
pub lcd_init-Ready :
    (env : GuiEnv) (controller : LcdController) (g t : Gui) (r : EspErr)
    → lcd_init env controller g ≡ some (r, t)
    → (r ≡ esp_ok) × Ready env g t
unfolding lcd_init
lcd_init-Ready env controller g t r h =
    elim (Option-cases (check_calls env (checked_calls controller) g)) [
      | inl e ↦ absurd (ground arith)
      | inr (u, e) ↦
          let (quiet, same) = check_calls-shown controller env g u e in
          let (ok, ready) =
            start_ui-Ready env controller u t r (ui_worker_init env (display_on env controller u))
              refl (ap (start_ui env controller) (sym e) ∙ h) in
          (ok, Ready-onto env g u t g.notify_queue quiet same ready)
    ]

check_calls-total :
    (env : GuiEnv) (cs : List Call) (g : Gui)
    → Works env
    → (t : Gui) × (check_calls env cs g ≡ some t)
unfolding check_calls
check_calls-total env [] g w = (g, refl)
check_calls-total env (c ∷ cs) g w = rw (w.driven g.calls c) (check_calls-total env cs (made c g) w)

ui_worker_init-total :
    (env : GuiEnv) (g : Gui) → Works env → (t : Gui) × (ui_worker_init env g ≡ some t)
unfolding ui_worker_init
ui_worker_init-total env g w =
    let t : Gui = made queue_create g in
    (
      made task_create (record t { notify_queue = some [] }),
      rw (w.queue g.calls, w.task t.calls) refl,
    )

-- It comes back if every driver call succeeds and the worker's queue and task are made.
pub lcd_init-total :
    (env : GuiEnv) (controller : LcdController) (g : Gui)
    → Works env
    → (t : Gui) × (lcd_init env controller g ≡ some (esp_ok, t))
unfolding lcd_init display_on
lcd_init-total env controller g w =
    let (u, e) = check_calls-total env (checked_calls controller) g w in
    let (v, k) = ui_worker_init-total env (display_on env controller u) w in
    (ui_home_init env v, ap (start_ui env controller) e ∙ ap (show_home env) k)
