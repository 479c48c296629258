-- ===== src/Gui/Op/Bounds.antt =====
-- The bounds of the display's queues and jobs (components/gui-component).
use gate_lock_home_node.Base.{
  ℕ, suc, ◌≤◌, ◌≡◌, refl, ap, subst, sym, ◌∙◌, Bool, true, Bool-cases, inl, inr, Option, none, some,
  List, [], ◌∷◌, ◌++◌, arith, length, length-append, ltb, ltb→lt, take, take_all,
  length-snprintf_text, snprintf_text,
}
use gate_lock_home_node.Gui.Types.{
  Gui, GuiEnv, NotifyMsg, OpInfo, UiCall, load_screen, set_wifi_ssid, set_discovery_msg,
  set_main_label, made, lvgl_port_lock, notify_queue_length, gui_op_queue_length,
  ui_worker_max_job_size, ui_max_string_length,
}
use gate_lock_home_node.Gui.Worker.{ui_worker_task, receive_notify, send_notify}
use gate_lock_home_node.Gui.Op.{
  gui_op_task, next_op, receive_op, finish_call, gui_inform, send_op, event_data,
}
use gate_lock_home_node.Gui.Op.View.{queue_of}
use gate_lock_home_node.Gui.Op.Moves.{run_callback-shown, informed, ui_call_lem, sends_call}
use gate_lock_home_node.Gui.Op.Steps.{GuiStep, informs, op_runs, worker_runs, gui_step, gui_run}

-- Each message has as many bytes as it says, and they fit into the array of a message.
abbrev pub JobsFit : List NotifyMsg → Type 0
JobsFit [] = Unit {0}
JobsFit (m ∷ ms) =
    (length m.bytes ≡ m.data_size) × (m.data_size ≤ ui_worker_max_job_size) × JobsFit ms

abbrev pub Bounded : Gui → Type 0
Bounded g =
    (length (queue_of g.notify_queue) ≤ notify_queue_length)
    × (length (queue_of g.gui_op_queue) ≤ gui_op_queue_length)
    × JobsFit (queue_of g.notify_queue)

-- The local array of a job has 30 bytes, whatever they are.
abbrev pub Frames : List GuiStep → Type 0
Frames [] = Unit {0}
Frames (op_runs stack ∷ ss) = (length stack ≡ ui_max_string_length) × Frames ss
Frames (informs e d ∷ ss) = Frames ss
Frames (worker_runs ∷ ss) = Frames ss

JobsFit-snoc :
    (ms : List NotifyMsg) (m : NotifyMsg)
    → JobsFit ms
    → length m.bytes ≡ m.data_size
    → m.data_size ≤ ui_worker_max_job_size
    → JobsFit (ms ++ m ∷ [])
JobsFit-snoc [] m f e l = (e, l, tt)
JobsFit-snoc (x ∷ ms) m f e l = (f.0, f.1, JobsFit-snoc ms m f.2 e l)

label_size :
    (stack : List ℕ) (i : ℕ) (text : List ℕ)
    → length stack ≡ 30
    → length (take 31 (i ∷ snprintf_text stack 30 text)) ≡ 31
label_size stack i text h =
    let e = length-snprintf_text stack 30 text (omega arith) h in
    ap (λ (xs : List ℕ). suc (length xs))
      (take_all 30 (snprintf_text stack 30 text) (omega (arith, e)))
    ∙ ap suc e

sends_call-size :
    (stack : List ℕ) (c : UiCall)
    → length stack ≡ 30
    → (length (sends_call stack c).bytes ≡ (sends_call stack c).data_size)
      × ((sends_call stack c).data_size ≤ ui_worker_max_job_size)
sends_call-size stack load_screen h = (refl, omega arith)
sends_call-size stack (set_wifi_ssid text) h = (label_size stack 0 text h, omega arith)
sends_call-size stack (set_discovery_msg text) h = (label_size stack 1 text h, omega arith)
sends_call-size stack (set_main_label text) h = (label_size stack 2 text h, omega arith)

sent-Bounded :
    (stack : List ℕ) (c : UiCall) (cs : List UiCall) (o : Option (List NotifyMsg)) (g : Gui)
    → length stack ≡ 30
    → g.notify_queue ≡ o
    → Bounded g
    → Bounded (finish_call cs (send_notify (sends_call stack c) o g) g)
unfolding send_notify
sent-Bounded stack c cs none g h e b = b
sent-Bounded stack c cs (some q) g h e b =
    let (sized, small) = sends_call-size stack c h in
    elim (Bool-cases (ltb (length q) notify_queue_length)) [
      | inl room ↦ rw room (
        omega (arith, ltb→lt (length q) 16 room, length-append q (sends_call stack c ∷ [])),
        b.1,
        JobsFit-snoc q (sends_call stack c)
            (subst (λ (x : Option (List NotifyMsg)). JobsFit (queue_of x)) e b.2) sized small,
      )
      | inr full ↦ rw full b
    ]

receive_op-Bounded :
    (o : Option (List OpInfo)) (g : Gui) → g.gui_op_queue ≡ o → Bounded g → Bounded (receive_op o g)
receive_op-Bounded none g e b = b
receive_op-Bounded (some []) g e b = b
receive_op-Bounded (some (op ∷ ops)) g e b =
    (b.0, omega (arith, b.1, ap (λ (x : Option (List OpInfo)). length (queue_of x)) e), b.2)

next_op-Bounded :
    (stack : List ℕ) (cs : List UiCall) (g : Gui)
    → length stack ≡ 30
    → Bounded g
    → Bounded (next_op stack cs g)
unfolding next_op
next_op-Bounded stack [] g h b = receive_op-Bounded g.gui_op_queue g refl b
next_op-Bounded stack (c ∷ cs) g h b =
    subst (λ (x : Option (Bool × Gui)). Bounded (finish_call cs x g)) (sym (ui_call_lem stack c g))
      (sent-Bounded stack c cs g.notify_queue g h refl b)

informed-Bounded :
    (op : OpInfo) (o : Option (List OpInfo)) (g : Gui)
    → g.gui_op_queue ≡ o
    → Bounded g
    → Bounded (informed (send_op op o g) g)
informed-Bounded op none g e b = b
informed-Bounded op (some q) g e b = elim (Bool-cases (ltb (length q) gui_op_queue_length)) [
  | inl room ↦
      rw room (b.0, omega (arith, ltb→lt (length q) 10 room, length-append q (op ∷ [])), b.2)
  | inr full ↦ rw full b
]

module _ (env : GuiEnv) where
  receive_notify-Bounded :
      (o : Option (List NotifyMsg)) (g : Gui)
      → g.notify_queue ≡ o
      → Bounded g
      → Bounded (receive_notify env o g)
  receive_notify-Bounded none g e b = b
  receive_notify-Bounded (some []) g e b = b
  receive_notify-Bounded (some (m ∷ q)) g e b =
      let u : Gui = made (lvgl_port_lock true) (record g { notify_queue = some q }) in
      let (s, (c, l, n, p, o)) = run_callback-shown m.cb m.bytes u in
      let taken : Bounded (record g { notify_queue = some q }) = (
        omega (arith, b.0, ap (λ (x : Option (List NotifyMsg)). length (queue_of x)) e),
        b.1,
        (subst (λ (x : Option (List NotifyMsg)). JobsFit (queue_of x)) e b.2).2,
      ) in
      elim (Bool-cases (env.locked g.calls)) [
        | inl yes_locked ↦ rw (yes_locked, n, o) taken
        | inr not_locked ↦ rw not_locked taken
      ]

  -- From a state within the bounds, where each job is written into an array of 30 bytes: after any
  -- history of events and steps of the two tasks, at most 16 messages and at most 10 events wait,
  -- and every message's job has as many bytes as it says and fits into the 64 of a message.
  pub gui_run-Bounded :
      (ss : List GuiStep) (g : Gui) → Frames ss → Bounded g → Bounded (gui_run env g ss)
  unfolding gui_op_task ui_worker_task gui_inform
  gui_run-Bounded [] g f b = b
  gui_run-Bounded (informs e d ∷ ss) g f b =
      gui_run-Bounded ss (gui_step env g (informs e d)) f
        (informed-Bounded (record { event = e; evt_data = event_data d }) g.gui_op_queue g refl b)
  gui_run-Bounded (op_runs stack ∷ ss) g f b =
      gui_run-Bounded ss (gui_op_task stack g) f.1 (next_op-Bounded stack g.pending g f.0 b)
  gui_run-Bounded (worker_runs ∷ ss) g f b =
      gui_run-Bounded ss (ui_worker_task env g) f (receive_notify-Bounded g.notify_queue g refl b)
