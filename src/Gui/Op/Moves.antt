-- ===== src/Gui/Op/Moves.antt =====
-- Each step of the display of components/gui-component against what it has shown and will show.
use gate_lock_home_node.Base.{
  ℕ, ◌≡◌, refl, ap, sym, ◌∙◌, Bool, true, Option, none, some, List, [], ◌∷◌, ◌++◌, append_assoc,
  append-nil, arith, flat_map-append, take, take-take, cstr, get_elem?, EspErr, is_ok,
  cstr-take-snprintf_text, snprintf_text, if◌then◌else◌, length, ltb, Option-cases, Bool-cases, inl,
  inr,
}
use gate_lock_home_node.Gui.Types.{
  Gui, GuiEnv, Call, Child, JobCallback, set_wifi_ssid_job, set_discovery_msg_job,
  set_main_label_job, load_screen_cb, NotifyMsg, GuiEvent, GuiEventData, OpInfo, UiCall,
  load_screen, set_wifi_ssid, set_discovery_msg, set_main_label, lvgl_port_lock, made,
  notify_queue_length, gui_op_queue_length,
}
use gate_lock_home_node.Gui.Worker.{
  object_of, set_label_job, run_callback, receive_notify, ui_worker_task, send_notify,
}
use gate_lock_home_node.Gui.Home.{ui_call}
use gate_lock_home_node.Gui.Op.{
  receive_op, finish_call, send_op, event_data, next_op, gui_op_task, gui_inform,
}
use gate_lock_home_node.Gui.Op.View.{
  Shown, shown, queue_of, label_effect, job_effect, call_effect, event_effect, cb_effect,
  msg_effect, op_effect, waiting, view,
}

-- The lock of LVGL is always obtained, as it is without a limit of time.
abbrev pub AlwaysLocks : GuiEnv → Type 0
AlwaysLocks env = (cs : List Call) → env.locked cs ≡ true

-- A part of the state that only its calls tell from another.
abbrev pub SameQueues : Gui → Gui → Type 0
SameQueues g t =
    (t.children ≡ g.children)
    × (t.lv_screen ≡ g.lv_screen)
    × (t.notify_queue ≡ g.notify_queue)
    × (t.pending ≡ g.pending)
    × (t.gui_op_queue ≡ g.gui_op_queue)

set_label_job-shown :
    (bytes : List ℕ) (g : Gui)
    → (shown (set_label_job bytes g).calls ≡ shown g.calls ++ job_effect g.children bytes)
      × SameQueues g (set_label_job bytes g)
unfolding set_label_job shown
set_label_job-shown [] g = ground (arith, append-nil (shown g.calls))
set_label_job-shown (i ∷ text) g = elim (Option-cases (object_of (get_elem? g.children i))) [
  | inl e ↦ rw e (ground (arith, append-nil (shown g.calls)))
  | inr (obj, e) ↦ rw e (ground arith)
]

pub run_callback-shown :
    (cb : JobCallback) (bytes : List ℕ) (g : Gui)
    → (shown (run_callback cb bytes g).calls
        ≡ shown g.calls ++ cb_effect g.children g.lv_screen cb bytes)
      × SameQueues g (run_callback cb bytes g)
unfolding run_callback shown
run_callback-shown set_wifi_ssid_job bytes g = set_label_job-shown bytes g
run_callback-shown set_discovery_msg_job bytes g = set_label_job-shown bytes g
run_callback-shown set_main_label_job bytes g = set_label_job-shown bytes g
run_callback-shown load_screen_cb bytes g = ground arith

module _ (env : GuiEnv) (locks : AlwaysLocks env) where
  receive_notify-view :
      (q : Option (List NotifyMsg)) (g : Gui)
      → g.notify_queue ≡ q
      → view (receive_notify env q g) ≡ view g
  unfolding shown
  receive_notify-view none g e = refl
  receive_notify-view (some []) g e = refl
  receive_notify-view (some (msg ∷ queue)) g e =
      let u : Gui = made (lvgl_port_lock true) (record g { notify_queue = some queue }) in
      let (s, (c, l, n, p, o)) = run_callback-shown msg.cb msg.bytes u in
      rw (locks g.calls, e) (simp (s, c, l, n, p, o, append_assoc))

  -- A round of the worker shows the oldest message, and nothing else changes.
  pub ui_worker_task-view : (g : Gui) → view (ui_worker_task env g) ≡ view g
  unfolding ui_worker_task
  ui_worker_task-view g = receive_notify-view g.notify_queue g refl

-- The message of a call promises just what the call promises.
label_msg :
    (stack : List ℕ) (child_index : ℕ) (text : List ℕ) (children : List Child)
    → job_effect children (take 31 (child_index ∷ snprintf_text stack 30 text))
      ≡ label_effect children child_index (take 29 (cstr text))
label_msg stack i text children = ap (label_effect children i) (
    ap cstr (take-take 30 (snprintf_text stack 30 text))
    ∙ cstr-take-snprintf_text stack 30 text (omega arith))

abbrev pub sends_call : List ℕ → UiCall → NotifyMsg
sends_call stack load_screen = record { cb = load_screen_cb; data_size = 0; bytes = [] }
sends_call stack (set_wifi_ssid text) = record {
  cb = set_wifi_ssid_job;
  data_size = 31;
  bytes = take 31 (0 ∷ snprintf_text stack 30 text);
}
sends_call stack (set_discovery_msg text) = record {
  cb = set_discovery_msg_job;
  data_size = 31;
  bytes = take 31 (1 ∷ snprintf_text stack 30 text);
}
sends_call stack (set_main_label text) = record {
  cb = set_main_label_job;
  data_size = 31;
  bytes = take 31 (2 ∷ snprintf_text stack 30 text);
}

pub ui_call_lem :
    (stack : List ℕ) (c : UiCall) (g : Gui)
    → ui_call stack c g ≡ send_notify (sends_call stack c) g.notify_queue g
unfolding ui_call
ui_call_lem stack load_screen g = refl
ui_call_lem stack (set_wifi_ssid text) g = refl
ui_call_lem stack (set_discovery_msg text) g = refl
ui_call_lem stack (set_main_label text) g = refl

sends_call-effect :
    (stack : List ℕ) (c : UiCall) (children : List Child) (screen : Option ℕ)
    → msg_effect children screen (sends_call stack c) ≡ call_effect children screen c
sends_call-effect stack load_screen children screen = refl
sends_call-effect stack (set_wifi_ssid text) children screen = label_msg stack 0 text children
sends_call-effect stack (set_discovery_msg text) children screen = label_msg stack 1 text children
sends_call-effect stack (set_main_label text) children screen = label_msg stack 2 text children

waiting-move :
    (children : List Child) (screen : Option ℕ) (msgs : List NotifyMsg) (m : NotifyMsg) (c : UiCall)
    (cs : List UiCall) (ops : List OpInfo)
    → msg_effect children screen m ≡ call_effect children screen c
    → waiting children screen (msgs ++ m ∷ []) cs ops ≡ waiting children screen msgs (c ∷ cs) ops
waiting-move children screen msgs m c cs ops e =
    simp (flat_map-append (msg_effect children screen) msgs (m ∷ []), e, append_assoc, append-nil)

receive_op-view :
    (q : Option (List OpInfo)) (g : Gui)
    → g.pending ≡ []
    → g.gui_op_queue ≡ q
    → view (receive_op q g) ≡ view g
receive_op-view none g p e = refl
receive_op-view (some []) g p e = refl
receive_op-view (some (op ∷ ops)) g p e = rw (p, e) refl

finish_call-view :
    (stack : List ℕ) (c : UiCall) (cs : List UiCall) (q : Option (List NotifyMsg)) (g : Gui)
    → g.pending ≡ c ∷ cs
    → g.notify_queue ≡ q
    → view (finish_call cs (send_notify (sends_call stack c) q g) g) ≡ view g
unfolding send_notify
finish_call-view stack c cs none g p e = refl
finish_call-view stack c cs (some queue) g p e =
    elim (Bool-cases (ltb (length queue) notify_queue_length)) [
      | inl room ↦
          rw (room, p, e)
            (ap (λ (xs : List Shown). shown g.calls ++ xs)
              (waiting-move g.children g.lv_screen queue (sends_call stack c) c cs
                (queue_of g.gui_op_queue) (sends_call-effect stack c g.children g.lv_screen)))
      | inr full ↦ rw full refl
    ]

next_op-view :
    (stack : List ℕ) (cs : List UiCall) (g : Gui)
    → g.pending ≡ cs
    → view (next_op stack cs g) ≡ view g
unfolding next_op
next_op-view stack [] g e = receive_op-view g.gui_op_queue g e refl
next_op-view stack (c ∷ cs) g e =
    ap (λ (o : Option (Bool × Gui)). view (finish_call cs o g)) (ui_call_lem stack c g)
    ∙ finish_call-view stack c cs g.notify_queue g e refl

-- A step of the task of the events moves what waits, and shows nothing itself.
pub gui_op_task-view : (stack : List ℕ) (g : Gui) → view (gui_op_task stack g) ≡ view g
unfolding gui_op_task
gui_op_task-view stack g = next_op-view stack g.pending g refl

-- What an event adds to the view: its effect, if the queue has room for it.
abbrev pub inform_effect : GuiEvent → Gui → Option (EspErr × Gui) → List Shown
inform_effect event g none = []
inform_effect event g (some (r, t)) =
    if is_ok r then event_effect g.children g.lv_screen event else []

abbrev pub informed : Option (EspErr × Gui) → Gui → Gui
informed none g = g
informed (some (r, t)) g = t

send_op-view :
    (op : OpInfo) (q : Option (List OpInfo)) (g : Gui)
    → g.gui_op_queue ≡ q
    → view (informed (send_op op q g) g) ≡ view g ++ inform_effect op.event g (send_op op q g)
send_op-view op none g e = sym (append-nil (view g))
send_op-view op (some queue) g e = elim (Bool-cases (ltb (length queue) gui_op_queue_length)) [
  | inl room ↦
      rw (room, e)
        (simp (
          flat_map-append (op_effect g.children g.lv_screen) queue (op ∷ []),
          append_assoc,
          append-nil,
        ))
  | inr full ↦ rw full (sym (append-nil (view g)))
]

pub gui_inform-view :
    (event : GuiEvent) (d : Option GuiEventData) (g : Gui)
    → view (informed (gui_inform event d g) g)
      ≡ view g ++ inform_effect event g (gui_inform event d g)
unfolding gui_inform
gui_inform-view event d g =
    send_op-view (record { event = event; evt_data = event_data d }) g.gui_op_queue g refl
