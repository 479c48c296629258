-- ===== src/Gui/Op/Weight.antt =====
-- The work that waits in the queues of components/gui-component, and what a step leaves of it.
use gate_lock_home_node.Base.{
  ℕ, ◌≤◌, ◌-◌, drop, ◌≡◌, refl, ap, subst, sym, ◌∙◌, Bool, true, Bool-cases, Option-cases, inl, inr,
  Option, none, some, List, [], ◌∷◌, arith, length, length-append, ltb,
}
use gate_lock_home_node.Gui.Types.{
  Gui, NotifyMsg, GuiEvent, GuiEventData, OpInfo, UiCall, notify_queue_length, gui_op_queue_length,
}
use gate_lock_home_node.Gui.Worker.{send_notify}
use gate_lock_home_node.Gui.Op.{gui_op_task, next_op, finish_call, gui_inform}
use gate_lock_home_node.Gui.Op.View.{queue_of}
use gate_lock_home_node.Gui.Op.Moves.{informed, ui_call_lem, sends_call}
use gate_lock_home_node.Gui.Op.Steps.{weight, has_queue, HasWorker}

-- A step of the task of the events adds no work, and does some if no message waits.
abbrev pub Lighter : List NotifyMsg → Gui → Gui → Type 0
Lighter q g t =
    (has_queue t.notify_queue ≡ true)
    × (weight t ≤ weight g)
    × (length q ≡ 0 → weight t ≤ weight g - 1)

sent-Lighter :
    (stack : List ℕ) (c : UiCall) (cs : List UiCall) (q : List NotifyMsg) (g : Gui)
    → g.pending ≡ c ∷ cs
    → g.notify_queue ≡ some q
    → Lighter q g (finish_call cs (send_notify (sends_call stack c) (some q) g) g)
unfolding send_notify
sent-Lighter stack c cs q g p n = elim (Bool-cases (ltb (length q) notify_queue_length)) [
  | inl room ↦ rw room (
    refl,
    omega (
      arith,
      ap length p,
      ap (λ (x : Option (List NotifyMsg)). length (queue_of x)) n,
      length-append q (sends_call stack c ∷ []),
    ),
    λ e. omega (
      arith,
      ap length p,
      ap (λ (x : Option (List NotifyMsg)). length (queue_of x)) n,
      length-append q (sends_call stack c ∷ []),
    ),
  )
  | inr full ↦ rw full (ap has_queue n, omega arith, λ e. absurd (ground arith))
]

pub next_op-Lighter :
    (stack : List ℕ) (cs : List UiCall) (q : List NotifyMsg) (ops : Option (List OpInfo)) (g : Gui)
    → g.pending ≡ cs
    → g.notify_queue ≡ some q
    → g.gui_op_queue ≡ ops
    → Lighter q g (next_op stack cs g)
unfolding next_op
next_op-Lighter stack [] q none g p n o = ground arith
next_op-Lighter stack [] q (some []) g p n o = ground arith
next_op-Lighter stack [] q (some (op ∷ ops)) g p n o = ground arith
next_op-Lighter stack (c ∷ cs) q ops g p n o =
    subst (λ (x : Option (Bool × Gui)). Lighter q g (finish_call cs x g))
      (sym (
        ui_call_lem stack c g
        ∙ ap (λ (x : Option (List NotifyMsg)). send_notify (sends_call stack c) x g) n))
      (sent-Lighter stack c cs q g p n)

-- A message less, or else a step of the task of the events.
pub round_weight :
    (q : List NotifyMsg) (g u t : Gui)
    → g.notify_queue ≡ some q
    → u.notify_queue ≡ some (drop 1 q)
    → u.pending ≡ g.pending
    → u.gui_op_queue ≡ g.gui_op_queue
    → Lighter (drop 1 q) u t
    → weight t ≤ weight g - 1
round_weight [] g u t n m p o l = ground (arith, l.2 refl)
round_weight (x ∷ q) g u t n m p o l = ground arith

pub informed-queue :
    (e : GuiEvent) (d : Option GuiEventData) (g : Gui)
    → (informed (gui_inform e d g) g).notify_queue ≡ g.notify_queue
unfolding gui_inform
informed-queue e d g = elim (Option-cases g.gui_op_queue) [
  | inl none_yet ↦ rw none_yet refl
  | inr (q, e) ↦ elim (Bool-cases (ltb (length q) gui_op_queue_length)) [
    | inl room ↦ rw (e, room) refl
    | inr full ↦ rw (e, full) refl
  ]
]

pub the_queue :
    (o : Option (List NotifyMsg)) → has_queue o ≡ true → (q : List NotifyMsg) × (o ≡ some q)
the_queue none h = cc
the_queue (some q) h = (q, refl)

pub op_runs-HasWorker : (stack : List ℕ) (g : Gui) → HasWorker g → HasWorker (gui_op_task stack g)
unfolding gui_op_task
op_runs-HasWorker stack g h =
    let (q, n) = the_queue g.notify_queue h in
    (next_op-Lighter stack g.pending q g.gui_op_queue g refl n refl).0
