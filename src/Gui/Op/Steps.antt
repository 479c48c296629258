-- ===== src/Gui/Op/Steps.antt =====
-- Histories of the display of components/gui-component: events come in while its two tasks run.
use gate_lock_home_node.Base.{
  ℕ, zero, suc, ◌+◌, ◌*◌, ◌≡◌, Bool, true, false, Option, none, some, List, [], ◌∷◌, ◌++◌, length,
}
use gate_lock_home_node.Gui.Types.{Gui, GuiEnv, NotifyMsg, GuiEvent, GuiEventData, OpInfo}
use gate_lock_home_node.Gui.Worker.{ui_worker_task}
use gate_lock_home_node.Gui.Op.{op_calls, gui_op_task, gui_inform}
use gate_lock_home_node.Gui.Op.View.{Shown, queue_of}
use gate_lock_home_node.Gui.Op.Moves.{inform_effect, informed}

-- An event of the system, a step of `gui_op_task`, or a round of `ui_worker_task`.
pub data GuiStep : Type 0 where
  informs : GuiEvent → Option GuiEventData → GuiStep
  op_runs : List ℕ → GuiStep
  worker_runs : GuiStep

module _ (env : GuiEnv) where
  abbrev pub gui_step : Gui → GuiStep → Gui
  gui_step g (informs e d) = informed (gui_inform e d g) g
  gui_step g (op_runs stack) = gui_op_task stack g
  gui_step g worker_runs = ui_worker_task env g

  abbrev pub gui_run : Gui → List GuiStep → Gui
  gui_run g [] = g
  gui_run g (s ∷ ss) = gui_run (gui_step g s) ss

  -- What the events promise that found room in the queue, in their order.
  abbrev pub promised : Gui → List GuiStep → List Shown
  promised g [] = []
  promised g (informs e d ∷ ss) =
      inform_effect e g (gui_inform e d g) ++ promised (gui_step g (informs e d)) ss
  promised g (op_runs stack ∷ ss) = promised (gui_step g (op_runs stack)) ss
  promised g (worker_runs ∷ ss) = promised (gui_step g worker_runs) ss

  -- Both tasks run in turn, n times.
  abbrev pub settle : List ℕ → ℕ → Gui → Gui
  settle stack zero g = g
  settle stack (suc n) g = settle stack n (gui_op_task stack (ui_worker_task env g))

-- The rounds that are left: a call of an event costs one to be made and one to be run.
abbrev pub op_weight : List OpInfo → ℕ
op_weight [] = 0
op_weight (op ∷ ops) = 1 + 2 * length (op_calls op.event) + op_weight ops

abbrev pub weight : Gui → ℕ
weight g =
    length (queue_of g.notify_queue) + 2 * length g.pending + op_weight (queue_of g.gui_op_queue)

abbrev pub has_queue : Option (List NotifyMsg) → Bool
has_queue none = false
has_queue (some q) = true

-- `ui_worker_init` has made the queue of messages.
abbrev pub HasWorker : Gui → Type 0
HasWorker g = has_queue g.notify_queue ≡ true
