-- ===== src/Gui/Op/Settle.antt =====
-- What the display of components/gui-component has shown after a history of its steps.
use gate_lock_home_node.Base.{
  ℕ, zero, suc, ◌≤◌, ◌-◌, drop, ◌≡◌, refl, ap, subst, sym, ◌∙◌, true, Option, some, List, [], ◌∷◌,
  ◌++◌, append_assoc, append-nil, arith, length,
}
use gate_lock_home_node.Gui.Types.{Gui, GuiEnv, NotifyMsg, OpInfo, made, lvgl_port_lock}
use gate_lock_home_node.Gui.Worker.{ui_worker_task, receive_notify}
use gate_lock_home_node.Gui.Op.{gui_op_task}
use gate_lock_home_node.Gui.Op.View.{Shown, shown, queue_of, view}
use gate_lock_home_node.Gui.Op.Moves.{
  AlwaysLocks, run_callback-shown, ui_worker_task-view, gui_op_task-view, gui_inform-view,
}
use gate_lock_home_node.Gui.Op.Steps.{
  GuiStep, informs, op_runs, worker_runs, gui_step, gui_run, promised, settle, op_weight, weight,
  has_queue, HasWorker,
}
use gate_lock_home_node.Gui.Op.Weight.{
  next_op-Lighter, round_weight, informed-queue, the_queue, op_runs-HasWorker,
}

module _ (env : GuiEnv) (locks : AlwaysLocks env) where
  run-view : (ss : List GuiStep) (g : Gui) → view (gui_run env g ss) ≡ view g ++ promised env g ss
  run-view [] g = sym (append-nil (view g))
  run-view (informs e d ∷ ss) g =
      run-view ss (gui_step env g (informs e d))
      ∙ ap (λ (xs : List Shown). xs ++ promised env (gui_step env g (informs e d)) ss)
          (gui_inform-view e d g)
      ∙ append_assoc (view g) _ _
  run-view (op_runs stack ∷ ss) g =
      run-view ss (gui_op_task stack g)
      ∙ ap (λ (xs : List Shown). xs ++ promised env (gui_op_task stack g) ss)
          (gui_op_task-view stack g)
  run-view (worker_runs ∷ ss) g =
      run-view ss (ui_worker_task env g)
      ∙ ap (λ (xs : List Shown). xs ++ promised env (ui_worker_task env g) ss)
          (ui_worker_task-view env locks g)

  settle-view : (stack : List ℕ) (n : ℕ) (g : Gui) → view (settle env stack n g) ≡ view g
  settle-view stack zero g = refl
  settle-view stack (suc n) g =
      settle-view stack n (gui_op_task stack (ui_worker_task env g))
      ∙ gui_op_task-view stack (ui_worker_task env g)
      ∙ ui_worker_task-view env locks g

  -- A round of the worker takes one message, if there is one.
  worker-weight :
      (q : List NotifyMsg) (g : Gui)
      → g.notify_queue ≡ some q
      → let t = receive_notify env (some q) g in
        (t.notify_queue ≡ some (drop 1 q))
        × (t.pending ≡ g.pending)
        × (t.gui_op_queue ≡ g.gui_op_queue)
  worker-weight [] g e = (e, refl, refl)
  worker-weight (m ∷ q) g e =
      let u : Gui = made (lvgl_port_lock true) (record g { notify_queue = some q }) in
      let (s, (c, l, n, p, o)) = run_callback-shown m.cb m.bytes u in rw (locks g.calls) (n, p, o)

module _ (env : GuiEnv) (locks : AlwaysLocks env) where
  worker_queue :
      (q : List NotifyMsg) (g : Gui)
      → g.notify_queue ≡ some q
      → let t = ui_worker_task env g in
        (t.notify_queue ≡ some (drop 1 q))
        × (t.pending ≡ g.pending)
        × (t.gui_op_queue ≡ g.gui_op_queue)
  unfolding ui_worker_task
  worker_queue q g n =
      subst
        (λ (o : Option (List NotifyMsg)).
          ((receive_notify env o g).notify_queue ≡ some (drop 1 q))
          × ((receive_notify env o g).pending ≡ g.pending)
          × ((receive_notify env o g).gui_op_queue ≡ g.gui_op_queue))
        (sym n) (worker-weight env locks q g n)

  gui_run-HasWorker : (ss : List GuiStep) (g : Gui) → HasWorker g → HasWorker (gui_run env g ss)
  gui_run-HasWorker [] g h = h
  gui_run-HasWorker (informs e d ∷ ss) g h =
      gui_run-HasWorker ss (gui_step env g (informs e d)) (ap has_queue (informed-queue e d g) ∙ h)
  gui_run-HasWorker (op_runs stack ∷ ss) g h =
      gui_run-HasWorker ss (gui_op_task stack g) (op_runs-HasWorker stack g h)
  gui_run-HasWorker (worker_runs ∷ ss) g h =
      let (q, n) = the_queue g.notify_queue h in
      gui_run-HasWorker ss (ui_worker_task env g) (ap has_queue (worker_queue q g n).0)

  round-lighter :
      (stack : List ℕ) (q : List NotifyMsg) (g : Gui)
      → g.notify_queue ≡ some q
      → let t = gui_op_task stack (ui_worker_task env g) in HasWorker t × (weight t ≤ weight g - 1)
  unfolding gui_op_task
  round-lighter stack q g n =
      let u : Gui = ui_worker_task env g in
      let (m, p, o) = worker_queue q g n in
      let l = next_op-Lighter stack u.pending (drop 1 q) u.gui_op_queue u refl m refl in
      (l.0, round_weight q g u (gui_op_task stack u) n m p o l)

  settle-weight :
      (stack : List ℕ) (n : ℕ) (g : Gui)
      → HasWorker g
      → weight g ≤ n
      → weight (settle env stack n g) ≡ 0
  settle-weight stack zero g h k = omega arith
  settle-weight stack (suc n) g h k =
      let (q, e) = the_queue g.notify_queue h in
      let (has, less) = round-lighter stack q g e in
      settle-weight stack n (gui_op_task stack (ui_worker_task env g)) has (omega (arith, less))

no_items : {A : Type 0} (xs : List A) → length xs ≡ 0 → xs ≡ []
no_items [] h = refl
no_items (x ∷ xs) h = absurd (omega arith)

no_ops : (ops : List OpInfo) → op_weight ops ≡ 0 → ops ≡ []
no_ops [] h = refl
no_ops (op ∷ ops) h = absurd (omega arith)

weightless-view : (g : Gui) → weight g ≡ 0 → view g ≡ shown g.calls
weightless-view g h =
    rw
      (
        no_items (queue_of g.notify_queue) (omega arith),
        no_items g.pending (omega arith),
        no_ops (queue_of g.gui_op_queue) (omega arith),
      )
      (append-nil (shown g.calls))

module _ (env : GuiEnv) (locks : AlwaysLocks env) where
  -- With a lock of LVGL that is always obtained, and the queue of messages made: after any history
  -- of events and steps of the two tasks, and as many further rounds of both as the waiting work
  -- needs, the display has shown what it had shown or promised before, and then, in the order of the
  -- events, just what the events promise that found room in their queue.
  pub gui_settles :
      (stack : List ℕ) (ss : List GuiStep) (g : Gui) (n : ℕ)
      → HasWorker g
      → weight (gui_run env g ss) ≤ n
      → shown (settle env stack n (gui_run env g ss)).calls ≡ view g ++ promised env g ss
  gui_settles stack ss g n h k =
      let t : Gui = gui_run env g ss in
      sym (
        weightless-view (settle env stack n t)
          (settle-weight env locks stack n t (gui_run-HasWorker env locks ss g h) k))
      ∙ settle-view env locks stack n t
      ∙ run-view env locks ss g
