-- ===== src/Gui/Worker/Sync.antt =====
-- The two ways of components/gui-component/priv_src/ui_worker.c to run a job.
use gate_lock_home_node.Base.{
  ℕ, ◌≤◌, ◌≡◌, refl, subst, sym, true, Bool-cases, inl, inr, some, List, [], ◌∷◌, take,
  le→ltb_false,
}
use gate_lock_home_node.Gui.Types.{Gui, GuiEnv, JobCallback, ui_worker_max_job_size}
use gate_lock_home_node.Gui.Worker.{
  ui_worker_process_job, ui_worker_task, ui_worker_process_job_sync,
}

module _ (env : GuiEnv) (cb : JobCallback) (bytes : List ℕ) (size : ℕ) where
  abbrev Alike : Gui → Type 0
  Alike g =
      (t : Gui) × (ui_worker_process_job cb bytes size g ≡ some (true, t))
      × (ui_worker_task env t ≡ (ui_worker_process_job_sync env cb (take size bytes) g).1)

  idle_worker :
      (g : Gui) → size ≤ ui_worker_max_job_size → Alike (record g { notify_queue = some [] })
  unfolding ui_worker_process_job ui_worker_task ui_worker_process_job_sync
  idle_worker g h = (
    record g {
      notify_queue = some (record { cb = cb; data_size = size; bytes = take size bytes } ∷ []);
    },
    rw (le→ltb_false ui_worker_max_job_size size h) refl,
    elim (Bool-cases (env.locked g.calls)) [
      | inl locked ↦ rw locked refl
      | inr busy ↦ rw busy refl
    ],
  )

  -- While no job waits, a job that fits into a message is taken, and the next round of the task of
  -- the display then does just what `ui_worker_process_job_sync` does at once.
  pub process_job-process_job_sync :
      (g : Gui) → size ≤ ui_worker_max_job_size → g.notify_queue ≡ some [] → Alike g
  process_job-process_job_sync g h idle =
      subst Alike (λ i. record g { notify_queue = sym idle i }) (idle_worker g h)
