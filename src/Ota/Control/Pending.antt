-- ===== src/Ota/Control/Pending.antt =====
-- A verification that is pending in components/ota-service/ota_service.c.
use gate_lock_home_node.Base.{◌≡◌, ◌≢◌, ◌↔◌, ◌⊎◌, true, none, some, ◌∷◌, arith, is_ok}
use gate_lock_home_node.Ota.Types.{
  Ota, made, semaphore_take, semaphore_give, mark_app_valid, err_ota_service_init_fail,
  err_ota_service_validation_pending,
}
use gate_lock_home_node.Ota.Task.{CycleEnv, ota_cycle}
use gate_lock_home_node.Ota.Task.Cycle.{ota_cycle_pending}
use gate_lock_home_node.Ota.Control.{InitEnv, pd_fail, ota_set_valid, ota_service_init}

-- While a verification is pending and an update waits for it, `ota_set_valid(true)` starts the
-- update, but the round that it starts goes back to waiting: nothing clears the mark that the
-- verification is pending.
pub ota_set_valid_blocked :
    (env : CycleEnv) (s : Ota)
    → s.validation_pending ≡ true
    → s.update_pending ≡ true
    → ota_cycle env (ota_set_valid true s).1
      ≡ some (record s {
        update_pending = true;
        calls = semaphore_take ∷ semaphore_give ∷ mark_app_valid ∷ s.calls;
      })
unfolding ota_set_valid
ota_set_valid_blocked env s h k =
    ground (arith, ota_cycle_pending env (made semaphore_give (made mark_app_valid s)) h)

-- The initialisation fails exactly if the client or the semaphore could not be made or `xTaskCreate`
-- gives pdFAIL, which is 0 (not with the negative result that tells of too little memory), and
-- reports a pending verification exactly if it does not fail and the running image is found to wait
-- for one; the mark that a verification is pending is set exactly if it was set or that is reported.
pub ota_service_init_result :
    (env : InitEnv) (s : Ota)
    → let (r, t) = ota_service_init env s in
      ((r ≡ err_ota_service_init_fail)
        ↔ ((env.new_client ≡ none) ⊎ ((env.new_semaphore ≡ none) ⊎ (env.task_result ≡ pd_fail))))
      × ((r ≡ err_ota_service_validation_pending) ↔ (
          (r ≢ err_ota_service_init_fail)
          × (is_ok env.state_result ≡ true)
          × (env.pending_verify ≡ true)))
      × ((t.validation_pending ≡ true)
          ↔ ((s.validation_pending ≡ true) ⊎ (r ≡ err_ota_service_validation_pending)))
unfolding ota_service_init
ota_service_init_result env s = (
  (λ h. ground (arith), λ h. ground (arith)),
  (λ h. ground (arith), λ h. ground (arith)),
  (λ h. ground (arith), λ h. ground (arith)),
)
