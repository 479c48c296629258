-- ===== src/Sd/Mount.antt =====
-- components/sd-card-logging/internals/sd_mount.c: the card's bus and its mount.
use gate_lock_home_node.Base.{
  suc, ◌≡◌, Bool, true, false, arith, eq_refl, EspErr, is_ok, if◌then◌else◌,
}
use gate_lock_home_node.Sd.Types.{
  Card, CardEnv, bus_initialize, card_mount, card_unmount, bus_free, made, bus_held,
}

unfoldable pub sd_mount_init : CardEnv → Card → Bool × Card
sd_mount_init env s =
    let r : EspErr = env.bus_result s.calls in
    let t : Card = made (bus_initialize env.spi2_host r) s in
    let m : EspErr = env.mount_result t.calls in
    let u : Card = made (card_mount m) t in
    if is_ok r
    then (if is_ok m then (true, u) else (false, made (bus_free env.spi2_host) u))
    else (false, t)

unfoldable pub sd_mount_deinit : CardEnv → Card → Card
sd_mount_deinit env s = made (bus_free env.config_sd_spi_host) (made card_unmount s)

-- A successful mount holds the bus once more, and a failed one gives back what it took, on both of
-- its error paths.
pub sd_mount-bus_held :
    (env : CardEnv) (s : Card)
    → let (ok, t) = sd_mount_init env s in
      let before = bus_held env.spi2_host s.calls in
      bus_held env.spi2_host t.calls ≡ (if ok then suc before else before)
unfolding sd_mount_init bus_held
sd_mount-bus_held env s = ground (arith, eq_refl env.spi2_host)

-- Where the configured host is the one that the mount uses, unmounting after a successful mount
-- leaves the bus as it was before the mount.
pub sd_mount_deinit-bus_held :
    (env : CardEnv) (s t : Card)
    → env.config_sd_spi_host ≡ env.spi2_host
    → sd_mount_init env s ≡ (true, t)
    → bus_held env.spi2_host (sd_mount_deinit env t).calls ≡ bus_held env.spi2_host s.calls
unfolding sd_mount_init sd_mount_deinit bus_held
sd_mount_deinit-bus_held env s t e h = ground (arith, eq_refl env.spi2_host)

-- The mount leaves the writer's task alone.
pub sd_mount_init-task : (env : CardEnv) (s : Card) → (sd_mount_init env s).1.task ≡ s.task
unfolding sd_mount_init
sd_mount_init-task env s = ground arith
