-- ===== src/Main/Boot/Calls.antt =====
-- The calls of main/home-node.c on other components, and the wait for the connection.
use gate_lock_home_node.Base.{
  ◌≡◌, refl, ap, ◌∙◌, Bool, true, false, Bool-cases, inl, inr, some, List, [], ◌∷◌, ◌++◌, arith,
  EspErr, esp_ok, is_ok, eq_int, pos, negsuc, codes, if◌then◌else◌,
}
use gate_lock_home_node.Node.Types.{Node}
use gate_lock_home_node.Gui.Types.{Gui}
use gate_lock_home_node.Main.Types.{
  Call, MainEnv, System, nvs_flash_init, transport_init, sync_signal_wait, delay, mdns_init,
  mdns_instance_name_set, mdns_hostname_set, mdns_service_add,
}
use gate_lock_home_node.Main.Mdns.{mdns_service_start}
use gate_lock_home_node.Main.Start.{
  call, deref, check, esp_flash_init, start_transport, wait_discovered, wait_connected, init_espnow,
}
use gate_lock_home_node.Main.Boot.{AllWell, Reaches}

module _ {S : Type 0} where
  pub call-Reaches :
      (c : Call) (s : System S) (P : Gui → Node S → Type 0) → P s.gui s.node → Reaches (call c) s P
  call-Reaches c s P p = record {
    value = tt;
    after = record s { calls = c ∷ s.calls };
    back = refl;
    holds = p;
  }

  pub deref-Reaches :
      (b : Bool) (s : System S) (P : Gui → Node S → Type 0)
      → b ≡ true
      → P s.gui s.node
      → Reaches (deref b) s P
  deref-Reaches b s P h p = record {
    value = tt;
    after = s;
    back = ap (λ (x : Bool). deref x s) h;
    holds = p;
  }

not_ok : (e : EspErr) → is_ok e ≡ false → eq_int esp_ok e ≡ false
not_ok (pos n) h = ground arith
not_ok (negsuc n) h = refl

module _ {S : Type 0} (env : MainEnv) (well : AllWell env) where
  pub esp_flash_init-Reaches :
      (s : System S) (P : Gui → Node S → Type 0) → P s.gui s.node → Reaches (esp_flash_init env) s P
  unfolding esp_flash_init
  esp_flash_init-Reaches s P p = record {
    value = tt;
    after = record s { calls = nvs_flash_init ∷ s.calls };
    back =
        rw
          (
            well.called s.calls nvs_flash_init,
            not_ok env.nvs_no_free_pages well.room,
            not_ok env.nvs_new_version_found well.same_version,
          )
          refl;
    holds = p;
  }

  pub check-Reaches :
      (c : Call) (s : System S) (P : Gui → Node S → Type 0)
      → P s.gui s.node
      → Reaches (check env c) s P
  check-Reaches c s P p = record {
    value = tt;
    after = record s { calls = c ∷ s.calls };
    back = rw (well.called s.calls c) refl;
    holds = p;
  }

  pub start_transport-Reaches :
      (s : System S) (P : Gui → Node S → Type 0)
      → P s.gui s.node
      → Reaches (start_transport env) s P
  unfolding start_transport
  start_transport-Reaches s P p = record {
    value = tt;
    after = record s { calls = transport_init env.channel ∷ s.calls };
    back = rw (well.called s.calls (transport_init env.channel)) refl;
    holds = p;
  }

  pub wait_discovered-Reaches :
      (s : System S) (P : Gui → Node S → Type 0)
      → P s.gui s.node
      → Reaches (wait_discovered env) s P
  unfolding wait_discovered
  wait_discovered-Reaches s P p = record {
    value = tt;
    after = record s { calls = sync_signal_wait ∷ s.calls };
    back = rw well.found refl;
    holds = p;
  }

  pub mdns-Reaches :
      (s : System S) (P : Gui → Node S → Type 0)
      → P s.gui s.node
      → Reaches (mdns_service_start env) s P
  unfolding mdns_service_start
  mdns-Reaches s P p = record {
    value = esp_ok;
    after = record s {
      calls =
          mdns_service_add (codes "gate") (codes "_gatecontrol") 80
          ∷ mdns_instance_name_set
          ∷ mdns_hostname_set
          ∷ mdns_init
          ∷ s.calls;
    };
    back = rw (well.called s.calls mdns_init) refl;
    holds = p;
  }

pub wait_connected-Reaches :
    {S : Type 0} (b bs : List Bool) (s : System S) (P : Gui → Node S → Type 0)
    → P s.gui s.node
    → Reaches (wait_connected (b ++ true ∷ bs)) s P
unfolding wait_connected
wait_connected-Reaches [] bs s P p = record {
  value = tt;
  after = init_espnow s;
  back = refl;
  holds = p;
}
wait_connected-Reaches (true ∷ bs) cs s P p = record {
  value = tt;
  after = init_espnow s;
  back = refl;
  holds = p;
}
wait_connected-Reaches {S} (false ∷ bs) cs s P p =
    let u : System S = record s { calls = delay ∷ s.calls } in
    let again = wait_connected-Reaches bs cs u P p in
    let round = λ (b : Bool). if b then some (tt {0}, s) else wait_connected (bs ++ true ∷ cs) u in
    elim (Bool-cases s.proceed) [
      | inl come ↦ record { value = tt; after = s; back = ap round come; holds = p }
      | inr not_yet ↦ record {
        value = tt;
        after = again.after;
        back = ap round not_yet ∙ again.back;
        holds = again.holds;
      }
    ]
