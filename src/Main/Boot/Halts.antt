-- ===== src/Main/Boot/Halts.antt =====
-- What stops the start of main/home-node.c: a flash that cannot be used, and wifi that never
-- connects.
use gate_lock_home_node.Base.{
  ◌≡◌, ◌⊎◌, refl, ap, sym, ◌∙◌, Bool, true, false, ◌||◌, Bool-cases, Option-cases, inl, inr, Option,
  none, some, List, [], ◌∷◌, arith, EspErr, is_ok, eq_int, eq_int→eq, ◌≢◌, pos, negsuc,
  if◌then◌else◌,
}
use gate_lock_home_node.Http.Types.{Bank}
use gate_lock_home_node.Gui.Types.{Gui, system_booting, system_wifi_ap_scanning}
use gate_lock_home_node.Node.Types.{Node}
use gate_lock_home_node.Node.Routine.{routine_handler_init}
use gate_lock_home_node.Main.Types.{
  Call, nvs_flash_init, nvs_flash_erase, sync_manager_init, event_system_adapter_init,
  wifi_initialize, delay, MainEnv, System, M, ◌>>◌, run_next,
}
use gate_lock_home_node.Main.Start.{
  call, on_gui, on_node, put_gui, put_node, deref, esp_flash_init, wait_connected,
}
use gate_lock_home_node.Main.Display.{Display}
use gate_lock_home_node.Main.App.{use_interface, connect, app_main}

eq_int_refl : (a : EspErr) → eq_int a a ≡ true
eq_int_refl (pos n) = ground arith
eq_int_refl (negsuc n) = ground arith

or_codes : (r a b : EspErr) → (eq_int r a || eq_int r b) ≡ true → (r ≡ a) ⊎ (r ≡ b)
or_codes r a b h = elim (Bool-cases (eq_int r a)) [
  | inl e ↦ inl (eq_int→eq r a e)
  | inr n ↦ inr (eq_int→eq r b (ap (λ (x : Bool). x || eq_int r b) (sym n) ∙ h))
]

nor_codes : (r a b : EspErr) → (eq_int r a || eq_int r b) ≡ false → (r ≢ a) × (r ≢ b)
nor_codes r a b h = ground (arith, eq_int_refl r, eq_int_refl a, eq_int_refl b)

-- Where the flash is ready, its partition was erased just if the first result was one of the two
-- that ask for it, and then the erasing and the second try succeeded; else the first try succeeded.
-- Nothing but the calls is changed.
pub esp_flash_init-erases :
    {S : Type 0}
    → (env : MainEnv) (s t : System S) → esp_flash_init env s ≡ some (tt, t)
    → ((t ≡ record s { calls = nvs_flash_init ∷ s.calls })
        × (is_ok (env.result s.calls nvs_flash_init) ≡ true)
        × (env.result s.calls nvs_flash_init ≢ env.nvs_no_free_pages)
        × (env.result s.calls nvs_flash_init ≢ env.nvs_new_version_found))
      ⊎ ((t ≡ record s { calls = nvs_flash_init ∷ nvs_flash_erase ∷ nvs_flash_init ∷ s.calls })
          × ((env.result s.calls nvs_flash_init ≡ env.nvs_no_free_pages)
              ⊎ (env.result s.calls nvs_flash_init ≡ env.nvs_new_version_found))
          × (is_ok (env.result (nvs_flash_init ∷ s.calls) nvs_flash_erase) ≡ true)
          × (is_ok (env.result (nvs_flash_erase ∷ nvs_flash_init ∷ s.calls) nvs_flash_init) ≡ true))
unfolding esp_flash_init
esp_flash_init-erases env s t h =
    let r : EspErr = env.result s.calls nvs_flash_init in
    elim (Bool-cases (eq_int r env.nvs_no_free_pages || eq_int r env.nvs_new_version_found)) [
      | inl asked ↦
          inr (ground (arith, or_codes r env.nvs_no_free_pages env.nvs_new_version_found asked))
      | inr other ↦
          inl (ground (arith, nor_codes r env.nvs_no_free_pages env.nvs_new_version_found other))
    ]

-- One of the tests to come finds that wifi has called back.
abbrev pub any_true : List Bool → Bool
any_true [] = false
any_true (b ∷ bs) = b || any_true bs

module _ {S : Type 0} where
  -- A part of the start stops, as long as wifi has not called back.
  abbrev Halts : {A : Type 0} → M S A → Type 0
  Halts m = (s : System S) → s.proceed ≡ false → m s ≡ none

  -- A part of the start leaves the flag of wifi alone, if it comes back.
  abbrev Keeps : {A : Type 0} → M S A → Type 0
  Keeps {A} m =
      (s : System S)
      → (m s ≡ none) ⊎ ((a : A) × (t : System S) × (m s ≡ some (a, t)) × (t.proceed ≡ s.proceed))

  Halts-after : {A B : Type 0} (m : M S A) (k : M S B) → Keeps m → Halts k → Halts (m >> k)
  Halts-after {A} m k keeps halts s h =
      let next = λ (o : Option (A × System S)). run_next o k in
      elim (keeps s) [ inl e ↦ ap next e | inr (a, t, e, same) ↦ ap next e ∙ halts t (same ∙ h) ]

  Halts-first : {A B : Type 0} (m : M S A) (k : M S B) → Halts m → Halts (m >> k)
  Halts-first {A} m k halts s h = ap (λ (o : Option (A × System S)). run_next o k) (halts s h)

  call-Keeps : (c : Call) → Keeps (call c)
  call-Keeps c s = inr (tt, record s { calls = c ∷ s.calls }, refl, refl)

  on_gui-Keeps : {A : Type 0} (f : Gui → Option (A × Gui)) → Keeps (on_gui f)
  on_gui-Keeps {A} f s =
      let put = λ (o : Option (A × Gui)). put_gui o s in
      elim (Option-cases (f s.gui)) [
        | inl e ↦ inl (ap put e)
        | inr ((a, g), e) ↦ inr (tt, record s { gui = g }, ap put e, refl)
      ]

  on_node-Keeps : {A : Type 0} (f : Node S → Option (A × Node S)) → Keeps (on_node f)
  on_node-Keeps {A} f s =
      let put = λ (o : Option (A × Node S)). put_node o s in
      elim (Option-cases (f s.node)) [
        | inl e ↦ inl (ap put e)
        | inr ((a, w), e) ↦ inr (tt, record s { node = w }, ap put e, refl)
      ]

  use_interface-Keeps : (display : Display) → Keeps (use_interface display)
  use_interface-Keeps display s =
      let test = λ (b : Bool). deref b s in
      elim (Bool-cases (display.interface s.gui)) [
        | inl up ↦ inr (tt, s, ap test up, refl)
        | inr down ↦ inl (ap test down)
      ]

  esp_flash_init-Keeps : (env : MainEnv) → Keeps (esp_flash_init env)
  esp_flash_init-Keeps env s = elim (Option-cases (esp_flash_init env s)) [
    | inl e ↦ inl e
    | inr ((a, t), e) ↦ inr (tt, t, e, ground (arith, esp_flash_init-erases env s t e))
  ]

  wait_connected-Halts : (bs : List Bool) → any_true bs ≡ false → Halts (wait_connected bs)
  unfolding wait_connected
  wait_connected-Halts [] n s h = refl
  wait_connected-Halts (true ∷ bs) n s h = absurd (cc)
  wait_connected-Halts (false ∷ bs) n s h =
      let u : System S = record s { calls = delay ∷ s.calls } in
      ap (λ (b : Bool). if b then some (tt {0}, s) else wait_connected bs u) h
      ∙ wait_connected-Halts bs n u h

  connect-Halts :
      (env : MainEnv) (display : Display) (bank : Bank S)
      → any_true env.connected ≡ false
      → Halts (connect env display bank)
  unfolding connect
  connect-Halts env display bank n = Halts-after _ _ (esp_flash_init-Keeps env) (
      Halts-after _ _ (on_gui-Keeps display.start_lcd) (
        Halts-after _ _ (on_gui-Keeps display.start_op) (
          Halts-after _ _ (call-Keeps sync_manager_init) (
            Halts-after _ _ (call-Keeps event_system_adapter_init) (
              Halts-after _ _ (on_node-Keeps (λ w. some (routine_handler_init env.node bank w))) (
                Halts-after _ _ (use_interface-Keeps display) (
                  Halts-after _ _ (on_gui-Keeps (display.inform system_booting none)) (
                    Halts-after _ _ (call-Keeps wifi_initialize) (
                      Halts-after _ _ (on_gui-Keeps (display.inform system_wifi_ap_scanning none))
                        (wait_connected-Halts env.connected n))))))))))

-- While wifi has not called back, and does not within the tests of the wait, the start does not get
-- to its idle loop, whatever the other parts answer and whichever display there is.
pub app_main-waits :
    {S : Type 0}
    → (env : MainEnv) (display : Display) (bank : Bank S) (s : System S) → s.proceed ≡ false
    → any_true env.connected ≡ false
    → app_main env display bank s ≡ none
unfolding app_main
app_main-waits env display bank s h n =
    Halts-first (connect env display bank) _ (connect-Halts env display bank n) s h
