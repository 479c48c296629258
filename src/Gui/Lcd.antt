-- ===== src/Gui/Lcd.antt =====
-- components/gui-component/src/lcd_device.c: the display's controller, LVGL and the home screen.
pub mod Ready
use gate_lock_home_node.Base.{
  ℕ, true, Option, none, some, List, [], ◌∷◌, ◌*◌, EspErr, esp_ok, is_ok, if◌then◌else◌,
}
use gate_lock_home_node.Gui.Types.{
  Gui, GuiEnv, Call, i2c_new_master_bus, new_panel_io_i2c, new_panel_ssd1306, new_panel_sh1107,
  panel_reset, panel_init, panel_disp_on_off, panel_invert_color, lvgl_port_init,
  lvgl_port_add_disp, made,
}
use gate_lock_home_node.Gui.Worker.{ui_worker_init}
use gate_lock_home_node.Gui.Home.{ui_home_init}

-- CONFIG_LCD_CONTROLLER_…, with CONFIG_SSD1306_HEIGHT.
pub data LcdController : Type 0 where
  ssd1306 : ℕ → LcdController
  sh1107 : LcdController

unfoldable pub lcd_h_res : LcdController → ℕ
lcd_h_res (ssd1306 height) = 128
lcd_h_res sh1107 = 64

unfoldable pub lcd_v_res : LcdController → ℕ
lcd_v_res (ssd1306 height) = height
lcd_v_res sh1107 = 128

-- The calls under ESP_ERROR_CHECK, in their order.
unfoldable pub checked_calls : LcdController → List Call
checked_calls (ssd1306 height) =
    i2c_new_master_bus
    ∷ new_panel_io_i2c
    ∷ new_panel_ssd1306
    ∷ panel_reset
    ∷ panel_init
    ∷ panel_disp_on_off true
    ∷ []
checked_calls sh1107 =
    i2c_new_master_bus
    ∷ new_panel_io_i2c
    ∷ new_panel_sh1107
    ∷ panel_reset
    ∷ panel_init
    ∷ panel_disp_on_off true
    ∷ panel_invert_color true
    ∷ []

module _ (env : GuiEnv) where
  -- `none` is the abort of ESP_ERROR_CHECK.
  unfoldable pub check_calls : List Call → Gui → Option Gui
  check_calls [] g = some g
  check_calls (c ∷ cs) g =
      if is_ok (env.driver_result g.calls c) then check_calls cs (made c g) else none

  abbrev pub show_home : Option Gui → Option (EspErr × Gui)
  show_home none = none
  show_home (some g) = some (esp_ok, ui_home_init env g)

  abbrev pub start_ui : LcdController → Option Gui → Option (EspErr × Gui)
  start_ui controller none = none
  start_ui controller (some g) =
      let h : ℕ = lcd_h_res controller in
      let v : ℕ = lcd_v_res controller in
      show_home (ui_worker_init env (made (lvgl_port_add_disp (h * v) h v) (made lvgl_port_init g)))

  -- The results of `lvgl_port_init` and `lvgl_port_add_disp` are not looked at.
  unfoldable pub lcd_init : LcdController → Gui → Option (EspErr × Gui)
  unfolding check_calls checked_calls lcd_h_res lcd_v_res
  lcd_init controller g = start_ui controller (check_calls (checked_calls controller) g)
