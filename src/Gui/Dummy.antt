-- ===== src/Gui/Dummy.antt =====
-- components/gui-component/src/gui_op_dummy.c and lcd_device_dummy.c: the display of a node without
-- one.
use gate_lock_home_node.Base.{Bool, true, Option, EspErr, esp_ok}
use gate_lock_home_node.Gui.Types.{Gui, GuiEvent, GuiEventData}

unfoldable pub dummy_get_interface : Gui → Bool
dummy_get_interface g = g.init

unfoldable pub dummy_inform : GuiEvent → Option GuiEventData → Gui → EspErr × Gui
dummy_inform event evt_data g = (esp_ok, g)

unfoldable pub dummy_op_init : Gui → EspErr × Gui
dummy_op_init g = (esp_ok, record g { init = true })

unfoldable pub dummy_lcd_init : Gui → EspErr × Gui
dummy_lcd_init g = (esp_ok, g)
