-- ===== src/Main/Display.antt =====
-- include/lcd_device.h, include/gui_op.h and gui_interface.h of the display, as main/home-node.c
-- uses them: the functions, with the ones for a display and the ones for none.
pub mod Laws
use gate_lock_home_node.Base.{Bool, Option, some, EspErr}
use gate_lock_home_node.Gui.Types.{Gui, GuiEnv, GuiEvent, GuiEventData}
use gate_lock_home_node.Gui.Lcd.{LcdController, lcd_init}
use gate_lock_home_node.Gui.Op.{gui_op_init, gui_op_get_interface, gui_inform}
use gate_lock_home_node.Gui.Dummy.{dummy_lcd_init, dummy_op_init, dummy_get_interface, dummy_inform}

-- `none` is a reset. `interface` says whether `gui_op_get_interface` is not NULL.
pub record Display : Type 0 where
  pub start_lcd : Gui → Option (EspErr × Gui)
  pub start_op : Gui → Option (EspErr × Gui)
  pub interface : Gui → Bool
  pub inform : GuiEvent → Option GuiEventData → Gui → Option (EspErr × Gui)

abbrev pub lcd_display : GuiEnv → LcdController → Display
lcd_display env controller = record {
  start_lcd = lcd_init env controller;
  start_op = gui_op_init env;
  interface = gui_op_get_interface;
  inform = gui_inform;
}

abbrev pub no_display : Display
no_display = record {
  start_lcd = λ g. some (dummy_lcd_init g);
  start_op = λ g. some (dummy_op_init g);
  interface = dummy_get_interface;
  inform = λ e d g. some (dummy_inform e d g);
}
