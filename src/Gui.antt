-- ===== src/Gui.antt =====
-- components/gui-component: the display.
pub mod Types
pub mod Worker
pub mod Home
pub mod Op
pub mod Lcd
pub mod Dummy
