-- ===== src/Control.antt =====
-- The programs that control the data acquisition (src/BMDGui.h, src/BMDGui.cpp, tools/).
pub mod Gui
pub mod Remote
pub mod Commands
pub mod Launch
pub mod BackTrace
