-- ===== src/Gui.antt =====
-- crates/openlink-gui: the logic behind the controller's view.
pub mod Command
pub mod Received
pub mod Intents
pub mod Dialogues
pub mod Pending
pub mod Dcdu
pub mod Aircraft
