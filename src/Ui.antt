-- ===== src/Ui.antt =====
-- The user interface: src/ui.
pub mod Event
pub mod View
pub mod Display
mod Tests
