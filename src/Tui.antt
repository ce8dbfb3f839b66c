-- ===== src/Tui.antt =====
-- The terminal, crates/loreloom-tui: the editor of the input line and the state of the screen.
pub mod Editor
pub mod App
pub mod Examples
