-- ===== src/Editor.antt =====
-- kernel/shell/editor.c: the shell's line editor, on any terminal.
pub mod Line
pub mod Terminal
pub mod Keys
pub mod Loops
pub mod Bounds
pub mod Safety
pub mod Typing
mod Tests
