-- ===== src/Commands.antt =====
-- The commands of the program and their dispatch: packages/frontend/src/commands.
pub mod Types
pub mod Navigating
pub mod Operating
pub mod Viewing
pub mod Serving
pub mod Registry
pub mod Keys
pub mod Bindings
pub mod Keyboard
pub mod Labels
pub mod Effects
pub mod Branches
pub mod Dispatch
pub mod Switch
pub mod Handled
pub mod Sorting
pub mod Shortcuts
pub mod Answering
mod Pressed
mod Runs
