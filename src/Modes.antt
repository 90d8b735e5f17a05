-- ===== src/Modes.antt =====
-- src/modes: the modes of the editor. `Mode` has a constructor for each type that implements the
-- trait, with that type's fields; `transition` of a mode is in the child that has its name.
pub mod Defs
pub mod Normal
pub mod Insert
pub mod JumpTo
pub mod Replace
pub mod Pattern
pub mod Collapse
pub mod Split
pub mod Search
pub mod Commands
pub mod Command
pub mod Names
pub mod Dispatch
