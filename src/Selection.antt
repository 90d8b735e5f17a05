-- ===== src/Selection.antt =====
-- src/selection.rs: the regions of a buffer's selection (Region), the selection itself (Defs), and
-- what holds of them.
pub mod Region
pub mod Motion
pub mod Defs
pub mod Order
pub mod Marks
pub mod Main
pub mod Removal
pub mod Bounds
pub mod Points
pub mod Moves
pub mod Deleted
pub mod Apart
pub mod Inserted
pub mod Visible
pub mod Delta
