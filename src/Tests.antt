-- ===== src/Tests.antt =====
-- The theorems at concrete inputs. `Reference` is a small implementation of the operations of
-- xi-rope by edit scripts, which meets the laws that the theorems suppose.
mod Scripts
mod Making
mod Reference
mod Selections
mod Counts
mod Buffers
mod Files
mod Commands
mod Edits
mod Searching
mod Patterns
mod CommandLine
mod Views
mod Ropes
