-- ===== src/Lib.antt =====
-- Tofu is a modal hexadecimal editor for the terminal. This library models the selection, the text with
-- its history, the modes that turn keys into edits, the commands on files, and the view that draws the
-- text and hands the events on.
--
-- A buffer holds a text (a rope), a selection of one or more regions, registers, and a history of
-- deltas. A key goes to the current mode. Normal mode first offers it to the count that is being
-- typed, and then looks it up in its key map; the action moves the regions, or computes a delta with
-- one of the operations and applies it to the buffer. Applying a delta moves the regions along and
-- puts the delta on the undo stack; insert mode chains its deltas into one action, which is committed
-- when the mode ends. A mode answers a key with a transition. The view takes the transition: it changes
-- the mode, scrolls to the main cursor and queues the commands that draw what has changed; a key that
-- the mode does not take may scroll the view. A file is loaded in chunks: the first one at the start,
-- and others as the view comes to need them.
--
-- Files, with the code that they model:
--   Machine        usize and isize of 64 bits, which wrap around as in a release build
--   Keys           src/keymap.rs, and the key events of the crate crossterm
--   CmdCount       src/cmd_count.rs: State, transition, to_count
--   Selection      src/selection.rs. Region: SelRegion; Defs: Selection; Delta: apply_delta.
--                  The proofs: Order (sorted and apart), Marks (the main region), Bounds (within the
--                  buffer), Points, Motion and Moves (jumps and moves), Main, Removal, Visible, Deleted
--                  (along a deletion or replacement), Apart and Inserted (along an insertion)
--   Xi             the crate xi-rope, which is not in the repository: Xi has the operations that are
--                  called, XiLaws their documented laws, Changes what a delta of a builder does.
--                  Tests/Reference has an instance
--   History        src/history.rs, with Inverse on the inverse of an action
--   Operations     src/operations.rs. The proofs: Built (the loop over the regions), Places (edits byte by
--                  byte), Held (deletion, replace), Carets (insert)
--   Buffer         src/current_buffer.rs: CurrentBuffer. Files: load_next_chunk; Collection:
--                  BuffrCollection, with Switch; Text is on what undo and redo do to the
--                  text, Regions on map_selections
--   Modes          src/modes: Normal (normal.rs), Insert (insert.rs), JumpTo (jumpto.rs), Replace
--                  (replace.rs), Pattern with Matches and Search with Cursor (search.rs), Split
--                  with Width (split.rs), Collapse with Panic (collapse.rs); Search.Keys
--                  is on the keys of search mode, Normal.Moves on the moves, Normal.Deleting on `d`, Insert.Typing
--                  and Replace.Filling on typing; Defs has the modes and transitions of mode.rs. Commands (the
--                  commands of command.rs) with Saving and Written, Command (its command line)
--                  with Line and Keys, Names (name of each mode), Dispatch (Mode::transition)
--   ByteRope       src/byte_rope.rs, over a record for the trees of xi-rope; Slices is on its bytes
--   Style          src/hex_view/mod.rs, and the commands of crossterm that are queued
--   ByteProperties src/hex_view/byte_properties.rs. Chars: the characters; Decoding is on them
--   Printing       numbers and texts as the formatting of the standard library prints them
--   View           src/hex_view/view.rs: HexView. Marks: mark_commands; Rows: draw_row and the loops
--                  of draw_rows and draw; Chunks: what loads and trims; Prompt: render_with_size;
--                  StatusLine: draw_statusline; Offsets: where to scroll to; Scroll: draw_rows,
--                  draw, scroll_down, scroll_up; Events: transition, handle_event_default,
--                  run_event_loop. The proofs: Visible, Marked, Width, RestRows, Current,
--                  Drawn, Loop and Whole (draw_visible), Invalidated, Trimmed
--   Entry          src/bin/tofu.rs: main. Truncated is on a file that is saved at once
--   Prelude        lists, tests and integers that the files share
--   Tests          runs and concrete cases of the theorems; Scripts and Making are the deltas and the
--                  builder of Reference
--
-- A function that can panic returns Option, and none is the panic; where the source returns an Option
-- itself, the model has Option inside. A closure that mutates what it captures carries that state. A
-- mutable receiver is an argument and a result. Iteration over the regions is structural recursion, so
-- there is no fuel; the loops over matches and over the steps of a width have one step more than there
-- are bytes, and each takes a byte. Repeated loading of chunks has fuel for every byte left. The loop
-- over the visible rows has fuel for each row of the screen; that over the rest of the properties has
-- fuel for their five lines and the rows before the start of the view, and where it is spent, every
-- further row is below the screen and the source does not end. The chunks of a rope have fuel for each
-- leaf. A vector that is only pushed and popped at its end is a list with the end first; a hash map is
-- an association list or a function.
--
-- A selection is valid if its regions are sorted and do not overlap, and exactly the region at
-- main_selection is marked. A buffer is consistent if every action on its stacks fits the text that it
-- is for.
--
-- The file system, the height of the terminal, the debug form of a character, the trees of xi-rope and
-- the searches of jetscii and regex are arguments of what uses them. What is drawn is the list of the
-- commands that are queued, so an error in writing to the terminal does not occur.
--
-- Not modelled: the log (debug_log), the time that a drawing takes, MixedRepr of
-- src/hex_view/view.rs, which nothing uses, Display and Debug of the rope, and the arguments of the
-- process. The event loop takes the events that come as a list.
pub mod Prelude
pub mod Machine
pub mod Selection
mod Tests
pub mod Keys
pub mod CmdCount
pub mod Xi
pub mod ByteRope
pub mod History
pub mod Operations
pub mod Buffer
pub mod Printing
pub mod Modes
pub mod Style
pub mod ByteProperties
pub mod View
pub mod Entry
