-- ===== src/Lib.antt =====
-- hxedit, a terminal hex editor: the core of its document model.
--
-- A document displays a sequence of cells. A cell is a byte of the original file or of the buffer of
-- inserted bytes, and never changes its identity. Three layers decide what is shown:
--   * the piece table says which cells are displayed, in which order;
--   * the replacement store gives cells a byte other than their base byte;
--   * the set of tombstones marks cells as deleted in place.
--
-- Prelude          Names of the libraries, Boolean tests, lists and options over machine numbers.
-- Cells            src/core/piece_table.rs: cell ids and pieces.
-- PieceTable       src/core/piece_table.rs: the table and its operations; View has the list of cells
--                  that a table displays, Valid its invariant, and the other children the theorems
--                  on reading (Locate, Resolve, Range), on splitting, merging, inserting and
--                  deleting, and on undoing both (Undo).
-- CellMap          The ordered maps and sets (`BTreeMap`, `BTreeSet`) keyed by cell ids, as sorted
--                  association lists.
-- Replacement      src/core/document/replacement_store.rs: values of replacements and patches.
-- ReplacementStore src/core/document/replacement_store.rs: the store; Queries and Patches continue
--                  its operations. Cells has the theorems on single cells. Of those on ranges, Order
--                  has the invariant, Regions, Lookup and Insertion what taking out and putting in do to it,
--                  Sources, Touching and Keys the search for overlaps, Shifted, Cut, Window, Cleared and Written the
--                  trimming of ranges and what is read afterwards, Patched the patches, and
--                  SparseOrder the order of the replaced cells.
-- Outcome          src/error.rs: errors and results.
-- Document         src/core/document/mod.rs and read.rs: the state and the reads of a document; Byte
--                  has the edits of src/core/document/edit/byte.rs, Display what a document shows,
--                  Replaced, Spliced and Restored the theorems on edits in place, on edits of the
--                  layout and on undoing them;
--                  Overlaps has the parts of the pieces in a display range and the tests on them,
--                  Overlay the edits of ranges (edit/overwrite.rs, replacement.rs, transform.rs),
--                  Cleared, Covered and RangeTests their theorems;
--                  Walk has `walk_logical_chunks` (walk.rs), and below it Flags, Sparse, Chunk, Reads
--                  and Loop what it hands out;
--                  Visible has `walk_visible_cells`, `row_bytes` and `read_logical_range` (read.rs),
--                  Collected and Row what they read;
--                  Logical has `logical_bytes` and `logical_byte_count` (read.rs), Counted and Remote
--                  their theorems.
-- PageCache        src/core/page_cache.rs: the cache of file pages; Entries, Evict, Load, Slices,
--                  Read and Capacity have the theorems.
-- Save             src/core/save.rs: writing what is displayed to a writer.
-- Text             src/util/parse.rs and src/copy.rs: hexadecimal text; Hex, Groups and Pasted have
--                  the theorem that what is copied can be pasted.
-- Edit             src/exec/edit.rs: the edit operations that undo records hold; Inverse and
--                  Layout have the theorems on undoing, Guards, ReadOnly and FixedSize those on
--                  what is refused.
-- UndoStack        src/app/undo.rs: the two stacks, the cursor and the mode; Steps and Redo have
--                  theorems.
--
-- A function of the source keeps its name. A method that changes its object returns the new one. The
-- lengths and offsets are u64: an addition that the source saturates is saturated here, the
-- length of a table grows modulo 2^64, and theorems that need it assume room below 2^64. Loops over
-- pieces and cells are recursions on the list. Three loops have fuel: an eviction removes an entry in
-- each turn and has as many turns as there are entries, the batches of
-- `clear_replacements_in_display_range` clear a cell at least, with as many turns as cells,
-- and a walk over a piece reads a byte at least, with as many turns as bytes.
--
-- The bytes of the file are a list that a document carries; that reads through the cache of pages
-- return it is a theorem on the cache. Which reads fail is a field of the document too, the same
-- for as long as the document is not reloaded; what reads the file passes the failure on, the
-- theorem on `byte_at` says when it fails, and the others that need the bytes assume that no read
-- within the file fails. An unchecked addition wraps around, as in a release build; a debug build
-- panics there. Room that is only reserved is left out. Not modelled: the walks over segments and
-- backwards, search, commands, panels, the terminal, formats, disassembly, process memory and
-- remote files.
pub mod Prelude
pub mod Cells
pub mod PieceTable
pub mod CellMap
pub mod Replacement
pub mod ReplacementStore
pub mod Outcome
pub mod Document
pub mod Edit
pub mod PageCache
pub mod Save
pub mod Text
pub mod UndoStack
