-- ===== src/Document/Tests.antt =====
-- The theorems about documents at a file of four bytes with an insertion, a replaced byte and a
-- deleted one.
use hxedit.Prelude.{
  [], arith, drop, false, get_elem?, if◌then◌else◌, ltb, none, refl, some, take, ◌++◌, ◌+◌, ◌==◌,
  ◌∙◌, ◌∷◌, ◌≡◌,
}
use hxedit.Document.Display.{
  IsReadable, IsValid, base_of, byte_at_lem, display, failure_at, or_empty, slot,
}
use hxedit.Document.{Document, byte_at, deleted, is_dirty, present, unless_failed}
use hxedit.Document.Byte.{
  clear_tombstones, delete_range_real, insert_bytes, mark_tombstone, replace_display_byte,
  restore_real_delete,
}
use hxedit.Document.Replaced.{Shows, mark_tombstone_lem, replace_display_byte_lem}
use hxedit.Document.Spliced.{display-delete_range_real, display-insert_bytes, spliced_slots}
use hxedit.Outcome.{err, io, ok}
use hxedit.Cells.{CellId, add, cell, original, run}
use hxedit.CellMap.{contains, get, last_le}
use hxedit.PieceTable.View.{cells}
use hxedit.PieceTable.Undo.{SameTable}
use hxedit.PieceTable.Tests.{middle, middle-IsValid}
use hxedit.Replacement.{value}
use hxedit.ReplacementStore.{
  ReplacementStore, clear_cell, range_containing, replacement_at, set_cell,
}
use hxedit.ReplacementStore.Cells.{replacement_at-clear_cell, replacement_at-set_cell}
use hxedit.Document.Restored.{restore_real_delete-delete_range_real}
use hxedit.PieceTable

abbrev edits : ReplacementStore
edits = record { sparse = (cell original 0, value 9) ∷ []; ranges = [] }

abbrev pub notes : Document
notes = record {
  readonly = false;
  original_len = 4;
  fixed_size = false;
  view = 1 ∷ 2 ∷ 3 ∷ 4 ∷ [];
  read_failure = λ offset len. if ltb 4 (offset + len) then some io else none;
  pieces = middle;
  tombstones = cell original 3 ∷ [];
  replacements = edits;
}

pub notes-IsValid : IsValid notes
unfolding contains replacement_at get range_containing last_le
notes-IsValid = record {
  table = middle-IsValid;
  original = refl;
  fresh_tombstones = λ a h. refl;
  fresh_replacements = λ a b h. refl;
}

pub notes-IsReadable : IsReadable notes
notes-IsReadable offset len h = ground arith

shown :
    display notes ≡ present 9 ∷ present 2 ∷ present 0xaa ∷ present 0xbb ∷ present 3 ∷ deleted ∷ []
unfolding slot base_of run contains replacement_at get range_containing last_le
shown = refl

replacement_at-set_cell_example :
    replacement_at (set_cell (cell original 2) 7 edits) (cell original 0) 1 ≡ some 9
unfolding replacement_at get range_containing last_le
replacement_at-set_cell_example =
    replacement_at-set_cell (cell original 2) (cell original 0) 7 1 edits

replacement_at-clear_cell_example :
    replacement_at (clear_cell (cell original 0) edits) (cell original 0) 1 ≡ none
replacement_at-clear_cell_example =
    replacement_at-clear_cell (cell original 0) (cell original 0) 1 edits

-- The same document, where the byte 1 of the file cannot be read.
abbrev broken : Document
broken = record notes { read_failure = λ offset len. if offset == 1 then some io else none }

broken-IsValid : IsValid broken
unfolding contains replacement_at get range_containing last_le
broken-IsValid = record {
  table = middle-IsValid;
  original = refl;
  fresh_tombstones = λ a h. refl;
  fresh_replacements = λ a b h. refl;
}

byte_at_lem_example :
    byte_at broken 1
    ≡ unless_failed
        (failure_at broken (get_elem? (cells broken.pieces.pieces) 1))
        (or_empty (get_elem? (display broken) 1))
byte_at_lem_example = byte_at_lem broken 1 broken-IsValid

unreadable : byte_at broken 1 ≡ err io
unreadable = byte_at_lem broken 1 broken-IsValid ∙ (unfold run contains in refl)

replace_display_byte_lem_example :
    (d' : Document) × (replace_display_byte 3 7 notes ≡ ok (cell add 1, d'))
    × Shows (cell add 1) (present 7) notes d'
replace_display_byte_lem_example =
    replace_display_byte_lem 3 7 notes (cell add 1) notes-IsValid notes-IsReadable refl
      (unfold run in refl) (unfold contains in refl)

mark_tombstone_lem_example :
    (d' : Document) × (mark_tombstone 3 notes ≡ ok (some (cell add 1), d'))
    × Shows (cell add 1) deleted notes d'
    × ((j : CellId) → slot (clear_tombstones (cell add 1 ∷ []) d') j ≡ slot notes j)
mark_tombstone_lem_example =
    mark_tombstone_lem 3 notes (cell add 1) notes-IsValid refl refl (unfold run in refl)
      (unfold contains in refl)

display-insert_bytes_example :
    (d' : Document) × (insert_bytes 1 (5 ∷ 6 ∷ []) notes ≡ ok (run add 2 2, d'))
    × (display d' ≡ spliced_slots 1 (present 5 ∷ present 6 ∷ []) (display notes))
    × IsValid d'
display-insert_bytes_example =
    display-insert_bytes 1 (5 ∷ 6 ∷ []) notes notes-IsValid refl refl (omega arith) (omega arith)
      (omega arith)

display-delete_range_real_example :
    (d' : Document) × (delete_range_real 1 3 notes ≡ ok (take 3 (drop 1 (cells middle.pieces)), d'))
    × (display d' ≡ take 1 (display notes) ++ drop 4 (display notes))
    × IsValid d'
display-delete_range_real_example =
    display-delete_range_real 1 3 notes notes-IsValid refl refl (omega arith) (omega arith)

abbrev cut : Document
cut = record notes { pieces = (PieceTable.delete_range_real 1 3 middle).1 }

restore_real_delete-delete_range_real_example :
    (d'' : Document) × (restore_real_delete 1 (PieceTable.delete_range_real 1 3 middle).0 cut
      ≡ ok d'')
    × (display d'' ≡ display notes)
    × SameTable middle d''.pieces
    × (is_dirty d'' ≡ is_dirty notes)
restore_real_delete-delete_range_real_example =
    restore_real_delete-delete_range_real 1 3 notes cut (PieceTable.delete_range_real 1 3 middle).0
      notes-IsValid (omega arith) (unfold delete_range_real in refl)
