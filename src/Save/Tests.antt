-- ===== src/Save/Tests.antt =====
-- Runs of a save, of reads and of a clearing, on a document with an overlay, a deletion and an
-- insertion, and of a read of a document without edits.
use hxedit.Prelude.{
  List, [], arith, drop, false, length, map, refl, take, true, u64_max, ℕ, ◌++◌, ◌∷◌, ◌≡◌, ◌≤◌,
}
use hxedit.Outcome.{HxResult, ok}
use hxedit.Replacement.{pattern, value, value_from}
use hxedit.Cells.{PieceSource, add, cell, original, run}
use hxedit.CellMap.{contains, get, last_le}
use hxedit.ReplacementStore.{ReplacementStore, no_replacements, range_containing, replacement_at}
use hxedit.ReplacementStore.Order.{Ordered}
use hxedit.ReplacementStore.Cleared.{IsDisjoint}
use hxedit.PieceTable.Tests.{middle-IsValid}
use hxedit.Document.{Document, is_dirty}
use hxedit.Document.Display.{base_of, display, slot}
use hxedit.Document.Tests.{notes, notes-IsReadable}
use hxedit.PieceTable.Valid.{limit, new-IsValid}
use hxedit.Document.Walk.Reads.{IsWalkable}
use hxedit.Document.Walk.Chunk.{present_bytes}
use hxedit.Save.{SaveProfile, write_pieces_to_writer}
use hxedit.Save.Written.{write_pieces_to_writer-display}
use hxedit.ReplacementStore.SparseOrder.{Sorted}
use hxedit.Document.Visible.{
  read_logical_range, resize, row_bytes, walk_cell_range, walk_visible_cells,
}
use hxedit.Document.Visible.Row.{read_logical_range-display, row_bytes-display, slot_or_zero}
use hxedit.Document.Logical.{logical_byte_count, logical_bytes}
use hxedit.Document.Logical.Counted.{
  bytes_between, logical_byte_count-display, logical_bytes-display,
}
use hxedit.PieceTable.{PieceTable, new}
use hxedit.Document.Cleared.{Blanks, clear_replacements_in_display_range_lem}
use hxedit.Document.Overlay.{clear_replacements_in_display_range}
use hxedit.PieceTable.View.{cells}
use hxedit.Document.Logical.Remote.{logical_bytes-remote}
use hxedit.PieceTable
use Prim.{tt}

abbrev overlaid : Document
overlaid = record notes {
  replacements = record {
    sparse = (cell original 0, value 9) ∷ [];
    ranges =
        (
          cell original 1,
          record { start = cell original 1; len = 2; value = pattern (5 ∷ 6 ∷ []) 0 },
        )
        ∷ [];
  };
}

middle-small : (s : PieceSource) → limit 4 2 s ≤ u64_max
middle-small original = omega arith
middle-small add = omega arith

overlaid-IsWalkable : IsWalkable overlaid
unfolding contains replacement_at get range_containing last_le IsDisjoint Ordered Sorted
overlaid-IsWalkable = record {
  valid = record {
    table = middle-IsValid;
    original = refl;
    fresh_tombstones = λ a h. refl;
    fresh_replacements = λ a b h. refl;
  };
  file = refl;
  readable = notes-IsReadable;
  ranges = (refl, omega arith, omega arith, omega arith, tt);
  sparse = (omega arith, omega arith, tt);
  small = middle-small;
}

abbrev append : List ℕ → List ℕ → HxResult (List ℕ)
append bs w = ok (w ++ bs)

-- The bytes that the file has afterwards.
saved : present_bytes (display overlaid) ≡ 9 ∷ 5 ∷ 0xaa ∷ 0xbb ∷ 6 ∷ []
unfolding slot base_of run contains replacement_at get range_containing last_le present_bytes
    value_from
saved = refl

write_pieces_to_writer-display_example :
    (p : SaveProfile) × (w' : List ℕ) × (write_pieces_to_writer append ok 4096 overlaid []
      ≡ ok (p, w'))
    × (w' ≡ present_bytes (display overlaid))
    × (p.bytes_written ≡ length (present_bytes (display overlaid)))
write_pieces_to_writer-display_example =
    write_pieces_to_writer-display append ok (λ w. w) (λ bs w. (w ++ bs, refl, refl))
      (λ w. (w, refl, refl)) 4096 overlaid [] overlaid-IsWalkable refl

row_bytes-display_example : row_bytes 4096 overlaid 4 3 ≡ ok (resize 3 (drop 4 (display overlaid)))
row_bytes-display_example = row_bytes-display 4096 overlaid 4 3 overlaid-IsWalkable (omega arith)

logical_byte_count-display_example :
    logical_byte_count 4096 overlaid 1 5 ≡ ok (length (bytes_between overlaid 1 5))
logical_byte_count-display_example =
    logical_byte_count-display 4096 overlaid 1 5 overlaid-IsWalkable

overlaid-is_dirty : is_dirty overlaid ≡ true
unfolding is_dirty PieceTable.is_identity
overlaid-is_dirty = refl

logical_bytes-display_example :
    logical_bytes true (λ _ _. ok []) 4096 overlaid 1 5 ≡ ok (bytes_between overlaid 1 5)
logical_bytes-display_example =
    logical_bytes-display true (λ _ _. ok []) 4096 overlaid 1 5 overlaid-IsWalkable
      overlaid-is_dirty

read_logical_range-display_example :
    read_logical_range 4096 overlaid 1 4
    ≡ ok (map slot_or_zero (take 4 (drop 1 (display overlaid))))
read_logical_range-display_example =
    read_logical_range-display 4096 overlaid 1 4 overlaid-IsWalkable (omega arith)

clear_replacements_in_display_range_lem_example :
    (s : ReplacementStore) × (clear_replacements_in_display_range 0 5 overlaid
      ≡ ok (record overlaid { replacements = s }))
    × Blanks (take 5 (drop 0 (cells overlaid.pieces.pieces))) overlaid.replacements s
clear_replacements_in_display_range_lem_example =
    clear_replacements_in_display_range_lem 0 5 overlaid overlaid-IsWalkable.valid
      overlaid-IsWalkable.ranges middle-small refl (omega arith)

-- The sum of the offset and the length wraps around to 0, and nothing is read.
wrapped : read_logical_range 4096 overlaid 1 u64_max ≡ ok []
unfolding read_logical_range walk_visible_cells walk_cell_range
wrapped = refl

abbrev untouched : Document
untouched = record notes { pieces = new 4; tombstones = []; replacements = no_replacements }

untouched-small : (s : PieceSource) → limit 4 0 s ≤ u64_max
untouched-small original = omega arith
untouched-small add = omega arith

untouched-IsWalkable : IsWalkable untouched
unfolding contains replacement_at get range_containing last_le IsDisjoint Ordered Sorted new
untouched-IsWalkable = record {
  valid = record {
    table = (new-IsValid 4 (omega arith)).0;
    original = refl;
    fresh_tombstones = λ a h. refl;
    fresh_replacements = λ a b h. refl;
  };
  file = refl;
  readable = notes-IsReadable;
  ranges = tt;
  sparse = tt;
  small = untouched-small;
}

untouched-is_dirty : is_dirty untouched ≡ false
unfolding is_dirty PieceTable.is_identity new
untouched-is_dirty = refl

logical_bytes-remote_example :
    logical_bytes true (λ offset len. ok (take len (drop offset notes.view))) 4096 untouched 1 9
    ≡ ok (bytes_between untouched 1 9)
logical_bytes-remote_example =
    logical_bytes-remote (λ offset len. ok (take len (drop offset notes.view))) 4096 untouched 1 9
      untouched-IsWalkable untouched-is_dirty (λ offset len h. refl)
