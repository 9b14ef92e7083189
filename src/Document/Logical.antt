-- ===== src/Document/Logical.antt =====
-- src/core/document/read.rs: `logical_bytes` and `logical_byte_count`, which gather and count the
-- bytes of a range on the walk over logical chunks. Whether the file is remote is a parameter, and
-- so is `read_remote_direct`, which takes an offset and a length.
pub mod Counted
pub mod Remote
use hxedit.Prelude.{
  Bool, List, Option, [], if◌then◌else◌, leb, length, ltb, min, none, not, some, ℕ, ◌++◌, ◌+◌, ◌-◌,
  ◌==◌, ◌||◌,
}
use hxedit.Outcome.{HxResult, ok, ◌>>=◌}
use hxedit.Document.{Document, doc_len, is_dirty}
use hxedit.Document.Walk.{WalkControl, continue, walk_logical_chunks}

abbrev pub logical_chunk : ℕ
logical_chunk = 65536

unfoldable pub clean_remote_original_range : Bool → Document → ℕ → ℕ → Option (ℕ × ℕ)
clean_remote_original_range is_remote d start end_inclusive =
    if not is_remote || is_dirty d
    then none
    else if doc_len d == 0 || ltb end_inclusive start || leb (doc_len d) start
    then none
    else some (start, min end_inclusive (doc_len d - 1))

unfoldable pub collect_bytes : List ℕ → List ℕ → HxResult (WalkControl × List ℕ)
collect_bytes bytes out = ok (continue, out ++ bytes)

unfoldable pub walked_bytes : ℕ → Document → ℕ → ℕ → HxResult (List ℕ)
walked_bytes max_read d start end = do
  r ← walk_logical_chunks collect_bytes max_read logical_chunk d start end []
  ok r.2

unfoldable pub logical_bytes :
    Bool → (ℕ → ℕ → HxResult (List ℕ)) → ℕ → Document → ℕ → ℕ → HxResult (List ℕ)
logical_bytes is_remote read_remote_direct max_read d start end_inclusive =
    let end = min end_inclusive (doc_len d - 1) in
    if doc_len d == 0 || ltb end_inclusive start || leb (doc_len d) start
    then ok []
    else elim (clean_remote_original_range is_remote d start end) [
      | none ↦ walked_bytes max_read d start end
      | some r ↦ read_remote_direct r.0 (r.1 - r.0 + 1)
    ]

unfoldable pub count_bytes : List ℕ → ℕ → HxResult (WalkControl × ℕ)
count_bytes bytes count = ok (continue, count + length bytes)

unfoldable pub logical_byte_count : ℕ → Document → ℕ → ℕ → HxResult ℕ
logical_byte_count max_read d start end_inclusive =
    if doc_len d == 0 || ltb end_inclusive start || leb (doc_len d) start then ok 0 else (do
      r ← walk_logical_chunks count_bytes max_read logical_chunk d start end_inclusive 0
      ok r.2)
