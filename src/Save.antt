-- ===== src/Save.antt =====
-- src/core/save.rs: `write_pieces_to_writer`, which writes what a document displays to a writer. The
-- writer, its `write_all` and its `flush` are parameters; `max_read` is what `max_contiguous_read_len`
-- returns. The time that a save takes is left out.
pub mod Written
pub mod Tests
use hxedit.Prelude.{List, if◌then◌else◌, length, ℕ, ◌+◌, ◌-◌}
use hxedit.Outcome.{HxResult, ok, ◌>>=◌}
use hxedit.CellMap.{is_nil}
use hxedit.Document.{Document, doc_len}
use hxedit.Document.Walk.{Progress, WalkControl, WalkStats, continue, walk_logical_chunks}

pub record SaveProfile : Type 0 where
  pub bytes_written : ℕ
  pub pieces : ℕ
  pub chunks_read : ℕ
  pub fast_chunks : ℕ
  pub slow_chunks : ℕ

abbrev pub chunk : ℕ
chunk = 65536

module _ {W : Type 0} (write_all : List ℕ → W → HxResult W) (flush : W → HxResult W)
    (max_read : ℕ) where
  -- The visitor: the writer, and the bytes written so far.
  unfoldable pub write_chunk : List ℕ → W × ℕ → HxResult (WalkControl × (W × ℕ))
  write_chunk bytes s =
      let written : HxResult (WalkControl × (W × ℕ)) = do
        w ← write_all bytes s.0
        ok (continue, (w, s.1 + length bytes))
      in if is_nil bytes then ok (continue, s) else written

  abbrev pub profile_of : WalkStats → ℕ → SaveProfile
  profile_of stats bytes_written = record {
    bytes_written = bytes_written;
    pieces = stats.pieces;
    chunks_read = stats.chunks;
    fast_chunks = stats.fast_chunks;
    slow_chunks = stats.slow_chunks;
  }

  abbrev pub finished : Progress (W × ℕ) → HxResult (SaveProfile × W)
  finished (control, stats, (w, n)) = do w' ← flush w; ok (profile_of stats n, w')

  unfoldable pub write_pieces_to_writer : Document → W → HxResult (SaveProfile × W)
  write_pieces_to_writer d w = do
    r ← walk_logical_chunks write_chunk max_read chunk d 0 (doc_len d - 1) (w, 0)
    finished r
