-- ===== src/Cells.antt =====
-- src/core/piece_table.rs: the identities of bytes, and pieces as runs of them.
use hxedit.Prelude.{ℕ, zero, suc, ◌+◌, Bool, true, false, ◌&&◌, List, [], ◌∷◌, ◌==◌, if◌then◌else◌}

pub data PieceSource : Type 0 where
  original add : PieceSource

pub data CellId : Type 0 where
  cell : PieceSource → ℕ → CellId

abbrev pub from_source : PieceSource → ℕ → CellId
from_source source offset = cell source offset

abbrev pub source_eq : PieceSource → PieceSource → Bool
source_eq original original = true
source_eq add add = true
source_eq _ _ = false

pub record Piece : Type 0 where
  pub source : PieceSource
  pub start : ℕ
  pub len : ℕ

abbrev pub piece : PieceSource → ℕ → ℕ → Piece
piece s a n = record { source = s; start = a; len = n }

abbrev pub cell_source : CellId → PieceSource
cell_source (cell s a) = s

abbrev pub cell_offset : CellId → ℕ
cell_offset (cell s a) = a

-- The cells `source_start + idx` for `idx` in `0..n`.
unfoldable pub run : PieceSource → ℕ → ℕ → List CellId
run s a zero = []
run s a (suc n) = from_source s a ∷ run s (a + 1) n

-- `last.source == piece.source && last.start + last.len == piece.start`
abbrev pub is_mergeable : Piece → Piece → Bool
is_mergeable last p = source_eq last.source p.source && (last.start + last.len) == p.start

abbrev pub extended : Piece → Piece → Piece
extended last p = record last { len = last.len + p.len }

-- The body of the two merging loops: extend the last piece of `merged`, or push.
unfoldable pub push_piece : List Piece → Piece → List Piece
push_piece [] p = p ∷ []
push_piece (q ∷ []) p = if is_mergeable q p then extended q p ∷ [] else q ∷ p ∷ []
push_piece (q ∷ r ∷ qs) p = q ∷ push_piece (r ∷ qs) p

-- The loop of `cells_to_pieces`.
unfoldable pub cells_onto : List Piece → List CellId → List Piece
cells_onto out [] = out
cells_onto out (c ∷ cs) = cells_onto (push_piece out (piece (cell_source c) (cell_offset c) 1)) cs

abbrev pub cells_to_pieces : List CellId → List Piece
cells_to_pieces cs = cells_onto [] cs
