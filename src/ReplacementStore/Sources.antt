-- ===== src/ReplacementStore/Sources.antt =====
-- Sources, by the positions of their cells.
use hxedit.Prelude.{arith, leb, refl, true, u64_max, u64_mod, ℕ, ◌+◌, ◌<◌, ◌≡◌, ◌≤◌}
use hxedit.Cells.{PieceSource, add, original, source_eq}
use hxedit.ReplacementStore.Order.{source_base}

-- A cell behind one of a source is of that source when it is not behind its last.
pub same-source :
    (u v : PieceSource) (start a : ℕ)
    → a < u64_mod
    → start < u64_mod
    → source_base u + start ≤ source_base v + a
    → source_eq v u ≡ leb (source_base v + a) (source_base u + u64_max)
same-source original original start a h k l = ground arith
same-source original add start a h k l = ground arith
same-source add original start a h k l = absurd (omega arith)
same-source add add start a h k l = ground arith

pub same-base : (u v : PieceSource) → source_eq v u ≡ true → source_base v ≡ source_base u
same-base original original h = refl
same-base add add h = refl
same-base original add h = cc
same-base add original h = cc
