-- ===== src/Document/Overlay.antt =====
-- src/core/document/edit/overwrite.rs, replacement.rs and transform.rs: the edits that lay a pattern,
-- bytes or a XOR over a display range, clear the replacements in one, and take and put back patches.
-- `end` is checked against the overflow of u64 first, where the source does so.
use hxedit.Prelude.{
  List, [], if◌then◌else◌, leb, length, ltb, min, suc, u64_mod, zero, ℕ, ◌%◌, ◌+◌, ◌-◌, ◌==◌, ◌||◌,
  ◌∷◌,
}
use hxedit.Outcome.{HxResult, err, offset_out_of_range, ok, read_only, ◌>>=◌}
use hxedit.Cells.{CellId}
use hxedit.CellMap.{is_nil}
use hxedit.Replacement.{ReplacementPatch, empty_patch, extend}
use hxedit.ReplacementStore.{
  ReplacementStore, clear_source_range, set_bytes_range, set_pattern_range, set_xor_range,
}
use hxedit.ReplacementStore.Patches.{apply_patch, patch_for_source_range}
use hxedit.Document.{Document, doc_len}
use hxedit.Document.Byte.{replace_display_byte}
use hxedit.Document.Overlaps.{Overlap, display_overlaps}
use Prim.{Unit, tt}

pub record CompactReplacementStats : Type 0 where
  pub visited : ℕ
  pub changed : ℕ

abbrev pub replacement_chunk : ℕ
replacement_chunk = 65536

visited_cells : List Overlap → ℕ
visited_cells [] = 0
visited_cells (o ∷ os) = o.len + visited_cells os

unfoldable pub overlay_stats : List Overlap → CompactReplacementStats
unfolding visited_cells
overlay_stats os = record { visited = visited_cells os; changed = visited_cells os }

abbrev nothing : CompactReplacementStats
nothing = record { visited = 0; changed = 0 }

unfoldable pub set_patterns : List ℕ → List Overlap → ReplacementStore → ReplacementStore
set_patterns bs [] s = s
set_patterns bs (o ∷ os) s =
    set_patterns bs os (set_pattern_range o.source o.start o.len bs (o.distance % length bs) s)

unfoldable pub overwrite_run_pattern_overlay :
    ℕ → ℕ → List ℕ → Document → HxResult (CompactReplacementStats × Document)
overwrite_run_pattern_overlay offset run_len bs d =
    let applied = min run_len (doc_len d - offset) in
    let segments = display_overlaps d offset (offset + applied) in
    if d.readonly
    then err read_only
    else if is_nil bs || run_len == 0 || leb (doc_len d) offset
    then ok (nothing, d)
    else ok (
      overlay_stats segments,
      record d { replacements = set_patterns bs segments d.replacements },
    )

unfoldable pub set_bytes : List ℕ → List Overlap → ReplacementStore → ReplacementStore
set_bytes bs [] s = s
set_bytes bs (o ∷ os) s = set_bytes bs os (set_bytes_range o.source o.start o.len bs o.distance s)

unfoldable pub overwrite_run_bytes_overlay :
    ℕ → List ℕ → Document → HxResult (CompactReplacementStats × Document)
overwrite_run_bytes_overlay offset bs d =
    let applied = min (length bs) (doc_len d - offset) in
    let segments = display_overlaps d offset (offset + applied) in
    if d.readonly
    then err read_only
    else if is_nil bs || leb (doc_len d) offset
    then ok (nothing, d)
    else ok
        (overlay_stats segments, record d { replacements = set_bytes bs segments d.replacements })

unfoldable pub set_xors : ℕ → List Overlap → ReplacementStore → ReplacementStore
set_xors key [] s = s
set_xors key (o ∷ os) s = set_xors key os (set_xor_range o.source o.start o.len key s)

unfoldable pub xor_visible_range_overlay :
    ℕ → ℕ → ℕ → Document → HxResult (CompactReplacementStats × Document)
xor_visible_range_overlay start end_inclusive key d =
    let segments = display_overlaps d start (min end_inclusive (doc_len d - 1) + 1) in
    if d.readonly
    then err read_only
    else if key == 0 || doc_len d == 0 || ltb end_inclusive start || leb (doc_len d) start
    then ok (nothing, d)
    else ok
        (overlay_stats segments, record d { replacements = set_xors key segments d.replacements })

-- `checked_add(len)` and the test behind it.
abbrev pub within {ℓ} : {A : Type ℓ} → ℕ → ℕ → Document → HxResult A → HxResult A
within offset len d r =
    if leb u64_mod (offset + len)
    then err offset_out_of_range
    else if ltb (doc_len d) (offset + len)
    then err offset_out_of_range
    else r

unfoldable pub patch_overlaps : ReplacementStore → List Overlap → ReplacementPatch
patch_overlaps s [] = empty_patch
patch_overlaps s (o ∷ os) =
    extend (patch_for_source_range s o.source o.start o.len) (patch_overlaps s os)

unfoldable pub replacement_patch_for_display_range : Document → ℕ → ℕ → HxResult ReplacementPatch
replacement_patch_for_display_range d offset len =
    if len == 0
    then ok empty_patch
    else within offset len d
        (ok (patch_overlaps d.replacements (display_overlaps d offset (offset + len))))

unfoldable pub clear_overlaps : List Overlap → ReplacementStore → ReplacementStore
clear_overlaps [] s = s
clear_overlaps (o ∷ os) s = clear_overlaps os (clear_source_range o.source o.start o.len s)

unfoldable pub clear_replacement_display_subrange : ℕ → ℕ → Document → Document
clear_replacement_display_subrange offset len d = record d {
  replacements = clear_overlaps (display_overlaps d offset (offset + len)) d.replacements;
}

-- The loop of `clear_replacements_in_display_range`, with what is left to clear. Each turn clears at
-- least one cell, so the length is fuel enough.
unfoldable pub clear_batches : ℕ → ℕ → ℕ → Document → Document
clear_batches zero offset left d = d
clear_batches (suc fuel) offset left d =
    let batch = min left replacement_chunk in
    let rest =
      clear_batches fuel (offset + batch) (left - batch)
        (clear_replacement_display_subrange offset batch d) in
    if left == 0 then d else rest

unfoldable pub clear_replacements_in_display_range : ℕ → ℕ → Document → HxResult Document
clear_replacements_in_display_range offset len d =
    if d.readonly
    then err read_only
    else if len == 0
    then ok d
    else within offset len d (ok (clear_batches len offset len d))

abbrev pub patched : ReplacementPatch → Document → Document
patched patch d = record d { replacements = apply_patch patch d.replacements }

unfoldable pub restore_replacement_patch_in_display_range :
    ℕ → ℕ → ReplacementPatch → Document → HxResult Document
restore_replacement_patch_in_display_range offset len patch d = do
  d' ← clear_replacements_in_display_range offset len d
  ok (patched patch d')

-- One span of `apply_replacement_spans`, from its byte `index` on. A byte that fails leaves those
-- before it written.
unfoldable pub apply_span : ℕ → List ℕ → Document → HxResult (Unit {0}) × Document
apply_span target [] d = (ok tt, d)
apply_span target (v ∷ vs) d =
    let next : HxResult (CellId × Document) → HxResult (Unit {0}) × Document =
      λ r. elim r [ err e ↦ (err e, d) | ok w ↦ apply_span (target + 1) vs w.1 ] in
    if leb u64_mod target || leb (doc_len d) target
    then (err offset_out_of_range, d)
    else next (replace_display_byte target v d)

abbrev then_spans :
    HxResult (Unit {0}) × Document
    → (Document → HxResult (Unit {0}) × Document)
    → HxResult (Unit {0}) × Document
then_spans (err e, d) next = (err e, d)
then_spans (ok _, d) next = next d

unfoldable pub apply_spans : List (ℕ × List ℕ) → Document → HxResult (Unit {0}) × Document
apply_spans [] d = (ok tt, d)
apply_spans ((offset, bs) ∷ spans) d = then_spans (apply_span offset bs d) (apply_spans spans)

unfoldable pub apply_replacement_spans :
    List (ℕ × List ℕ) → Document → HxResult (Unit {0}) × Document
apply_replacement_spans spans d = if d.readonly then (err read_only, d) else apply_spans spans d
