-- ===== src/Edit/FixedSize.antt =====
-- What the guards of the edit operations promise of a document of a fixed size: it keeps its layout.
use hxedit.Prelude.{
  Bool, Bool-cases, List, [], false, if◌then◌else◌, inl, inr, length, min, none, not, refl, some,
  subst, suc, true, zero, ℕ, ◌+◌, ◌-◌, ◌==◌, ◌∷◌, ◌≡◌,
}
use hxedit.Outcome.{
  HxError, HxResult, command_error, err, fixed_size_violation, ok, read_only, ◌>>=◌,
}
use hxedit.Document.{Document, restore_replacement}
use hxedit.Document.Byte.{delete_range_real, mark_tombstones, restore_real_delete}
use hxedit.Document.Overlay.{
  CompactReplacementStats, clear_batches, clear_replacement_display_subrange,
  clear_replacements_in_display_range, overwrite_run_bytes_overlay, overwrite_run_pattern_overlay,
  patched, replacement_chunk, restore_replacement_patch_in_display_range, within,
  xor_visible_range_overlay,
}
use hxedit.Edit.{
  BulkReplacement, EditOp, ReplacementChange, after_of, apply_bulk_replacement, apply_edit_op,
  bulk_bytes, bulk_clear, bulk_of, bulk_pattern, bulk_xor, insert_op, real_delete_op,
  replace_bulk_op, replace_bytes_op, replace_patch_op, restore_changes, tombstone_delete_op,
}
use hxedit.CellMap.{is_nil}
use hxedit.ReplacementStore.{ReplacementStore, clear_cell, set_cell}
use hxedit.Replacement.{ReplacementPatch}
use hxedit.Edit.Guards.{guarded, guarded_then, within-ok}

-- The same bytes at the same places, deleted or not.
abbrev SameLayout : Document → Document → Type 0
SameLayout d d' = (d'.pieces ≡ d.pieces) × (d'.tombstones ≡ d.tombstones)

same_layout : (d e d' : Document) → SameLayout d e → ok e ≡ ok d' → SameLayout d d'
same_layout d e d' l h = let q : e ≡ d' = (cc) in subst (SameLayout d) q l

failed : (d d' : Document) (e : HxError) → err e ≡ ok d' → SameLayout d d'
failed d d' e h = absurd (let q : ok d' ≡ err e = (cc) in cc)

-- One of two documents with the layout.
either :
    (d e f d' : Document) (b : Bool)
    → SameLayout d e
    → SameLayout d f
    → (if b then ok e else ok f) ≡ ok d'
    → SameLayout d d'
either d e f d' true l m h = same_layout d e d' l h
either d e f d' false l m h = same_layout d f d' m h

abbrev drop_stats : HxResult (CompactReplacementStats × Document) → HxResult Document
drop_stats r = do x ← r; ok x.1

either_stats :
    (d f d' : Document) (b : Bool) (s t : CompactReplacementStats)
    → SameLayout d f
    → drop_stats (if b then ok (s, d) else ok (t, f)) ≡ ok d'
    → SameLayout d d'
either_stats d f d' true s t m h = same_layout d d d' (refl, refl) h
either_stats d f d' false s t m h = same_layout d f d' m h

either_bulk :
    (d d' : Document) (b : Bool) (k : HxResult Document)
    → (k ≡ ok d' → SameLayout d d')
    → (if b then ok d else k) ≡ ok d'
    → SameLayout d d'
either_bulk d d' true k m h = same_layout d d d' (refl, refl) h
either_bulk d d' false k m h = m h

clear_batches-SameLayout :
    (fuel offset left : ℕ) (d : Document) → SameLayout d (clear_batches fuel offset left d)
unfolding clear_batches clear_replacement_display_subrange
clear_batches-SameLayout zero offset left d = (refl, refl)
clear_batches-SameLayout (suc fuel) offset left d = elim (Bool-cases (left == 0)) [
  | inl c ↦ rw c (refl, refl)
  | inr c ↦ rw c (
      clear_batches-SameLayout fuel (offset + min left replacement_chunk)
        (left - min left replacement_chunk)
        (clear_replacement_display_subrange offset (min left replacement_chunk) d))
]

module _ (d d' : Document) where
  clear-SameLayout :
      (offset len : ℕ) → clear_replacements_in_display_range offset len d ≡ ok d' → SameLayout d d'
  unfolding clear_replacements_in_display_range
  clear-SameLayout offset len h =
      let cleared : Document = clear_batches len offset len d in
      either_bulk d d' (len == 0) (within offset len d (ok cleared))
        (λ k.
          same_layout d cleared d' (clear_batches-SameLayout len offset len d)
            (within-ok offset len d (ok cleared) d' k))
        (guarded d.readonly read_only (if len == 0 then ok d else within offset len d (ok cleared))
          d' h)

  -- An overlay changes the replacements alone.
  overlay-SameLayout :
      (b : Bool) (s t : CompactReplacementStats) (m : ReplacementStore)
      → drop_stats (
          if d.readonly
          then err read_only
          else if b
          then ok (s, d)
          else ok (t, record d { replacements = m }))
        ≡ ok d'
      → SameLayout d d'
  overlay-SameLayout b s t m h =
      let done : Document = record d { replacements = m } in
      either_stats d done d' b s t (refl, refl)
        (guarded_then d.readonly read_only (if b then ok (s, d) else ok (t, done)) (λ r. ok r.1) d'
          h)

  bulk_of-SameLayout :
      (offset len : ℕ) (b : BulkReplacement) → bulk_of offset len b d ≡ ok d' → SameLayout d d'
  unfolding overwrite_run_pattern_overlay overwrite_run_bytes_overlay xor_visible_range_overlay
  bulk_of-SameLayout offset len bulk_clear h = clear-SameLayout offset len h
  bulk_of-SameLayout offset len (bulk_pattern bs) h =
      either_bulk d d' (len == 0) _
        (λ k. overlay-SameLayout _ _ _ _ (guarded (is_nil bs) command_error _ d' k)) h
  bulk_of-SameLayout offset len (bulk_bytes bs) h =
      either_bulk d d' (len == 0) _
        (λ k. overlay-SameLayout _ _ _ _ (guarded (not (length bs == len)) command_error _ d' k)) h
  bulk_of-SameLayout offset len (bulk_xor key) h =
      either_bulk d d' (len == 0) _ (λ k. overlay-SameLayout _ _ _ _ k) h

changes-SameLayout :
    (cs : List ReplacementChange) (d d' : Document)
    → restore_changes after_of cs d ≡ ok d'
    → SameLayout d d'
unfolding restore_changes restore_replacement
changes-SameLayout [] d d' h = same_layout d d d' (refl, refl) h
changes-SameLayout (c ∷ cs) d d' h =
    let done : Document = record d {
      replacements = elim c.after [
        | some v ↦ set_cell c.id v d.replacements
        | none ↦ clear_cell c.id d.replacements
      ];
    } in
    let l =
      changes-SameLayout cs done d'
        (guarded_then d.readonly read_only (ok done) (restore_changes after_of cs) d' h) in
    l

patched-SameLayout :
    (d d' : Document) (patch : ReplacementPatch) (r : HxResult Document)
    → ((e : Document) → r ≡ ok e → SameLayout d e)
    → (r >>= λ e. ok (patched patch e)) ≡ ok d'
    → SameLayout d d'
patched-SameLayout d d' patch (err e) l h = failed d d' e h
patched-SameLayout d d' patch (ok e) l h = same_layout d (patched patch e) d' (l e refl) h

-- In a document of a fixed size, an edit operation that succeeds leaves the pieces and the tombstones
-- as they were: it has at most replaced bytes.
pub apply_edit_op-fixed_size :
    (op : EditOp) (d d' : Document)
    → d.fixed_size ≡ true
    → apply_edit_op op d ≡ ok d'
    → (d'.pieces ≡ d.pieces) × (d'.tombstones ≡ d.tombstones)
unfolding apply_edit_op delete_range_real restore_real_delete mark_tombstones apply_bulk_replacement
    restore_replacement_patch_in_display_range
apply_edit_op-fixed_size (insert_op offset cells) d d' f h =
    failed d d' fixed_size_violation (rw f at (guarded d.readonly read_only _ d' h))
apply_edit_op-fixed_size (real_delete_op offset cells) d d' f h =
    failed d d' fixed_size_violation
      (rw f at (guarded_then d.readonly read_only _ (λ r. ok r.1) d' h))
apply_edit_op-fixed_size (tombstone_delete_op ids) d d' f h =
    failed d d' fixed_size_violation (rw f at (guarded d.readonly read_only _ d' h))
apply_edit_op-fixed_size (replace_bytes_op changes) d d' f h = changes-SameLayout changes d d' h
apply_edit_op-fixed_size (replace_bulk_op offset len before after) d d' f h =
    bulk_of-SameLayout d d' offset len after
      (within-ok offset len d (bulk_of offset len after d) d' h)
apply_edit_op-fixed_size (replace_patch_op offset len before after) d d' f h =
    patched-SameLayout d d' after (clear_replacements_in_display_range offset len d)
      (λ e. clear-SameLayout d e offset len) h
