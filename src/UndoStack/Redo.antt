-- ===== src/UndoStack/Redo.antt =====
-- What redo does to the two stacks, and redo behind undo.
use hxedit.Prelude.{
  Bool, List, [], ap, arith, drop, drop-append, false, length, refl, subst, suc, sym, true, zero, ℕ,
  ◌++◌, ◌+◌, ◌∙◌, ◌∷◌, ◌≡◌, ◌≤◌,
}
use hxedit.Outcome.{HxResult, err, ok}
use hxedit.Document.{Document}
use hxedit.UndoStack.{
  App, UndoStep, next_step, redo, redo_one, redo_ops, redo_steps, redone, settle, settled, undo,
}
use hxedit.UndoStack.Steps.{moved, undo-stacks}
use mathlib.Core.Path.{ap₂}
use Prim.{Unit, tt}

-- `b` is what `n` steps of redo make of the stacks of `a`.
record Redone (n : ℕ) (a b : App) : Type 0 where
  popped : b.redo_stack ≡ drop n a.redo_stack
  pushed : b.undo_stack ≡ moved n a.redo_stack a.undo_stack

redo_next :
    (n : ℕ) (m : Bool) (step : UndoStep) (rest : List UndoStep) (a b : App)
    (r : HxResult (Unit {0}) × Document)
    → ((a' : App) → redo_steps n m a' ≡ (ok tt, b) → Redone n a' b)
    → next_step r (record a { redo_stack = rest }) (λ d. redone m step rest d a) (redo_steps n m)
      ≡ (ok tt, b)
    → (b.redo_stack ≡ drop n rest) × (b.undo_stack ≡ moved n rest (step ∷ a.undo_stack))
redo_next n m step rest a b (err e, d) ih h = cc
redo_next n m step rest a b (ok _, d) ih h =
    let w = ih (redone m step rest d a) h in (w.popped, w.pushed)

redo_one-Redone :
    (n : ℕ) (m : Bool) (stack : List UndoStep) (a b : App)
    → ((a' : App) → redo_steps n m a' ≡ (ok tt, b) → Redone n a' b)
    → a.redo_stack ≡ stack
    → redo_one m stack a (redo_steps n m) ≡ (ok tt, b)
    → (b.redo_stack ≡ drop (suc n) stack) × (b.undo_stack ≡ moved (suc n) stack a.undo_stack)
unfolding moved
redo_one-Redone n m [] a b ih e h =
    let q : a ≡ b = (cc) in
    (ap (λ (x : App). x.redo_stack) (sym q) ∙ e, ap (λ (x : App). x.undo_stack) (sym q))
redo_one-Redone n m (step ∷ rest) a b ih e h =
    redo_next n m step rest a b (redo_ops step.ops a.document) ih h

redo_steps-Redone : (n : ℕ) (m : Bool) (a b : App) → redo_steps n m a ≡ (ok tt, b) → Redone n a b
unfolding redo_steps moved
redo_steps-Redone zero m a b h =
    let q : a ≡ b = (cc) in
    record {
      popped = ap (λ (x : App). x.redo_stack) (sym q);
      pushed = ap (λ (x : App). x.undo_stack) (sym q);
    }
redo_steps-Redone (suc n) m a b h =
    let w = redo_one-Redone n m a.redo_stack a b (λ a'. redo_steps-Redone n m a' b) refl h in
    record { popped = w.0; pushed = w.1 }

settle-Redone :
    (n : ℕ) (m : Bool) (a b : App) (r : HxResult (Unit {0}) × App)
    → ((c : App) → r ≡ (ok tt, c) → Redone n a c)
    → settle m r ≡ (ok tt, b)
    → Redone n a b
settle-Redone n m a b (err e, c) u h = cc
settle-Redone n true a b (ok _, c) u h = let q : c ≡ b = (cc) in subst (Redone n a) q (u c refl)
settle-Redone n false a b (ok _, c) u h =
    let q : settled false c ≡ b = (cc) in
    subst (Redone n a) q (record { popped = (u c refl).popped; pushed = (u c refl).pushed })

-- A `redo` that succeeds takes steps from the redo stack and lays them on the undo stack.
redo-stacks :
    (n : ℕ) (m : Bool) (a b : App)
    → redo n m a ≡ (ok tt, b)
    → (b.redo_stack ≡ drop n a.redo_stack) × (b.undo_stack ≡ moved n a.redo_stack a.undo_stack)
unfolding redo
redo-stacks n m a b h =
    let w = settle-Redone n m a b (redo_steps n m a) (λ c. redo_steps-Redone n m a c) h in
    (w.popped, w.pushed)

-- What has been laid on a stack is on top of it.
drop-moved :
    (n k : ℕ) (from s to : List UndoStep)
    → n ≤ length from
    → k ≡ n + length s
    → drop k (moved n from (s ++ to)) ≡ to
unfolding moved
drop-moved zero k from s to h e = drop-append s to k (omega arith)
drop-moved (suc n) k [] s to h e = absurd (omega arith)
drop-moved (suc n) k (x ∷ from) s to h e =
    drop-moved n k from (x ∷ s) to (omega arith) (omega arith)

-- Laying it back gives the first stack.
moved-moved :
    (n k : ℕ) (from s to : List UndoStep)
    → n ≤ length from
    → k ≡ n + length s
    → moved k (moved n from (s ++ to)) (drop n from) ≡ moved (length s) (s ++ to) from
unfolding moved
moved-moved zero k from s to h e =
    ap (λ i. moved i (s ++ to) from) {x = k} {y = length s} (omega arith)
moved-moved (suc n) k [] s to h e = absurd (omega arith)
moved-moved (suc n) k (x ∷ from) s to h e =
    moved-moved n k from (x ∷ s) to (omega arith) (omega arith)

-- Redoing as many steps as an undo has undone, where both succeed and there were as many, gives back
-- both stacks as they were before the undo.
pub redo-undo :
    (n : ℕ) (m m' : Bool) (a b c : App)
    → n ≤ length a.undo_stack
    → undo n m a ≡ (ok tt, b)
    → redo n m' b ≡ (ok tt, c)
    → (c.undo_stack ≡ a.undo_stack) × (c.redo_stack ≡ a.redo_stack)
unfolding moved
redo-undo n m m' a b c h u r =
    let (popped, pushed) = undo-stacks n m a b u in
    let (taken, laid) = redo-stacks n m' b c r in
    (
      laid
          ∙ ap₂ (moved n) pushed popped
          ∙ moved-moved n n a.undo_stack [] a.redo_stack h (omega arith),
      taken ∙ ap (drop n) pushed ∙ drop-moved n n a.undo_stack [] a.redo_stack h (omega arith),
    )
