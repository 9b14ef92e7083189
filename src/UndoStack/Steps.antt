-- ===== src/UndoStack/Steps.antt =====
-- What undo and redo do to the two stacks.
use hxedit.Prelude.{
  Bool, List, [], ap, drop, false, refl, subst, suc, sym, true, zero, ℕ, ◌∙◌, ◌∷◌, ◌≡◌,
}
use hxedit.Outcome.{HxResult, err, ok}
use hxedit.Document.{Document}
use hxedit.UndoStack.{
  App, UndoStep, next_step, settle, settled, undo, undo_one, undo_ops, undo_steps, undone,
}
use Prim.{Unit, tt}

-- The steps of a stack, laid on another one by one.
unfoldable pub moved : ℕ → List UndoStep → List UndoStep → List UndoStep
moved zero from to = to
moved (suc n) [] to = to
moved (suc n) (s ∷ from) to = moved n from (s ∷ to)

-- `b` is what `n` steps of undo make of the stacks of `a`.
record Undone (n : ℕ) (a b : App) : Type 0 where
  popped : b.undo_stack ≡ drop n a.undo_stack
  pushed : b.redo_stack ≡ moved n a.undo_stack a.redo_stack

undo_next :
    (n : ℕ) (m : Bool) (step : UndoStep) (rest : List UndoStep) (a b : App)
    (r : HxResult (Unit {0}) × Document)
    → ((a' : App) → undo_steps n m a' ≡ (ok tt, b) → Undone n a' b)
    → next_step r (record a { undo_stack = rest }) (λ d. undone m step rest d a) (undo_steps n m)
      ≡ (ok tt, b)
    → (b.undo_stack ≡ drop n rest) × (b.redo_stack ≡ moved n rest (step ∷ a.redo_stack))
undo_next n m step rest a b (err e, d) ih h = cc
undo_next n m step rest a b (ok _, d) ih h =
    let w = ih (undone m step rest d a) h in (w.popped, w.pushed)

undo_one-Undone :
    (n : ℕ) (m : Bool) (stack : List UndoStep) (a b : App)
    → ((a' : App) → undo_steps n m a' ≡ (ok tt, b) → Undone n a' b)
    → a.undo_stack ≡ stack
    → undo_one m stack a (undo_steps n m) ≡ (ok tt, b)
    → (b.undo_stack ≡ drop (suc n) stack) × (b.redo_stack ≡ moved (suc n) stack a.redo_stack)
unfolding moved
undo_one-Undone n m [] a b ih e h =
    let q : a ≡ b = (cc) in
    (ap (λ (x : App). x.undo_stack) (sym q) ∙ e, ap (λ (x : App). x.redo_stack) (sym q))
undo_one-Undone n m (step ∷ rest) a b ih e h =
    undo_next n m step rest a b (undo_ops step.ops a.document) ih h

undo_steps-Undone : (n : ℕ) (m : Bool) (a b : App) → undo_steps n m a ≡ (ok tt, b) → Undone n a b
unfolding undo_steps moved
undo_steps-Undone zero m a b h =
    let q : a ≡ b = (cc) in
    record {
      popped = ap (λ (x : App). x.undo_stack) (sym q);
      pushed = ap (λ (x : App). x.redo_stack) (sym q);
    }
undo_steps-Undone (suc n) m a b h =
    let w = undo_one-Undone n m a.undo_stack a b (λ a'. undo_steps-Undone n m a' b) refl h in
    record { popped = w.0; pushed = w.1 }

settle-stacks :
    (n : ℕ) (m : Bool) (a b : App) (r : HxResult (Unit {0}) × App)
    → ((c : App) → r ≡ (ok tt, c) → Undone n a c)
    → settle m r ≡ (ok tt, b)
    → Undone n a b
settle-stacks n m a b (err e, c) u h = cc
settle-stacks n true a b (ok _, c) u h = let q : c ≡ b = (cc) in subst (Undone n a) q (u c refl)
settle-stacks n false a b (ok _, c) u h =
    let q : settled false c ≡ b = (cc) in
    subst (Undone n a) q (record { popped = (u c refl).popped; pushed = (u c refl).pushed })

-- An `undo` that succeeds takes as many steps from the undo stack as asked for, or all of them if
-- there are fewer, and lays them on the redo stack in the order in which it undid them.
pub undo-stacks :
    (n : ℕ) (m : Bool) (a b : App)
    → undo n m a ≡ (ok tt, b)
    → (b.undo_stack ≡ drop n a.undo_stack) × (b.redo_stack ≡ moved n a.undo_stack a.redo_stack)
unfolding undo
undo-stacks n m a b h =
    let w = settle-stacks n m a b (undo_steps n m a) (λ c. undo_steps-Undone n m a c) h in
    (w.popped, w.pushed)
