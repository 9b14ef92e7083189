-- ===== src/ReplacementStore/Shifted.antt =====
-- Values that start later in their pattern or bytes.
use hxedit.Prelude.{ap, arith, get_or, length, refl, sym, u64_max, ℕ, ◌%◌, ◌+◌, ◌∙◌, ◌≡◌, ◌≤◌}
use hxedit.Replacement.{
  RangeReplacement, bytes, pattern, shifted_phase, shifted_value, value_from, xor,
}
use native.Mathlib.Nat.{add-mod, mod-add-mod}
use Prim.Native.Nat.{◌%◌}

shifted_phase-shifted_phase :
    (phase delta local n : ℕ)
    → shifted_phase (shifted_phase phase delta n) local n ≡ shifted_phase phase (delta + local) n
shifted_phase-shifted_phase phase delta local n =
    sym (add-mod (shifted_phase phase delta n) local n)
    ∙ ap (λ x. (x + local) % n) (sym (add-mod phase delta n))
    ∙ mod-add-mod (phase + delta) n local
    ∙ ap (λ x. x % n) (omega arith)
    ∙ add-mod phase (delta + local) n

-- A value that starts later reads on as the whole value does.
pub value_from-shifted_value :
    (v : RangeReplacement) (delta local base : ℕ)
    → delta + local ≤ u64_max
    → value_from (shifted_value v delta) local base ≡ value_from v (delta + local) base
unfolding value_from shifted_value
value_from-shifted_value (xor key) delta local base h = refl
value_from-shifted_value (bytes bs phase) delta local base h =
    ap (λ i. get_or bs i base) (omega arith)
value_from-shifted_value (pattern bs phase) delta local base h =
    ap (λ i. get_or bs i 0) (shifted_phase-shifted_phase phase delta local (length bs))
