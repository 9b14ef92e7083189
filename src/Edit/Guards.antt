-- ===== src/Edit/Guards.antt =====
-- What an operation that succeeds says of the guards before it.
use hxedit.Prelude.{Bool, false, if◌then◌else◌, leb, ltb, true, u64_mod, ℕ, ◌+◌, ◌≡◌}
use hxedit.Outcome.{HxError, HxResult, err, offset_out_of_range, ok, ◌>>=◌}
use hxedit.Document.{Document, doc_len}
use hxedit.Document.Overlay.{within}

-- What succeeds has passed its guard.
pub guarded :
    {A : Type 0} (b : Bool) (e : HxError) (k : HxResult A) (a : A)
    → (if b then err e else k) ≡ ok a
    → k ≡ ok a
guarded true e k a h = cc
guarded false e k a h = h

pub guarded_then :
    {A : Type 0} {B : Type 0} (b : Bool) (e : HxError) (k : HxResult A) (f : A → HxResult B) (a : B)
    → ((if b then err e else k) >>= f) ≡ ok a
    → (k >>= f) ≡ ok a
guarded_then true e k f a h = cc
guarded_then false e k f a h = h

pub within-ok :
    {A : Type 0} (offset len : ℕ) (d : Document) (r : HxResult A) (a : A)
    → within offset len d r ≡ ok a
    → r ≡ ok a
within-ok offset len d r a h = guarded (ltb (doc_len d) (offset + len)) offset_out_of_range r a (
    guarded (leb u64_mod (offset + len)) offset_out_of_range
      (if ltb (doc_len d) (offset + len) then err offset_out_of_range else r) a h)
