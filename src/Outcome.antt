-- ===== src/Outcome.antt =====
-- src/error.rs: the errors that the modelled operations return, and `HxResult`.
-- The texts and numbers that an error carries for its message are left out.
use hxedit.Prelude.{Option, none, some}

pub data HxError : Type 0 where
  io : HxError
  read_only offset_out_of_range empty_search fixed_size_violation : HxError
  invalid_offset invalid_paste_data invalid_hex_pattern command_error : HxError

pub data HxResult {ℓ} (A : Type ℓ) : Type ℓ where
  ok : A → HxResult A
  err : HxError → HxResult A

infixl 5 ◌>>=◌
abbrev pub ◌>>=◌ {ℓ κ} : {A : Type ℓ} {B : Type κ} → HxResult A → (A → HxResult B) → HxResult B
ok a >>= f = f a
err e >>= f = err e

-- `ok_or(error)`.
abbrev pub ok_or {ℓ} : {A : Type ℓ} → Option A → HxError → HxResult A
ok_or none e = err e
ok_or (some a) e = ok a
