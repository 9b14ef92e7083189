-- ===== src/Text/Hex.antt =====
-- A byte written in two hexadecimal digits, and a group of them, read back.
use native.Mathlib.Nat.{mul-mod_left}
use hxedit.Prelude.{
  ==→≡, Bool, List, Option, [], ap, arith, false, length, ltb, lt→ltb, none, not, refl, some, suc,
  true, zero, ℕ, ≡→==, ◌%◌, ◌&&◌, ◌*◌, ◌/◌, ◌<◌, ◌==◌, ◌||◌, ◌∙◌, ◌∷◌, ◌≡◌,
}
use hxedit.Outcome.{ok}
use hxedit.CellMap.{is_nil}
use hxedit.Text.{
  as_bytes, byte_of, compacted, hex_byte, hex_digit, hex_group, is_separator, is_whitespace,
  parse_hex_bytes, parse_pairs, stripped, to_digit, utf8,
}
use Prim.Native.Nat.{◌%◌, ◌/◌}

-- Every value below a bound, by evaluation.
all_below : ℕ → (ℕ → Bool) → Bool
all_below zero p = true
all_below (suc n) p = p n && all_below n p

all_below-holds : (n : ℕ) (p : ℕ → Bool) (x : ℕ) → all_below n p ≡ true → x < n → p x ≡ true
unfolding all_below
all_below-holds zero p x h l = absurd (omega arith)
all_below-holds (suc n) p x h l = ground (arith, all_below-holds n p x)

option_is : Option ℕ → ℕ → Bool
option_is none n = false
option_is (some m) n = m == n

-- What is asked of a digit.
digit_ok : ℕ → Bool
digit_ok n =
    option_is (to_digit (hex_digit n)) n
    && not (is_whitespace (hex_digit n))
    && not (is_separator (hex_digit n))
    && ltb (hex_digit n) 0x80
    && not (hex_digit n == 120)
    && not (hex_digit n == 88)

digits_ok : all_below 16 digit_ok ≡ true
unfolding all_below digit_ok option_is to_digit hex_digit is_whitespace is_separator
digits_ok = refl

bytes_ok : all_below 256 (λ b. byte_of (b / 16) (b % 16) == b) ≡ true
unfolding all_below
bytes_ok = refl

-- A character that a hexadecimal text may have: no space, no separator, ASCII, and no `x`.
pub record IsPlain (c : ℕ) : Type 0 where
  pub solid : is_whitespace c ≡ false
  pub whole : is_separator c ≡ false
  pub ascii : c < 0x80
  pub lower_x : (c == 120) ≡ false
  pub upper_x : (c == 88) ≡ false

digit-facts :
    (n : ℕ) → n < 16 → (option_is (to_digit (hex_digit n)) n ≡ true) × IsPlain (hex_digit n)
unfolding digit_ok
digit-facts n h =
    let all = all_below-holds 16 digit_ok n digits_ok h in
    (
      ground arith,
      record {
        solid = ground arith;
        whole = ground arith;
        ascii = ground arith;
        lower_x = ground arith;
        upper_x = ground arith;
      },
    )

option_is-some : (o : Option ℕ) (n : ℕ) → option_is o n ≡ true → o ≡ some n
unfolding option_is
option_is-some none n h = cc
option_is-some (some m) n h = ap some (==→≡ m n h)

to_digit-hex_digit : (n : ℕ) → n < 16 → to_digit (hex_digit n) ≡ some n
to_digit-hex_digit n h = option_is-some _ n (digit-facts n h).0

byte_of-halves : (b : ℕ) → b < 256 → byte_of (b / 16) (b % 16) ≡ b
byte_of-halves b h =
    ==→≡ _ b (all_below-holds 256 (λ b. byte_of (b / 16) (b % 16) == b) b bytes_ok h)

unfoldable pub AllPlain : List ℕ → Type 0
AllPlain [] = Unit
AllPlain (c ∷ cs) = IsPlain c × AllPlain cs

unfoldable pub AllBytes : List ℕ → Type 0
AllBytes [] = Unit
AllBytes (b ∷ bs) = (b < 256) × AllBytes bs

pub hex_group-AllPlain : (bs : List ℕ) → AllBytes bs → AllPlain (hex_group bs)
unfolding AllBytes AllPlain hex_group hex_byte
hex_group-AllPlain [] h = tt
hex_group-AllPlain (b ∷ bs) (l, h) = (
  (digit-facts (b / 16) (omega arith)).1,
  ((digit-facts (b % 16) (omega arith)).1, hex_group-AllPlain bs h),
)

parse_pairs-hex_group : (bs : List ℕ) → AllBytes bs → parse_pairs (hex_group bs) ≡ ok bs
unfolding AllBytes parse_pairs hex_group hex_byte
parse_pairs-hex_group [] h = refl
parse_pairs-hex_group (b ∷ bs) (l, h) = rw (
  to_digit-hex_digit (b / 16) (omega arith),
  to_digit-hex_digit (b % 16) (omega arith),
  parse_pairs-hex_group bs h,
  byte_of-halves b l,
)

compacted-plain : (cs : List ℕ) → AllPlain cs → compacted cs ≡ cs
unfolding AllPlain compacted
compacted-plain [] h = refl
compacted-plain (c ∷ cs) (p, h) = rw p.solid (ap (c ∷◌) (compacted-plain cs h))

as_bytes-plain : (cs : List ℕ) → AllPlain cs → as_bytes cs ≡ cs
unfolding AllPlain as_bytes utf8
as_bytes-plain [] h = refl
as_bytes-plain (c ∷ cs) (p, h) = rw (lt→ltb c 0x80 p.ascii) (ap (c ∷◌) (as_bytes-plain cs h))

stripped-plain : (cs : List ℕ) → AllPlain cs → stripped cs ≡ cs
unfolding AllPlain stripped
stripped-plain [] h = refl
stripped-plain (a ∷ []) h = refl
stripped-plain (a ∷ b ∷ cs) (p, (q, h)) =
    let no_prefix : (a == 48 && (b == 120 || b == 88)) ≡ false =
      (rw (q.lower_x, q.upper_x) (ground arith)) in
    rw no_prefix

length-hex_group : (bs : List ℕ) → length (hex_group bs) ≡ length bs * 2
unfolding hex_group hex_byte
length-hex_group [] = refl
length-hex_group (b ∷ bs) = omega (arith, length-hex_group bs)

-- A group is read back, with or without the test for a prefix.
pub parse_hex_bytes-hex_group :
    (b : ℕ) (bs : List ℕ)
    → AllBytes (b ∷ bs)
    → parse_hex_bytes (stripped (hex_group (b ∷ bs))) ≡ ok (b ∷ bs)
unfolding parse_hex_bytes
parse_hex_bytes-hex_group b bs h =
    let g = hex_group (b ∷ bs) in
    let plain = hex_group-AllPlain (b ∷ bs) h in
    let even : (length g % 2 == 0) ≡ true =
      ≡→== (length g % 2) 0
        (ap (λ n. n % 2) (length-hex_group (b ∷ bs)) ∙ mul-mod_left (length (b ∷ bs)) 2) in
    let filled : is_nil g ≡ false = (unfold hex_group hex_byte in refl) in
    rw (stripped-plain g plain, compacted-plain g plain, filled, as_bytes-plain g plain, even)
      (parse_pairs-hex_group (b ∷ bs) h)
