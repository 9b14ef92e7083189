-- ===== src/Text.antt =====
-- src/util/parse.rs and src/copy.rs: bytes as hexadecimal text, parsed and printed. A text is the
-- list of its characters' code points.
pub mod Hex
pub mod Groups
pub mod Pasted
pub mod Tests
use hxedit.Prelude.{
  Bool, List, Option, [], false, if◌then◌else◌, leb, length, ltb, map, none, not, some, suc, zero,
  ℕ, ◌%◌, ◌&&◌, ◌*◌, ◌++◌, ◌+◌, ◌-◌, ◌/◌, ◌==◌, ◌||◌, ◌∷◌,
}
use hxedit.Outcome.{HxResult, empty_search, err, invalid_hex_pattern, ok, ok_or, ◌>>=◌}
use hxedit.CellMap.{is_nil}
use Prim.Native.Nat.{bit_or, ◌%◌, ◌/◌}

-- `char::is_whitespace`, Unicode's White_Space.
unfoldable pub is_whitespace : ℕ → Bool
is_whitespace c =
    (leb 9 c && leb c 13)
    || c == 32
    || c == 0x85
    || c == 0xa0
    || c == 0x1680
    || (leb 0x2000 c && leb c 0x200a)
    || c == 0x2028
    || c == 0x2029
    || c == 0x202f
    || c == 0x205f
    || c == 0x3000

-- `is_ascii_whitespace() || c == ','`
unfoldable pub is_separator : ℕ → Bool
is_separator c = c == 32 || c == 9 || c == 10 || c == 12 || c == 13 || c == 44

-- `to_digit(16)`
unfoldable pub to_digit : ℕ → Option ℕ
to_digit c =
    if leb 48 c && leb c 57
    then some (c - 48)
    else if leb 97 c && leb c 102
    then some (c - 87)
    else if leb 65 c && leb c 70
    then some (c - 55)
    else none

-- The UTF-8 bytes of a character.
unfoldable pub utf8 : ℕ → List ℕ
utf8 c =
    if ltb c 0x80
    then c ∷ []
    else if ltb c 0x800
    then (0xc0 + c / 64) ∷ (0x80 + c % 64) ∷ []
    else if ltb c 0x10000
    then (0xe0 + c / 4096) ∷ (0x80 + c / 64 % 64) ∷ (0x80 + c % 64) ∷ []
    else (0xf0 + c / 262144) ∷ (0x80 + c / 4096 % 64) ∷ (0x80 + c / 64 % 64) ∷ (0x80 + c % 64) ∷ []

unfoldable pub as_bytes : List ℕ → List ℕ
as_bytes [] = []
as_bytes (c ∷ cs) = utf8 c ++ as_bytes cs

-- `filter(|c| !c.is_whitespace())`
unfoldable pub compacted : List ℕ → List ℕ
compacted [] = []
compacted (c ∷ cs) = let rest = compacted cs in if is_whitespace c then rest else c ∷ rest

abbrev pub byte_of : ℕ → ℕ → ℕ
byte_of hi lo = bit_or (hi * 16) lo % 256

-- The loop over the pairs; the length is even, so the last chunk is a pair.
unfoldable pub parse_pairs : List ℕ → HxResult (List ℕ)
parse_pairs [] = ok []
parse_pairs (a ∷ []) = err invalid_hex_pattern
parse_pairs (a ∷ b ∷ cs) = do
  hi ← ok_or (to_digit a) invalid_hex_pattern
  lo ← ok_or (to_digit b) invalid_hex_pattern
  out ← parse_pairs cs
  ok (byte_of hi lo ∷ out)

unfoldable pub parse_hex_bytes : List ℕ → HxResult (List ℕ)
parse_hex_bytes input =
    let bytes = as_bytes (compacted input) in
    if is_nil (compacted input)
    then err empty_search
    else if not (length bytes % 2 == 0)
    then err invalid_hex_pattern
    else parse_pairs bytes

unfoldable pub trim_start : List ℕ → List ℕ
trim_start [] = []
trim_start (c ∷ cs) = let rest = trim_start cs in if is_whitespace c then rest else c ∷ cs

unfoldable pub trim_end : List ℕ → List ℕ
trim_end [] = []
trim_end (c ∷ cs) =
    let rest = trim_end cs in if is_nil rest && is_whitespace c then [] else c ∷ rest

abbrev pub trim : List ℕ → List ℕ
trim cs = trim_end (trim_start cs)

abbrev pub push_front : ℕ → List (List ℕ) → List (List ℕ)
push_front c [] = (c ∷ []) ∷ []
push_front c (t ∷ ts) = (c ∷ t) ∷ ts

-- `split(is_separator)`
unfoldable pub split : List ℕ → List (List ℕ)
split [] = [] ∷ []
split (c ∷ cs) = let rest = split cs in if is_separator c then [] ∷ rest else push_front c rest

-- `strip_prefix("0x").or_else(|| strip_prefix("0X")).unwrap_or(token)`
unfoldable pub stripped : List ℕ → List ℕ
stripped (a ∷ b ∷ cs) = if a == 48 && (b == 120 || b == 88) then cs else a ∷ b ∷ cs
stripped cs = cs

-- The loop over the tokens that are not empty.
unfoldable pub parse_tokens : List (List ℕ) → HxResult (List ℕ)
parse_tokens [] = ok []
parse_tokens ([] ∷ ts) = parse_tokens ts
parse_tokens ((c ∷ cs) ∷ ts) = do
  bytes ← parse_hex_bytes (stripped (c ∷ cs))
  out ← parse_tokens ts
  ok (bytes ++ out)

unfoldable pub has_separator : List ℕ → Bool
has_separator [] = false
has_separator (c ∷ cs) = is_separator c || has_separator cs

unfoldable pub parse_hex_stream : List ℕ → HxResult (List ℕ)
parse_hex_stream input =
    let trimmed = trim input in
    if is_nil trimmed
    then err invalid_hex_pattern
    else if has_separator trimmed
    then parse_tokens (split trimmed)
    else parse_hex_bytes (stripped trimmed)

pub data CopyFormat : Type 0 where
  binary byte double_byte quad_byte : CopyFormat

unfoldable pub group_size : CopyFormat → ℕ
group_size binary = 1
group_size byte = 1
group_size double_byte = 2
group_size quad_byte = 4

-- A digit, and `{byte:02x}`.
unfoldable pub hex_digit : ℕ → ℕ
hex_digit n = if ltb n 10 then 48 + n else 87 + n

unfoldable pub hex_byte : ℕ → List ℕ
hex_byte b = hex_digit (b / 16) ∷ hex_digit (b % 16) ∷ []

-- `{byte:08b}`
unfoldable pub binary_byte : ℕ → List ℕ
binary_byte b = map (λ k. 48 + b / k % 2) (128 ∷ 64 ∷ 32 ∷ 16 ∷ 8 ∷ 4 ∷ 2 ∷ 1 ∷ [])

unfoldable pub hex_group : List ℕ → List ℕ
hex_group [] = []
hex_group (b ∷ bs) = hex_byte b ++ hex_group bs

-- `join(" ")`
unfoldable pub join : List (List ℕ) → List ℕ
join [] = []
join (t ∷ []) = t
join (t ∷ u ∷ ts) = t ++ 32 ∷ join (u ∷ ts)

-- `chunks(suc n)`: `left` bytes still belong to the chunk.
unfoldable pub chunks : ℕ → ℕ → List ℕ → List (List ℕ)
chunks n left [] = []
chunks n zero (b ∷ []) = (b ∷ []) ∷ []
chunks n zero (b ∷ c ∷ bs) = (b ∷ []) ∷ chunks n n (c ∷ bs)
chunks n (suc left) (b ∷ []) = (b ∷ []) ∷ []
chunks n (suc left) (b ∷ c ∷ bs) = push_front b (chunks n left (c ∷ bs))

unfoldable pub format_raw : List ℕ → CopyFormat → List ℕ
format_raw bs binary = join (map binary_byte bs)
format_raw bs byte = join (map hex_byte bs)
format_raw bs double_byte = join (map hex_group (chunks 1 1 bs))
format_raw bs quad_byte = join (map hex_group (chunks 3 3 bs))
