-- ===== src/Text/Tests.antt =====
-- Hexadecimal text, as in the tests of src/util/parse.rs.
use hxedit.Prelude.{[], arith, refl, ◌∷◌, ◌≡◌}
use hxedit.Outcome.{ok}
use hxedit.Text.{
  as_bytes, chunks, compacted, double_byte, format_raw, has_separator, hex_byte, hex_digit,
  hex_group, is_separator, is_whitespace, join, parse_hex_bytes, parse_hex_stream, parse_pairs,
  parse_tokens, split, stripped, to_digit, trim_end, trim_start, utf8,
}
use hxedit.Text.Hex.{AllBytes}
use hxedit.Text.Pasted.{parse_hex_stream-format_raw}
use Prim.{tt}

-- "0xde,0xad" and "de ad,be ef".
prefixed :
    parse_hex_stream (48 ∷ 120 ∷ 100 ∷ 101 ∷ 44 ∷ 48 ∷ 120 ∷ 97 ∷ 100 ∷ []) ≡ ok (0xde ∷ 0xad ∷ [])
unfolding parse_hex_stream trim_start trim_end has_separator split parse_tokens stripped
    parse_hex_bytes compacted as_bytes utf8 parse_pairs to_digit is_whitespace is_separator
prefixed = refl

separated :
    parse_hex_stream (100 ∷ 101 ∷ 32 ∷ 97 ∷ 100 ∷ 44 ∷ 98 ∷ 101 ∷ 32 ∷ 101 ∷ 102 ∷ [])
    ≡ ok (0xde ∷ 0xad ∷ 0xbe ∷ 0xef ∷ [])
unfolding parse_hex_stream trim_start trim_end has_separator split parse_tokens stripped
    parse_hex_bytes compacted as_bytes utf8 parse_pairs to_digit is_whitespace is_separator
separated = refl

-- "dead be".
copied :
    format_raw (0xde ∷ 0xad ∷ 0xbe ∷ []) double_byte ≡ 100 ∷ 101 ∷ 97 ∷ 100 ∷ 32 ∷ 98 ∷ 101 ∷ []
unfolding format_raw chunks hex_group hex_byte hex_digit join
copied = refl

parse_hex_stream-format_raw_example :
    parse_hex_stream (format_raw (0xde ∷ 0xad ∷ 0xbe ∷ []) double_byte)
    ≡ ok (0xde ∷ 0xad ∷ 0xbe ∷ [])
parse_hex_stream-format_raw_example =
    parse_hex_stream-format_raw 0xde (0xad ∷ 0xbe ∷ []) double_byte
      (unfold AllBytes in (omega arith, (omega arith, (omega arith, tt)))) (λ e. cc)
