-- ===== src/Text/Pasted.antt =====
-- Bytes copied as hexadecimal text and pasted again.
use hxedit.Prelude.{
  List, [], ap, append-nil, false, map, refl, suc, sym, true, zero, ℕ, ◌++◌, ◌<◌, ◌∙◌, ◌∷◌, ◌≡◌,
}
use hxedit.Outcome.{ok}
use hxedit.CellMap.{is_nil}
use hxedit.Text.{
  CopyFormat, binary, byte, chunks, double_byte, format_raw, has_separator, hex_byte, hex_group,
  join, parse_hex_bytes, parse_hex_stream, parse_tokens, push_front, quad_byte, stripped, trim,
}
use hxedit.Text.Hex.{AllBytes, hex_group-AllPlain, parse_hex_bytes-hex_group}
use hxedit.Text.Groups.{
  AllGroups, has_separator-append, has_separator-plain, join-filled, split-join, trim-join,
}
use Prim.{Unit, tt}

-- Groups of bytes that are not empty.
unfoldable pub AllChunks : List (List ℕ) → Type 0
AllChunks [] = Unit
AllChunks (g ∷ gs) = (AllBytes g × (is_nil g ≡ false)) × AllChunks gs

unfoldable pub flat : List (List ℕ) → List ℕ
flat [] = []
flat (g ∷ gs) = g ++ flat gs

group-filled : (b : ℕ) (bs : List ℕ) → is_nil (hex_group (b ∷ bs)) ≡ false
unfolding hex_group hex_byte
group-filled b bs = refl

printed-AllGroups : (gs : List (List ℕ)) → AllChunks gs → AllGroups (map hex_group gs)
unfolding AllChunks AllGroups
printed-AllGroups [] h = tt
printed-AllGroups ([] ∷ gs) ((p, e), h) = absurd (let q : true ≡ false = e in cc)
printed-AllGroups ((b ∷ bs) ∷ gs) ((p, e), h) =
    ((hex_group-AllPlain (b ∷ bs) p, group-filled b bs), printed-AllGroups gs h)

parse_tokens-front :
    (t : List ℕ) (ts : List (List ℕ)) (bytes out : List ℕ)
    → is_nil t ≡ false
    → parse_hex_bytes (stripped t) ≡ ok bytes
    → parse_tokens ts ≡ ok out
    → parse_tokens (t ∷ ts) ≡ ok (bytes ++ out)
unfolding parse_tokens
parse_tokens-front [] ts bytes out n e f = cc
parse_tokens-front (c ∷ cs) ts bytes out n e f = rw (e, f)

parse_tokens-printed :
    (gs : List (List ℕ)) → AllChunks gs → parse_tokens (map hex_group gs) ≡ ok (flat gs)
unfolding AllChunks flat
parse_tokens-printed [] h = unfold parse_tokens in refl
parse_tokens-printed ([] ∷ gs) ((p, e), h) = absurd (let q : true ≡ false = e in cc)
parse_tokens-printed ((b ∷ bs) ∷ gs) ((p, e), h) =
    let one = parse_hex_bytes-hex_group b bs p in
    let later = parse_tokens-printed gs h in
    parse_tokens-front (hex_group (b ∷ bs)) (map hex_group gs) (b ∷ bs) (flat gs)
      (group-filled b bs) one later

-- Groups that are joined by spaces, or a single one.
paste-join :
    (g : List ℕ) (gs : List (List ℕ))
    → AllChunks (g ∷ gs)
    → parse_hex_stream (join (map hex_group (g ∷ gs))) ≡ ok (flat (g ∷ gs))
unfolding parse_hex_stream AllChunks
paste-join [] gs ((p, e), h) = absurd (let q : true ≡ false = e in cc)
paste-join (b ∷ bs) [] h =
    let t = hex_group (b ∷ bs) in
    let good = printed-AllGroups ((b ∷ bs) ∷ []) h in
    let alone : join (t ∷ []) ≡ t = (unfold join in refl) in
    let plain = hex_group-AllPlain (b ∷ bs) h.0.0 in
    rw
      (
        alone,
        sym (ap trim alone) ∙ trim-join t [] good ∙ alone,
        group-filled b bs,
        has_separator-plain t plain,
      )
      (parse_hex_bytes-hex_group b bs h.0.0 ∙ ap ok (unfold flat in sym (append-nil (b ∷ bs))))
paste-join (b ∷ bs) (u ∷ gs) h =
    let t = hex_group (b ∷ bs) in
    let ts = map hex_group (u ∷ gs) in
    let good = printed-AllGroups ((b ∷ bs) ∷ u ∷ gs) h in
    let plain = hex_group-AllPlain (b ∷ bs) h.0.0 in
    let parted : has_separator (join (t ∷ ts)) ≡ true =
      (unfold join in has_separator-append t (join ts) plain) in
    rw (trim-join t ts good, join-filled t ts good, parted, split-join t ts good)
      (parse_tokens-printed ((b ∷ bs) ∷ u ∷ gs) h)

-- Chunks are not empty and hold the bytes in their order.
push_front-chunks :
    (b : ℕ) (gs : List (List ℕ))
    → b < 256
    → AllChunks gs
    → AllChunks (push_front b gs) × (flat (push_front b gs) ≡ b ∷ flat gs)
unfolding AllChunks AllBytes flat
push_front-chunks b [] l h = ((((l, tt), refl), tt), refl)
push_front-chunks b (g ∷ gs) l ((p, e), h) = ((((l, p), refl), h), refl)

chunks-AllChunks :
    (n left : ℕ) (bs : List ℕ)
    → AllBytes bs
    → AllChunks (chunks n left bs) × (flat (chunks n left bs) ≡ bs)
unfolding AllChunks AllBytes flat chunks
chunks-AllChunks n left [] h = (tt, refl)
chunks-AllChunks n zero (b ∷ []) (l, h) = ((((l, tt), refl), tt), refl)
chunks-AllChunks n zero (b ∷ c ∷ bs) (l, h) =
    let (all, same) = chunks-AllChunks n n (c ∷ bs) h in ((((l, tt), refl), all), ap (b ∷◌) same)
chunks-AllChunks n (suc left) (b ∷ []) (l, h) = ((((l, tt), refl), tt), refl)
chunks-AllChunks n (suc left) (b ∷ c ∷ bs) (l, h) =
    let (all, same) = chunks-AllChunks n left (c ∷ bs) h in
    let (all', same') = push_front-chunks b (chunks n left (c ∷ bs)) l all in
    (all', same' ∙ ap (b ∷◌) same)

-- What is not empty has a first chunk.
paste-groups :
    (gs : List (List ℕ)) (b : ℕ) (bs : List ℕ)
    → AllChunks gs
    → flat gs ≡ b ∷ bs
    → parse_hex_stream (join (map hex_group gs)) ≡ ok (b ∷ bs)
paste-groups [] b bs h e = let nil_cons : [] ≡ b ∷ bs = (unfold flat in e) in cc
paste-groups (g ∷ gs) b bs h e = paste-join g gs h ∙ ap ok e

bytewise : List ℕ → List (List ℕ)
bytewise [] = []
bytewise (b ∷ bs) = (b ∷ []) ∷ bytewise bs

map-bytewise : (bs : List ℕ) → map hex_byte bs ≡ map hex_group (bytewise bs)
unfolding bytewise hex_group hex_byte
map-bytewise [] = refl
map-bytewise (b ∷ bs) = ap (hex_byte b ∷◌) (map-bytewise bs)

bytewise-AllChunks :
    (bs : List ℕ) → AllBytes bs → AllChunks (bytewise bs) × (flat (bytewise bs) ≡ bs)
unfolding AllChunks AllBytes flat bytewise
bytewise-AllChunks [] h = (tt, refl)
bytewise-AllChunks (b ∷ bs) (l, h) =
    let (all, same) = bytewise-AllChunks bs h in ((((l, tt), refl), all), ap (b ∷◌) same)

-- Bytes that are copied in one of the hexadecimal formats, in groups of one, two or four, and pasted
-- as hexadecimal text come back as they were. There is one byte at least.
pub parse_hex_stream-format_raw :
    (b : ℕ) (bs : List ℕ) (f : CopyFormat)
    → AllBytes (b ∷ bs)
    → ¬ (f ≡ binary)
    → parse_hex_stream (format_raw (b ∷ bs) f) ≡ ok (b ∷ bs)
unfolding format_raw
parse_hex_stream-format_raw b bs binary h n = absurd (n refl)
parse_hex_stream-format_raw b bs byte h n =
    let (all, same) = bytewise-AllChunks (b ∷ bs) h in
    ap (λ x. parse_hex_stream (join x)) (map-bytewise (b ∷ bs))
    ∙ paste-groups (bytewise (b ∷ bs)) b bs all same
parse_hex_stream-format_raw b bs double_byte h n =
    let (all, same) = chunks-AllChunks 1 1 (b ∷ bs) h in
    paste-groups (chunks 1 1 (b ∷ bs)) b bs all same
parse_hex_stream-format_raw b bs quad_byte h n =
    let (all, same) = chunks-AllChunks 3 3 (b ∷ bs) h in
    paste-groups (chunks 3 3 (b ∷ bs)) b bs all same
