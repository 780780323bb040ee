-- ===== src/Fix/Wire.antt =====
-- The wire format of `FIXMessage` (src/protocols/fix_handler.py): `parse`, `encode_str` and the
-- checksum.
pub mod Pairs
pub mod RoundTrip
pub mod Layout
use algo_engine.Prelude.{
  ℕ, zero, suc, ◌+◌, ◌%◌, ◌≡◌, refl, Bool, true, false, not, ◌&&◌, ◌||◌, Option, none, some, List,
  [], ◌∷◌, ◌++◌, arith, if◌then◌else◌, ltb, length, all, map,
}
use algo_engine.Prelude.Eq.{int_eq, ◌=?◌}
use algo_engine.Prelude.Int.{ℤ, pos, negsuc}
use algo_engine.Prelude.Dict.{Dict, lookup, get_or, insert}
use algo_engine.Fix.Text.{
  Text, codes, str_int, str_nat, pad_three, parse_int, strip, replace, split, split_once, join,
  contains_char, soh, space, equals,
}
use algo_engine.Fix.Message.{FixMessage}

-- One turn of the loop of `parse`.
unfoldable pub read_pair : Text → FixMessage → FixMessage
read_pair pair msg =
    let (tag_str, value) = split_once equals pair in
    if contains_char equals pair
    then elim (parse_int tag_str) [ none ↦ msg | some tag ↦ insert tag value msg ]
    else msg

unfoldable pub read_pairs : List Text → FixMessage → FixMessage
read_pairs [] msg = msg
read_pairs (p ∷ ps) msg = read_pairs ps (read_pair p msg)

-- `parse` of a `str`.
unfoldable pub parse : Text → FixMessage
unfolding read_pairs
parse raw = read_pairs (split space (strip (replace soh space raw))) []

-- `bytes.decode("ascii", errors="replace")`
unfoldable pub decode_ascii : List ℕ → Text
decode_ascii [] = []
decode_ascii (b ∷ bs) = (if ltb b 128 then b else 0xfffd) ∷ decode_ascii bs

unfoldable pub parse_bytes : List ℕ → FixMessage
unfolding decode_ascii parse
parse_bytes raw = parse (decode_ascii raw)

-- `f"{tag}={value}"`
unfoldable pub pair_text : ℤ × Text → Text
pair_text (tag, value) = str_int tag ++ (equals ∷ value)

pub is_framing : ℤ → Bool
is_framing tag = (tag =? pos 8) || ((tag =? pos 9) || (tag =? pos 10))

-- `body_parts`, before they are printed.
unfoldable pub body_fields : FixMessage → FixMessage
unfolding is_framing
body_fields [] = []
body_fields ((tag, value) ∷ msg) =
    let rest = body_fields msg in if is_framing tag then rest else (tag, value) ∷ rest

unfoldable pub sum_codes : Text → ℕ
sum_codes [] = 0
sum_codes (c ∷ t) = c + sum_codes t

-- `_calculate_checksum`
unfoldable pub calculate_checksum : Text → ℕ
unfolding sum_codes
calculate_checksum body = sum_codes body % 256

abbrev pub is_ascii : Text → Bool
is_ascii t = all (λ c. ltb c 128) t

abbrev pub begin_string : FixMessage → Text
begin_string msg = get_or (pos 8) (codes "FIX.4.4") msg

unfoldable pub body_text : FixMessage → Text
unfolding body_fields
body_text msg = join soh (map pair_text (body_fields msg))

-- `prefix`
unfoldable pub prefix_text : FixMessage → Text
unfolding body_text
prefix_text msg =
    join soh (
      (codes "8=" ++ begin_string msg)
      ∷ (codes "9=" ++ str_nat (length (body_text msg) + 1))
      ∷ map pair_text (body_fields msg))
    ++ (soh ∷ [])

-- `none` is the `UnicodeEncodeError` of measuring the body.
unfoldable pub encode_str : FixMessage → Option Text
unfolding prefix_text calculate_checksum
encode_str msg =
    if is_ascii (body_text msg)
    then some (
        prefix_text msg
        ++ (codes "10=" ++ (pad_three (calculate_checksum (prefix_text msg)) ++ (soh ∷ []))))
    else none

-- `encode`, to bytes; `begin_string` is checked here.
unfoldable pub encode : FixMessage → Option (List ℕ)
unfolding encode_str
encode msg = elim (encode_str msg) [ none ↦ none | some t ↦ if is_ascii t then some t else none ]
