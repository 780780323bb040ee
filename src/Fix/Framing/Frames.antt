-- ===== src/Fix/Framing/Frames.antt =====
-- The stream of encoded messages, as `_process_buffer` cuts it up
-- (src/protocols/fix_handler.py).
use algo_engine.Prelude.{
  Option-cases, inl, inr, ℕ, ◌+◌, ◌≡◌, refl, sym, ap, ◌∙◌, true, Option, none, some, List, [], ◌∷◌,
  ◌++◌, arith, length, append_assoc, map, All, subst,
}
use algo_engine.Prelude.Int.{pos}
use algo_engine.Fix.Text.{Text, codes, str_int, str_nat, pad_three, soh, map_option}
use algo_engine.Fix.Text.Decimal.{parse_int-str_int, str_nat-IsDigit}
use algo_engine.Fix.Text.Split.{lines}
use algo_engine.Fix.Message.{FixMessage}
use algo_engine.Fix.Wire.{
  pair_text, body_fields, body_text, begin_string, calculate_checksum, prefix_text, encode,
  is_ascii,
}
use algo_engine.Fix.Wire.RoundTrip.{
  frame, encode-frame, parse_bytes-encode, prefix_text_lem, decode_ascii_lem,
}
use algo_engine.Fix.Wire.Pairs.{
  IsSendable, on_the_wire, on_the_wire-IsPlain, digits-IsPlain, pad_three-IsDigit,
  calculate_checksum-lt,
}
use algo_engine.Fix.Framing.{find_sub, marker, cut, process_buffer, read_chunks}
use algo_engine.Fix.Framing.Chunks.{
  before, concat, cut-nil, process_buffer_end, process_buffer-cut, read_chunks-eq-process_buffer,
}
use algo_engine.Fix.Framing.Parts.{parts, cut-parts}

-- No field of the body, as it is written, holds the bytes `10=`.
abbrev pub IsUnambiguous : FixMessage → Type 0
IsUnambiguous msg = All (λ f. find_sub marker (pair_text f) ≡ none) (body_fields msg)

-- The bytes that are sent for a list of messages.
unfoldable pub encode_all : List FixMessage → Option (List ℕ)
encode_all [] = some []
encode_all (m ∷ ms) = elim (encode m) [
  | none ↦ none
  | some bs ↦ map_option (λ rest. bs ++ rest) (encode_all ms)
]

-- A message that can be read back and cut out.
abbrev pub IsTransferable : FixMessage → Type 0
IsTransferable msg = IsSendable msg × IsUnambiguous msg

no_marker-map :
    (fs : FixMessage)
    → All (λ f. find_sub marker (pair_text f) ≡ none) fs
    → All (λ q. find_sub marker q ≡ none) (map pair_text fs)
no_marker-map [] h = tt
no_marker-map (f ∷ fs) (h, hs) = (h, no_marker-map fs hs)

regroup :
    (a b l t : List ℕ)
    → (a ++ (soh ∷ (b ++ (soh ∷ l)))) ++ (marker ++ t)
      ≡ a ++ (soh ∷ (b ++ (soh ∷ (l ++ (marker ++ t)))))
regroup a b l t = simp append_assoc

is_ascii_front : (s t : Text) → is_ascii (s ++ t) ≡ true → is_ascii s ≡ true
is_ascii_front [] t h = refl
is_ascii_front (c ∷ s) t h = ground (arith, is_ascii_front s t)

module _ (msg : FixMessage) (sendable : IsSendable msg) (clear : IsUnambiguous msg) where
  abbrev begin_field : Text
  begin_field = codes "8=" ++ begin_string msg

  abbrev length_field : Text
  length_field = codes "9=" ++ str_nat (length (body_text msg) + 1)

  abbrev checksum : Text
  checksum = pad_three (calculate_checksum (prefix_text msg))

  abbrev pieces : List ℕ
  pieces = parts begin_field length_field (map pair_text (body_fields msg)) checksum

  frame_parts : frame msg ≡ pieces
  unfolding pair_text str_int
  frame_parts =
      ap (λ t. t ++ (codes "10=" ++ (checksum ++ (soh ∷ [])))) (prefix_text_lem msg)
      ∙ regroup begin_field length_field (lines soh (map pair_text (body_fields msg)))
          (checksum ++ (soh ∷ []))

  cut_frame : (bs rest : List ℕ) → encode msg ≡ some bs → cut (bs ++ rest) ≡ some (bs, rest)
  unfolding str_nat str_int
  cut_frame bs rest e =
      let (same, ascii) = encode-frame msg e in
      let plain = on_the_wire-IsPlain msg sendable.plain in
      let n = length (body_text msg) + 1 in
      let sum = calculate_checksum (prefix_text msg) in
      let digits =
        digits-IsPlain checksum (pad_three-IsDigit sum (calculate_checksum-lt (prefix_text msg))) in
      let number = digits-IsPlain (str_nat n) (str_nat-IsDigit n) in
      let tail =
        soh
        ∷ (lines soh (map pair_text (body_fields msg)) ++ (marker ++ (checksum ++ (soh ∷ [])))) in
      let shape : frame msg ≡ (begin_field ++ (soh ∷ length_field)) ++ tail =
        frame_parts ∙ sym (append_assoc begin_field (soh ∷ length_field) tail) in
      let front =
        is_ascii_front (begin_field ++ (soh ∷ length_field)) tail
          (subst (λ t. is_ascii t ≡ true) shape ascii) in
      let cuts =
        cut-parts begin_field length_field (map pair_text (body_fields msg)) checksum (pos n)
          (omega arith, (omega arith, (plain.0).0)) (omega arith, (omega arith, number.0)) digits.0
          (no_marker-map (body_fields msg) clear) (decode_ascii_lem _ front) refl refl
          (parse_int-str_int (pos n)) rest in
      subst (λ t. cut (t ++ rest) ≡ some (t, rest)) (sym (same ∙ frame_parts)) cuts

-- The stream of a list of messages is read as that list, and nothing is left.
stream_lem :
    (msgs : List FixMessage) (stream : List ℕ)
    → All IsTransferable msgs
    → encode_all msgs ≡ some stream
    → process_buffer stream ≡ (map on_the_wire msgs, [])
unfolding encode_all
stream_lem [] stream h e =
    let empty : stream ≡ [] = ground arith in
    ap process_buffer empty ∙ process_buffer_end [] cut-nil
stream_lem (m ∷ ms) stream ((sendable, clear), hs) e = elim (Option-cases (encode m)) [
  | inl failed ↦ absurd (let wrong : ⊥ = ground arith in wrong)
  | inr (bs, yes_bs) ↦ elim (Option-cases (encode_all ms)) [
    | inl failed ↦ absurd (let wrong : ⊥ = ground arith in wrong)
    | inr (rest, yes_rest) ↦
        let same : stream ≡ bs ++ rest = ground arith in
        ap process_buffer same
        ∙ process_buffer-cut (bs ++ rest) bs rest (cut_frame m sendable clear bs rest yes_bs)
        ∙ ap (λ q. before q (process_buffer rest)) (parse_bytes-encode m bs sendable yes_bs)
        ∙ ap (before (on_the_wire m)) (stream_lem ms rest hs yes_rest)
  ]
]

-- Messages whose tags are distinct, whose values hold neither SOH nor a space, and no field of which
-- is written with `10=` in it, are all received: however the bytes of their encodings are divided
-- into chunks, the reading loop dispatches those messages in their order, with their framing
-- fields, and leaves nothing in the buffer.
pub read_chunks-encode_all :
    (msgs : List FixMessage) (chunks : List (List ℕ))
    → All IsTransferable msgs
    → encode_all msgs ≡ some (concat chunks)
    → read_chunks [] chunks ≡ (map on_the_wire msgs, [])
read_chunks-encode_all msgs chunks h e =
    read_chunks-eq-process_buffer chunks ∙ stream_lem msgs (concat chunks) h e
