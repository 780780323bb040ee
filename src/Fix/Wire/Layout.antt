-- ===== src/Fix/Wire/Layout.antt =====
-- The frame that `encode_str` of src/protocols/fix_handler.py puts around a message: BodyLength and
-- CheckSum.
use algo_engine.Prelude.{
  ◌+◌, ◌%◌, ◌≡◌, ◌≢◌, refl, sym, ap, ◌∙◌, some, [], ◌∷◌, ◌++◌, arith, length, length-append, map,
  append_assoc,
}
use algo_engine.Fix.Text.{Text, codes, str_nat, pad_three, join, soh}
use algo_engine.Fix.Text.Split.{lines, join-snoc}
use algo_engine.Fix.Message.{FixMessage}
use algo_engine.Fix.Wire.{
  body_fields, body_text, prefix_text, begin_string, calculate_checksum, sum_codes, encode_str,
  pair_text,
}
use algo_engine.Fix.Wire.RoundTrip.{encode_frame_text}

-- The text is the begin string and a length, then as many characters as that length says, then the
-- checksum of all that stands before it.
pub record IsFramed (msg : FixMessage) (t : Text) : Type 0 where
  pub head : Text
  pub counted : Text
  pub head_lem :
      head
      ≡ codes "8="
        ++ (begin_string msg ++ (soh ∷ (codes "9=" ++ (str_nat (length counted) ++ (soh ∷ [])))))
  pub counted_lem : counted ≡ lines soh (map pair_text (body_fields msg))
  pub text_lem :
      t
      ≡ (head ++ counted)
        ++ (codes "10=" ++ (pad_three (sum_codes (head ++ counted) % 256) ++ (soh ∷ [])))

body_text-snoc :
    (msg : FixMessage)
    → body_fields msg ≢ []
    → body_text msg ++ (soh ∷ []) ≡ lines soh (map pair_text (body_fields msg))
unfolding body_text
body_text-snoc msg ne = go (body_fields msg) ne
  where
    go :
        (fs : FixMessage)
        → fs ≢ []
        → join soh (map pair_text fs) ++ (soh ∷ []) ≡ lines soh (map pair_text fs)
    go [] ne = absurd (ne refl)
    go (f ∷ fs) ne = join-snoc soh (pair_text f) (map pair_text fs)

regroup :
    (a b c : Text)
    → (codes "8=" ++ a) ++ (soh ∷ ((codes "9=" ++ b) ++ (soh ∷ c)))
      ≡ (codes "8=" ++ (a ++ (soh ∷ (codes "9=" ++ (b ++ (soh ∷ [])))))) ++ c
regroup a b c = simp append_assoc

-- A message with at least one field beside the framing ones is encoded as its begin string, a
-- BodyLength, its fields, each ended by SOH, and a CheckSum; the BodyLength is the number of
-- characters from its own SOH to the CheckSum field, and the CheckSum is the sum of the codes of all
-- that precedes it, modulo 256, in three digits.
pub encode_str-IsFramed :
    (msg : FixMessage) (t : Text) → body_fields msg ≢ [] → encode_str msg ≡ some t → IsFramed msg t
unfolding calculate_checksum prefix_text
encode_str-IsFramed msg t ne e =
    let counted = body_text msg ++ (soh ∷ []) in
    let n = length (body_text msg) + 1 in
    let head =
      codes "8=" ++ (begin_string msg ++ (soh ∷ (codes "9=" ++ (str_nat n ++ (soh ∷ []))))) in
    let size : n ≡ length counted = omega (arith, length-append (body_text msg) (soh ∷ [])) in
    let whole : prefix_text msg ≡ head ++ counted =
      join-snoc soh (codes "8=" ++ begin_string msg)
        ((codes "9=" ++ str_nat n) ∷ map pair_text (body_fields msg))
      ∙ ap
          (λ l.
            (codes "8=" ++ begin_string msg) ++ (soh ∷ ((codes "9=" ++ str_nat n) ++ (soh ∷ l))))
          (sym (body_text-snoc msg ne))
      ∙ regroup (begin_string msg) (str_nat n) counted in
    record {
      head = head;
      counted = counted;
      head_lem =
          ap
            (λ k.
              codes "8=" ++ (begin_string msg ++ (soh ∷ (codes "9=" ++ (str_nat k ++ (soh ∷ []))))))
            size;
      counted_lem = body_text-snoc msg ne;
      text_lem =
          encode_frame_text msg e
          ∙ ap (λ p. p ++ (codes "10=" ++ (pad_three (sum_codes p % 256) ++ (soh ∷ [])))) whole;
    }
