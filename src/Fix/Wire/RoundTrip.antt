-- ===== src/Fix/Wire/RoundTrip.antt =====
-- `parse` reads back what `encode_str` has written (src/protocols/fix_handler.py).
use algo_engine.Prelude.{
  ℕ, ◌+◌, ◌%◌, ◌/◌, ◌<◌, ◌≡◌, refl, sym, ap, ◌∙◌, subst, true, false, some, List, [], ◌∷◌, ◌++◌,
  arith, length, map, append_assoc, All, All-map,
}
use algo_engine.Prelude.Eq.{int_eq}
use algo_engine.Prelude.Int.{ℤ, pos}
use algo_engine.Fix.Text.{
  Text, codes, str_int, str_nat, pad_three, strip, split, join, soh, space, equals, is_space,
  print_digits,
}
use algo_engine.Fix.Text.Split.{Lacks, lines, join-snoc, split-join, replace-lines, strip_end}
use algo_engine.Fix.Message.{FixMessage}
use algo_engine.Fix.Wire.{
  read_pairs, parse, pair_text, body_fields, calculate_checksum, begin_string, body_text,
  prefix_text, encode_str, encode, is_ascii, decode_ascii, parse_bytes,
}
use algo_engine.Fix.Wire.Pairs.{
  IsPlain, IsSendable, on_the_wire, pairs_lack, read_pairs_lem, on_the_wire-IsDistinct,
  on_the_wire-IsPlain,
}

-- A text that ends in a character that `strip` keeps.
EndsWell : Text → Type 0
EndsWell t = (u : Text) × (c : ℕ) × (t ≡ u ++ (c ∷ [])) × (is_space c ≡ false)

append-EndsWell : (s t : Text) → EndsWell t → EndsWell (s ++ t)
unfolding EndsWell
append-EndsWell s t (u, c, e, h) =
    (s ++ u, c, ap (λ x. s ++ x) e ∙ sym (append_assoc s u (c ∷ [])), h)

join-cons :
    (sep : ℕ) (p : Text) (ps : List Text) (q : Text)
    → join sep (p ∷ (ps ++ (q ∷ []))) ≡ p ++ (sep ∷ join sep (ps ++ (q ∷ [])))
join-cons sep p [] q = refl
join-cons sep p (r ∷ ps) q = refl

join-EndsWell :
    (sep : ℕ) (ps : List Text) (q : Text) → EndsWell q → EndsWell (join sep (ps ++ (q ∷ [])))
join-EndsWell sep [] q h = h
join-EndsWell sep (p ∷ ps) q h = subst EndsWell (sym (join-cons sep p ps q)) (
    append-EndsWell p (sep ∷ join sep (ps ++ (q ∷ [])))
      (append-EndsWell (sep ∷ []) (join sep (ps ++ (q ∷ []))) (join-EndsWell sep ps q h)))

strip_last :
    (b : ℕ) (t : Text) → is_space b ≡ false → EndsWell t → strip (b ∷ (t ++ (space ∷ []))) ≡ b ∷ t
unfolding EndsWell
strip_last b t hb (u, c, e, hc) =
    ap (λ x. strip (b ∷ (x ++ (space ∷ [])))) e
    ∙ ap (λ x. strip (b ∷ x)) (append_assoc u (c ∷ []) (space ∷ []))
    ∙ strip_end b u c hb hc
    ∙ ap (λ x. b ∷ x) (sym e)

-- What `parse` makes of plain pieces, each followed by SOH.
parse-lines :
    (b : ℕ) (p : Text) (ps : List Text) (q : Text)
    → is_space b ≡ false
    → EndsWell q
    → (let pieces = (b ∷ p) ∷ (ps ++ (q ∷ [])) in
        All (Lacks soh) pieces
        → All (Lacks space) pieces
        → parse (lines soh pieces) ≡ read_pairs pieces [])
unfolding parse
parse-lines b p ps q hb hq no_soh no_space =
    let pieces = (b ∷ p) ∷ (ps ++ (q ∷ [])) in
    let rest = p ++ (space ∷ join space (ps ++ (q ∷ []))) in
    let spread : lines space pieces ≡ b ∷ (rest ++ (space ∷ [])) =
      sym (join-snoc space (b ∷ p) (ps ++ (q ∷ [])))
      ∙ ap (λ t. t ++ (space ∷ [])) (join-cons space (b ∷ p) ps q) in
    let ends : EndsWell rest =
      append-EndsWell p (space ∷ join space (ps ++ (q ∷ []))) (
        append-EndsWell (space ∷ []) (join space (ps ++ (q ∷ []))) (join-EndsWell space ps q hq)) in
    ap (λ t. read_pairs (split space (strip t)) []) (replace-lines soh space pieces no_soh ∙ spread)
    ∙ ap (λ t. read_pairs (split space t) [])
        (strip_last b rest hb ends ∙ sym (join-cons space (b ∷ p) ps q))
    ∙ ap (λ l. read_pairs l []) (split-join space (b ∷ p) (ps ++ (q ∷ [])) no_space)

pub lines-append :
    (sep : ℕ) (ps : List Text) (q : Text)
    → lines sep (ps ++ (q ∷ [])) ≡ lines sep ps ++ (q ++ (sep ∷ []))
lines-append sep [] q = refl
lines-append sep (p ∷ ps) q =
    ap (λ t. p ++ (sep ∷ t)) (lines-append sep ps q)
    ∙ sym (append_assoc p (sep ∷ lines sep ps) (q ++ (sep ∷ [])))

map_snoc :
    (fs : FixMessage) (f : ℤ × Text)
    → map pair_text (fs ++ (f ∷ [])) ≡ map pair_text fs ++ (pair_text f ∷ [])
map_snoc [] f = refl
map_snoc (g ∷ fs) f = ap (λ l. pair_text g ∷ l) (map_snoc fs f)

-- The pieces between the separators: the head of the first, the rest of it, and the last.
abbrev pub first_rest : FixMessage → Text
first_rest msg = equals ∷ begin_string msg

abbrev pub middle : FixMessage → List Text
middle msg =
    pair_text (pos 9, str_nat (length (body_text msg) + 1)) ∷ map pair_text (body_fields msg)

abbrev last : FixMessage → Text
last msg = pair_text (pos 10, pad_three (calculate_checksum (prefix_text msg)))

pieces_lem :
    (msg : FixMessage)
    → map pair_text (on_the_wire msg) ≡ (b'8' ∷ first_rest msg) ∷ (middle msg ++ (last msg ∷ []))
unfolding pair_text str_int str_nat print_digits
pieces_lem msg =
    ap (λ l. (b'8' ∷ first_rest msg) ∷ pair_text (pos 9, str_nat (length (body_text msg) + 1)) ∷ l)
      (map_snoc (body_fields msg) (pos 10, pad_three (calculate_checksum (prefix_text msg))))

pub prefix_text_lem :
    (msg : FixMessage) → prefix_text msg ≡ lines soh ((b'8' ∷ first_rest msg) ∷ middle msg)
unfolding prefix_text pair_text str_int str_nat print_digits
prefix_text_lem msg = join-snoc soh (b'8' ∷ first_rest msg) (middle msg)

-- The text of an encoded message, before the test that it is ASCII.
abbrev pub frame : FixMessage → Text
frame msg =
    prefix_text msg
    ++ (codes "10=" ++ (pad_three (calculate_checksum (prefix_text msg)) ++ (soh ∷ [])))

frame_lem :
    (msg : FixMessage)
    → frame msg ≡ lines soh ((b'8' ∷ first_rest msg) ∷ (middle msg ++ (last msg ∷ [])))
unfolding pair_text str_int str_nat print_digits
frame_lem msg =
    ap (λ t. t ++ (last msg ++ (soh ∷ []))) (prefix_text_lem msg)
    ∙ sym (lines-append soh ((b'8' ∷ first_rest msg) ∷ middle msg) (last msg))

pub encode_frame_text : (msg : FixMessage) {t : Text} → encode_str msg ≡ some t → t ≡ frame msg
unfolding encode_str
encode_frame_text msg e = ground arith

last-EndsWell : (msg : FixMessage) → EndsWell (last msg)
unfolding EndsWell pair_text str_int str_nat print_digits pad_three
last-EndsWell msg =
    let sum = calculate_checksum (prefix_text msg) in
    (
      codes "10=" ++ ((b'0' + sum / 100) ∷ (b'0' + sum / 10 % 10) ∷ []),
      b'0' + sum % 10,
      refl,
      ground arith,
    )

parse-frame : (msg : FixMessage) → IsSendable msg → parse (frame msg) ≡ on_the_wire msg
parse-frame msg h =
    let fields = on_the_wire-IsPlain msg h.plain in
    let pieces = (b'8' ∷ first_rest msg) ∷ (middle msg ++ (last msg ∷ [])) in
    let lacking =
      λ (c : ℕ) (small : c < b'-') (p : All (λ (f : ℤ × Text). Lacks c f.1) (on_the_wire msg)).
        subst (All (Lacks c)) (pieces_lem msg) (pairs_lack c (on_the_wire msg) small p) in
    ap parse (frame_lem msg)
    ∙ parse-lines b'8' (first_rest msg) (middle msg) (last msg) refl (last-EndsWell msg)
        (lacking soh (omega arith) (All-map (λ f (p : IsPlain f.1). p.0) (on_the_wire msg) fields))
        (lacking space (omega arith)
          (All-map (λ f (p : IsPlain f.1). p.1) (on_the_wire msg) fields))
    ∙ ap (λ l. read_pairs l []) (sym (pieces_lem msg))
    ∙ read_pairs_lem (on_the_wire msg) [] (on_the_wire-IsDistinct msg h.distinct)

pub decode_ascii_lem : (t : Text) → is_ascii t ≡ true → decode_ascii t ≡ t
unfolding decode_ascii
decode_ascii_lem [] h = refl
decode_ascii_lem (c ∷ t) h = ground (arith, decode_ascii_lem t)

pub encode-frame :
    (msg : FixMessage) {bs : List ℕ}
    → encode msg ≡ some bs
    → (bs ≡ frame msg) × (is_ascii (frame msg) ≡ true)
unfolding encode encode_str
encode-frame msg e = ground arith

-- Of a message whose tags are distinct and whose values hold neither SOH nor a space, `parse_bytes`
-- reads back from the bytes of `encode`: the begin string, the body length, the other fields in
-- their order with their values, and the checksum.
pub parse_bytes-encode :
    (msg : FixMessage) (bs : List ℕ)
    → IsSendable msg
    → encode msg ≡ some bs
    → parse_bytes bs ≡ on_the_wire msg
unfolding parse_bytes
parse_bytes-encode msg bs h e =
    let (same, ascii) = encode-frame msg e in
    ap (λ b. parse (decode_ascii b)) same
    ∙ ap parse (decode_ascii_lem (frame msg) ascii)
    ∙ parse-frame msg h
