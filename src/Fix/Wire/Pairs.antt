-- ===== src/Fix/Wire/Pairs.antt =====
-- The fields of a message on the wire, as src/protocols/fix_handler.py writes and reads them.
use algo_engine.Prelude.{
  ℕ, suc, ◌+◌, ◌<◌, ◌≡◌, ◌≢◌, refl, sym, ap, ◌∙◌, subst, true, Option, none, some, [], ◌∷◌, ◌++◌,
  arith, if◌then◌else◌, ltb, length, map, append_assoc, append-nil, All, All-append, All-map,
  Bool-cases, inl, inr,
}
use algo_engine.Prelude.Eq.{int_eq, ◌=?◌}
use algo_engine.Prelude.Int.{ℤ, pos, negsuc}
use algo_engine.Prelude.Dict.{
  lookup, get_or, insert, insert_new, IsDistinct, IsDistinct-front, lookup-append,
}
use algo_engine.Fix.Text.{
  Text, codes, str_int, str_nat, pad_three, parse_int, split_once, contains_char, soh, space,
  equals,
}
use algo_engine.Fix.Text.Decimal.{IsDigit, str_nat-IsDigit, parse_int-str_int}
use algo_engine.Fix.Text.Split.{Lacks, split_once-append, contains_char-append}
use algo_engine.Fix.Message.{FixMessage}
use algo_engine.Fix.Wire.{
  read_pair, read_pairs, pair_text, is_framing, body_fields, calculate_checksum, begin_string,
  body_text, prefix_text,
}

-- A value that the wire format can carry: no SOH in it, and no space.
abbrev pub IsPlain : Text → Type 0
IsPlain t = Lacks soh t × Lacks space t

pub record IsSendable (msg : FixMessage) : Type 0 where
  pub distinct : IsDistinct msg
  pub plain : All (λ f. IsPlain f.1) msg

-- The fields that a receiver should see.
abbrev pub on_the_wire : FixMessage → FixMessage
on_the_wire msg =
    (pos 8, begin_string msg)
    ∷ (pos 9, str_nat (length (body_text msg) + 1))
    ∷ (body_fields msg ++ ((pos 10, pad_three (calculate_checksum (prefix_text msg))) ∷ []))

digits_lack : (c : ℕ) (t : Text) → ltb c b'0' ≡ true → All IsDigit t → Lacks c t
digits_lack c t h = All-map (λ d (i : IsDigit d). omega (arith, below)) t
  where
    below : c < b'0'
    below = ground arith

str_int-Lacks : (c : ℕ) (z : ℤ) → c < b'-' → Lacks c (str_int z)
unfolding str_int
str_int-Lacks c (pos n) h = digits_lack c (str_nat n) (ground arith) (str_nat-IsDigit n)
str_int-Lacks c (negsuc n) h =
    (omega arith, digits_lack c (str_nat (suc n)) (ground arith) (str_nat-IsDigit (suc n)))

str_int-Lacks-equals : (z : ℤ) → Lacks equals (str_int z)
unfolding str_int
str_int-Lacks-equals (pos n) =
    All-map (λ d (i : IsDigit d). omega arith) (str_nat n) (str_nat-IsDigit n)
str_int-Lacks-equals (negsuc n) = (
  omega arith,
  All-map (λ d (i : IsDigit d). omega arith) (str_nat (suc n)) (str_nat-IsDigit (suc n)),
)

pair_text-Lacks : (c : ℕ) (tag : ℤ) (v : Text) → c < b'-' → Lacks c v → Lacks c (pair_text (tag, v))
unfolding pair_text
pair_text-Lacks c tag v h plain =
    All-append (λ x. x ≢ c) (str_int tag) (equals ∷ v) (str_int-Lacks c tag h) (omega arith, plain)

pub pairs_lack :
    (c : ℕ) (fs : FixMessage)
    → c < b'-'
    → All (λ f. Lacks c f.1) fs
    → All (Lacks c) (map pair_text fs)
pairs_lack c [] h p = tt
pairs_lack c ((tag, v) ∷ fs) h (p, ps) = (pair_text-Lacks c tag v h p, pairs_lack c fs h ps)

insert_read : Option ℤ → Text → FixMessage → FixMessage
insert_read none v msg = msg
insert_read (some tag) v msg = insert tag v msg

read_pair_text :
    (pair a v : Text) (msg : FixMessage)
    → split_once equals pair ≡ (a, v)
    → contains_char equals pair ≡ true
    → read_pair pair msg ≡ insert_read (parse_int a) v msg
unfolding read_pair insert_read
read_pair_text pair a v msg cut has = ground arith

read_pair_lem :
    (tag : ℤ) (v : Text) (msg : FixMessage) → read_pair (pair_text (tag, v)) msg ≡ insert tag v msg
unfolding pair_text insert_read
read_pair_lem tag v msg =
    read_pair_text (pair_text (tag, v)) (str_int tag) v msg
      (split_once-append equals (str_int tag) v (str_int-Lacks-equals tag))
      (contains_char-append equals (str_int tag) v)
    ∙ ap (λ o. insert_read o v msg) (parse_int-str_int tag)

pub read_pairs_lem :
    (fs msg : FixMessage) → IsDistinct (msg ++ fs) → read_pairs (map pair_text fs) msg ≡ msg ++ fs
unfolding read_pairs
read_pairs_lem [] msg d = sym (append-nil msg)
read_pairs_lem ((k, v) ∷ fs) msg d =
    let shifted : IsDistinct ((msg ++ ((k, v) ∷ [])) ++ fs) =
      subst IsDistinct (sym (append_assoc msg ((k, v) ∷ []) fs)) d in
    ap (read_pairs (map pair_text fs))
      (read_pair_lem k v msg ∙ insert_new k v msg (IsDistinct-front msg k v fs d))
    ∙ read_pairs_lem fs (msg ++ ((k, v) ∷ [])) shifted
    ∙ append_assoc msg ((k, v) ∷ []) fs

-- The body keeps the fields that do not frame the message.
pub lookup-body_fields :
    (k : ℤ) (msg : FixMessage)
    → lookup k (body_fields msg) ≡ (if is_framing k then none else lookup k msg)
unfolding body_fields is_framing
lookup-body_fields k [] = ground arith
lookup-body_fields k ((j, v) ∷ msg) = ground (arith, lookup-body_fields k msg, int_eq.beq_iff j k)

body_fields-IsDistinct : (msg : FixMessage) → IsDistinct msg → IsDistinct (body_fields msg)
unfolding body_fields
body_fields-IsDistinct [] d = tt
body_fields-IsDistinct ((k, v) ∷ msg) (new, d) =
    ground (arith, body_fields-IsDistinct msg d, lookup-body_fields k msg)

append-IsDistinct :
    (d : FixMessage) (k : ℤ) (v : Text)
    → IsDistinct d
    → lookup k d ≡ none
    → IsDistinct (d ++ ((k, v) ∷ []))
append-IsDistinct [] k v h new = (refl, tt)
append-IsDistinct ((j, w) ∷ d) k v (old, h) new = ground (
  arith,
  append-IsDistinct d k v h,
  lookup-append j d ((k, v) ∷ []) old,
  int_eq.beq_iff j k,
  int_eq.beq_iff k j,
)

pub on_the_wire-IsDistinct : (msg : FixMessage) → IsDistinct msg → IsDistinct (on_the_wire msg)
unfolding is_framing
on_the_wire-IsDistinct msg d =
    let body = body_fields msg in
    let end : FixMessage = (pos 10, pad_three (calculate_checksum (prefix_text msg))) ∷ [] in
    let no = λ (k : ℤ) (f : is_framing k ≡ true).
      lookup-body_fields k msg ∙ ap (λ b. if b then none else lookup k msg) f in
    let no8 : lookup (pos 8) body ≡ none = no (pos 8) refl in
    let no9 : lookup (pos 9) body ≡ none = no (pos 9) refl in
    let no10 : lookup (pos 10) body ≡ none = no (pos 10) refl in
    (
      lookup-append (pos 8) body end no8,
      (
        lookup-append (pos 9) body end no9,
        append-IsDistinct body (pos 10) _ (body_fields-IsDistinct msg d) no10,
      ),
    )

body_fields-All : (P : ℤ × Text → Type 0) (msg : FixMessage) → All P msg → All P (body_fields msg)
unfolding body_fields
body_fields-All P [] h = tt
body_fields-All P ((k, v) ∷ msg) (p, ps) = ground (arith, body_fields-All P msg ps)

get_or-IsPlain :
    (k : ℤ) (t : Text) (msg : FixMessage)
    → IsPlain t
    → All (λ f. IsPlain f.1) msg
    → IsPlain (get_or k t msg)
get_or-IsPlain k t [] p h = p
get_or-IsPlain k t ((j, v) ∷ msg) p (q, h) = elim (Bool-cases (j =? k)) [
  | inl e ↦ let found : v ≡ get_or k t ((j, v) ∷ msg) = ground arith in subst IsPlain found q
  | inr e ↦
      let further : get_or k t msg ≡ get_or k t ((j, v) ∷ msg) = ground arith in
      subst IsPlain further (get_or-IsPlain k t msg p h)
]

pub pad_three-IsDigit : (n : ℕ) → n < 256 → All IsDigit (pad_three n)
unfolding pad_three
pad_three-IsDigit n h = omega arith

pub digits-IsPlain : (t : Text) → All IsDigit t → IsPlain t
digits-IsPlain t h =
    (All-map (λ d (i : IsDigit d). omega arith) t h, All-map (λ d (i : IsDigit d). omega arith) t h)

pub calculate_checksum-lt : (t : Text) → calculate_checksum t < 256
unfolding calculate_checksum
calculate_checksum-lt t = omega arith

pub on_the_wire-IsPlain :
    (msg : FixMessage) → All (λ f. IsPlain f.1) msg → All (λ f. IsPlain f.1) (on_the_wire msg)
on_the_wire-IsPlain msg h =
    let sum = calculate_checksum (prefix_text msg) in
    (
      get_or-IsPlain (pos 8) (codes "FIX.4.4") msg (omega arith) h,
      (
        digits-IsPlain _ (str_nat-IsDigit (length (body_text msg) + 1)),
        All-append (λ f. IsPlain f.1) (body_fields msg) _ (body_fields-All (λ f. IsPlain f.1) msg h)
            (
              digits-IsPlain (pad_three sum)
                  (pad_three-IsDigit sum (calculate_checksum-lt (prefix_text msg))),
              tt,
            ),
      ),
    )
