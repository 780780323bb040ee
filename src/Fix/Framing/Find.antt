-- ===== src/Fix/Framing/Find.antt =====
-- Searches in a buffer to which bytes are added at the end
-- (src/protocols/fix_handler.py).
use algo_engine.Prelude.{
  ℕ, zero, suc, ◌+◌, ◌≤◌, ◌<◌, ◌≡◌, refl, sym, ap, ◌∙◌, true, Option, none, some, List, [], ◌∷◌,
  ◌++◌, arith, length, take, drop, take-append, drop-append, length-drop, Option-cases, inl, inr,
}
use algo_engine.Prelude.Int.{ℤ}
use algo_engine.Fix.Text.{soh}
use algo_engine.Fix.Framing.{
  find_byte, starts_with, find_sub, find_from, extract_body_length, marker, cut, ◌>>=◌,
}

pub find_byte-lt : (b : ℕ) (t : List ℕ) (i : ℕ) → find_byte b t ≡ some i → i < length t
find_byte-lt b [] i h = cc
find_byte-lt b (c ∷ t) i h = grind (arith, find_byte-lt b t)

find_byte-append :
    (b : ℕ) (s t : List ℕ) (i : ℕ) → find_byte b s ≡ some i → find_byte b (s ++ t) ≡ some i
find_byte-append b [] t i h = cc
find_byte-append b (c ∷ s) t i h = grind (arith, find_byte-append b s t)

starts_with-append : (p s t : List ℕ) → starts_with p s ≡ true → starts_with p (s ++ t) ≡ true
starts_with-append [] s t h = refl
starts_with-append (x ∷ p) [] t h = cc
starts_with-append (x ∷ p) (c ∷ s) t h = ground (arith, starts_with-append p s t)

starts_with_long : (p s t : List ℕ) → length p ≤ length s → starts_with p (s ++ t) ≡ starts_with p s
starts_with_long [] s t h = refl
starts_with_long (x ∷ p) [] t h = elim h [ ]
starts_with_long (x ∷ p) (c ∷ s) t h = ground (arith, starts_with_long p s t)

starts_with-le : (p s : List ℕ) → starts_with p s ≡ true → length p ≤ length s
starts_with-le [] s h = omega arith
starts_with-le (x ∷ p) [] h = cc
starts_with-le (x ∷ p) (c ∷ s) h = ground (arith, starts_with-le p s)

pub find_sub-le : (p t : List ℕ) (i : ℕ) → find_sub p t ≡ some i → i + length p ≤ length t
find_sub-le p [] i h = cc
find_sub-le p (c ∷ t) i h = grind (arith, find_sub-le p t, starts_with-le p (c ∷ t))

find_sub-append : (p s t : List ℕ) (i : ℕ) → find_sub p s ≡ some i → find_sub p (s ++ t) ≡ some i
find_sub-append p [] t i h = cc
find_sub-append p (c ∷ s) t i h = grind (
  arith,
  find_sub-append p s t,
  find_sub-le p (c ∷ s) i,
  starts_with_long p (c ∷ s) t,
  find_sub-le p s,
)

-- A search from an index on, for a search that is stable under bytes at the end.
module _ (find : List ℕ → Option ℕ)
    (stable : (s t : List ℕ) (i : ℕ) → find s ≡ some i → find (s ++ t) ≡ some i)
    (empty : find [] ≡ none) where
  find_drop-append :
      (n : ℕ) (s t : List ℕ) (i : ℕ) → find (drop n s) ≡ some i → find (drop n (s ++ t)) ≡ some i
  find_drop-append zero s t i h = stable s t i h
  find_drop-append (suc n) [] t i h = cc
  find_drop-append (suc n) (c ∷ s) t i h = find_drop-append n s t i h

  find_from-append :
      (n : ℕ) (s t : List ℕ) (i : ℕ)
      → find_from find n s ≡ some i
      → find_from find n (s ++ t) ≡ some i
  find_from-append n s t i h = elim (Option-cases (find (drop n s))) [
    | inl e ↦ ground arith
    | inr (j, e) ↦ ground (arith, find_drop-append n s t j e)
  ]

pub find_from-lt :
    (b n : ℕ) (s : List ℕ) (i : ℕ) → find_from (find_byte b) n s ≡ some i → (n ≤ i) × (i < length s)
find_from-lt b n s i h = elim (Option-cases (find_byte b (drop n s))) [
  | inl e ↦ ground arith
  | inr (j, e) ↦ ground (arith, find_byte-lt b (drop n s) j e, length-drop n s)
]

>>=-eq-some {ℓ κ} :
    {A : Type ℓ} {B : Type κ} (m : Option A) (f : A → Option B) {b : B}
    → (m >>= f) ≡ some b
    → (a : A) × (m ≡ some a) × (f a ≡ some b)
>>=-eq-some none f h = cc
>>=-eq-some (some a) f h = (a, refl, h)

-- What `cut` has found.
pub record IsCut (buffer raw rest : List ℕ) : Type 0 where
  pub first_soh : ℕ
  pub second_soh : ℕ
  pub body_len : ℤ
  pub checksum_idx : ℕ
  pub checksum_end : ℕ
  pub first_lem : find_byte soh buffer ≡ some first_soh
  pub second_lem : find_from (find_byte soh) (first_soh + 1) buffer ≡ some second_soh
  pub length_lem : extract_body_length buffer second_soh ≡ some body_len
  pub marker_lem : find_from (find_sub marker) (second_soh + 1) buffer ≡ some checksum_idx
  pub end_lem : find_from (find_byte soh) (checksum_idx + 3) buffer ≡ some checksum_end
  pub raw_lem : raw ≡ take (checksum_end + 1) buffer
  pub rest_lem : rest ≡ drop (checksum_end + 1) buffer

pub cut-IsCut : (buffer raw rest : List ℕ) → cut buffer ≡ some (raw, rest) → IsCut buffer raw rest
unfolding cut
cut-IsCut buffer raw rest h =
    let (first, e1, h1) = >>=-eq-some (find_byte soh buffer) _ h in
    let (second, e2, h2) = >>=-eq-some (find_from (find_byte soh) (first + 1) buffer) _ h1 in
    let (len, e3, h3) = >>=-eq-some (extract_body_length buffer second) _ h2 in
    let (idx, e4, h4) = >>=-eq-some (find_from (find_sub marker) (second + 1) buffer) _ h3 in
    let (end, e5, h5) = >>=-eq-some (find_from (find_byte soh) (idx + 3) buffer) _ h4 in
    record {
      first_soh = first;
      second_soh = second;
      body_len = len;
      checksum_idx = idx;
      checksum_end = end;
      first_lem = e1;
      second_lem = e2;
      length_lem = e3;
      marker_lem = e4;
      end_lem = e5;
      raw_lem = ground arith;
      rest_lem = ground arith;
    }

pub IsCut-cut : (buffer raw rest : List ℕ) → IsCut buffer raw rest → cut buffer ≡ some (raw, rest)
unfolding cut
IsCut-cut buffer raw rest c =
    let e1 = c.first_lem in
    let e2 = c.second_lem in
    let e3 = c.length_lem in
    let e4 = c.marker_lem in
    let e5 = c.end_lem in let e6 = c.raw_lem in let e7 = c.rest_lem in ground arith

-- A message that has been cut off a buffer is cut off it with more bytes behind, too.
pub cut-append :
    (s t raw rest : List ℕ) → cut s ≡ some (raw, rest) → cut (s ++ t) ≡ some (raw, rest ++ t)
unfolding extract_body_length
cut-append s t raw rest h =
    let c = cut-IsCut s raw rest h in
    let (_, short) = find_from-lt soh (c.first_soh + 1) s c.second_soh c.second_lem in
    let (_, fits) = find_from-lt soh (c.checksum_idx + 3) s c.checksum_end c.end_lem in
    IsCut-cut (s ++ t) raw (rest ++ t) record {
      first_soh = c.first_soh;
      second_soh = c.second_soh;
      body_len = c.body_len;
      checksum_idx = c.checksum_idx;
      checksum_end = c.checksum_end;
      first_lem = find_byte-append soh s t c.first_soh c.first_lem;
      second_lem =
          find_from-append (find_byte soh) (find_byte-append soh) refl (c.first_soh + 1) s t
            c.second_soh c.second_lem;
      length_lem = rw (take-append c.second_soh s t (omega arith)) c.length_lem;
      marker_lem =
          find_from-append (find_sub marker) (find_sub-append marker) refl (c.second_soh + 1) s t
            c.checksum_idx c.marker_lem;
      end_lem =
          find_from-append (find_byte soh) (find_byte-append soh) refl (c.checksum_idx + 3) s t
            c.checksum_end c.end_lem;
      raw_lem = c.raw_lem ∙ sym (take-append (c.checksum_end + 1) s t (omega arith));
      rest_lem =
          ap (λ r. r ++ t) c.rest_lem ∙ sym (drop-append (c.checksum_end + 1) s t (omega arith));
    }

-- A cut makes the buffer shorter.
pub cut-lt : (s raw rest : List ℕ) → cut s ≡ some (raw, rest) → length rest < length s
cut-lt s raw rest h =
    let c = cut-IsCut s raw rest h in
    let (_, fits) = find_from-lt soh (c.checksum_idx + 3) s c.checksum_end c.end_lem in
    rw c.rest_lem (omega (arith, length-drop (c.checksum_end + 1) s))
