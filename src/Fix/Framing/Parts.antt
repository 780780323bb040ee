-- ===== src/Fix/Framing/Parts.antt =====
-- Cutting one message out of a buffer in src/protocols/fix_handler.py.
use algo_engine.Prelude.{
  ℕ, ◌+◌, ◌≡◌, refl, sym, ap, ◌∙◌, true, false, Option, none, some, List, [], ◌∷◌, ◌++◌, arith,
  length, length-append, append_assoc, take, drop, take_front, drop_front, All,
}
use algo_engine.Prelude.Int.{ℤ}
use algo_engine.Fix.Text.{Text, codes, parse_int, soh, split, map_option}
use algo_engine.Fix.Text.Split.{Lacks, lines, split-join}
use algo_engine.Fix.Wire.{decode_ascii}
use algo_engine.Fix.Framing.{
  find_byte, starts_with, find_sub, find_from, extract_body_length, body_length_in, marker, cut,
}
use algo_engine.Fix.Framing.Find.{IsCut-cut}

find_byte_first : (b : ℕ) (s t : List ℕ) → Lacks b s → find_byte b (s ++ (b ∷ t)) ≡ some (length s)
find_byte_first b [] t h = ground arith
find_byte_first b (c ∷ s) t (d, ds) = ground (arith, find_byte_first b s t ds)

-- A pattern without SOH that begins before an SOH ends before it.
starts_with-soh :
    (p s t : List ℕ) → Lacks soh p → starts_with p (s ++ (soh ∷ t)) ≡ true → starts_with p s ≡ true
starts_with-soh [] s t h e = refl
starts_with-soh (x ∷ p) [] t (d, ds) e = ground arith
starts_with-soh (x ∷ p) (c ∷ s) t (d, ds) e = ground (arith, starts_with-soh p s t ds)

find_marker_piece :
    (s t : List ℕ) (j : ℕ)
    → find_sub marker s ≡ none
    → find_sub marker t ≡ some j
    → find_sub marker (s ++ (soh ∷ t)) ≡ some (length s + 1 + j)
find_marker_piece [] t j h e = ground arith
find_marker_piece (c ∷ s) t j h e =
    let clean : Lacks soh marker = omega arith in
    ground (arith, find_marker_piece s t j, starts_with-soh marker (c ∷ s) t clean)

find_marker-lines :
    (ps : List Text) (t : List ℕ)
    → All (λ p. find_sub marker p ≡ none) ps
    → find_sub marker (lines soh ps ++ (marker ++ t)) ≡ some (length (lines soh ps))
find_marker-lines [] t h = refl
find_marker-lines (p ∷ ps) t (h, hs) =
    ap (find_sub marker) (append_assoc p (soh ∷ lines soh ps) (marker ++ t))
    ∙ find_marker_piece p (lines soh ps ++ (marker ++ t)) (length (lines soh ps)) h
        (find_marker-lines ps t hs)
    ∙ ap some (omega (arith, length-append p (soh ∷ lines soh ps)))

find_at :
    (find : List ℕ → Option ℕ) (n : ℕ) (buffer f g : List ℕ) (j : ℕ)
    → n ≡ length f
    → buffer ≡ f ++ g
    → find g ≡ some j
    → find_from find n buffer ≡ some (n + j)
find_at find n buffer f g j size same h =
    ap (find_from find n) same
    ∙ ap (λ l. map_option (λ i. n + i) (find l)) (ap (λ k. drop k (f ++ g)) size ∙ drop_front f g)
    ∙ ap (map_option (λ i. n + i)) h

-- A frame in parts.
abbrev pub parts : Text → Text → List Text → Text → List ℕ
parts a b ps p = a ++ (soh ∷ (b ++ (soh ∷ (lines soh ps ++ (marker ++ (p ++ (soh ∷ [])))))))

-- The parts: the begin string, the length field, the lines of the body, and the checksum.
module _ (a b : Text) (ps : List Text) (p : Text) (n : ℤ) (a_clean : Lacks soh a)
    (b_clean : Lacks soh b) (p_clean : Lacks soh p)
    (no_marker : All (λ q. find_sub marker q ≡ none) ps)
    (ascii : decode_ascii (a ++ (soh ∷ b)) ≡ a ++ (soh ∷ b))
    (a_other : starts_with (codes "9=") a ≡ false) (b_length : starts_with (codes "9=") b ≡ true)
    (b_number : parse_int (drop 2 b) ≡ some n) where
  -- The length field is read whatever follows it.
  length_read :
      (t : List ℕ) → extract_body_length ((a ++ (soh ∷ b)) ++ t) (length (a ++ (soh ∷ b))) ≡ some n
  unfolding extract_body_length body_length_in
  length_read t =
      ap (λ l. body_length_in (split soh (decode_ascii l))) (take_front (a ++ (soh ∷ b)) t)
      ∙ ap (λ l. body_length_in (split soh l)) ascii
      ∙ ap body_length_in (split-join soh a (b ∷ []) (a_clean, (b_clean, tt)))
      ∙ rw (a_other, b_length) b_number

  pub cut-parts : (rest : List ℕ) → cut (parts a b ps p ++ rest) ≡ some (parts a b ps p, rest)
  cut-parts rest =
      let whole_frame = parts a b ps p in
      let f2 = a ++ (soh ∷ b) in
      let f3 = f2 ++ (soh ∷ lines soh ps) in
      let f4 = f3 ++ (marker ++ p) in
      let first = length a in
      let second = first + 1 + length b in
      let idx = second + 1 + length (lines soh ps) in
      let end = idx + 3 + length p in
      let l2 = length-append a (soh ∷ b) in
      let l3 = length-append f2 (soh ∷ lines soh ps) in
      let l4 = length-append f3 (marker ++ p) in
      let l5 = length-append f4 (soh ∷ []) in
      let l2' = length-append a (soh ∷ []) in
      let l3' = length-append f2 (soh ∷ []) in
      let l4' = length-append f3 marker in
      let whole : whole_frame ≡ f4 ++ (soh ∷ []) = simp append_assoc in
      let longer = ap (λ (l : List ℕ). length l) whole in
      let size : end + 1 ≡ length whole_frame = omega arith in
      let after_second : List ℕ = soh ∷ (lines soh ps ++ (marker ++ (p ++ (soh ∷ rest)))) in
      let after_first : List ℕ = b ++ after_second in
      IsCut-cut (whole_frame ++ rest) whole_frame rest record {
        first_soh = first;
        second_soh = second;
        body_len = n;
        checksum_idx = idx;
        checksum_end = end;
        first_lem =
            ap (find_byte soh) (
              let same : whole_frame ++ rest ≡ a ++ (soh ∷ after_first) = simp append_assoc in same)
            ∙ find_byte_first soh a after_first a_clean;
        second_lem =
            find_at (find_byte soh) (first + 1) (whole_frame ++ rest) (a ++ (soh ∷ []))
              (b ++ (soh ∷ (lines soh ps ++ (marker ++ (p ++ (soh ∷ rest)))))) (length b)
              (omega arith) (simp append_assoc)
              (find_byte_first soh b (lines soh ps ++ (marker ++ (p ++ (soh ∷ rest)))) b_clean);
        length_lem =
            ap (λ l. extract_body_length l second)
              (let same : whole_frame ++ rest ≡ f2 ++ after_second = simp append_assoc in same)
            ∙ ap (extract_body_length (f2 ++ after_second))
                (let size : second ≡ length f2 = omega arith in size)
            ∙ length_read after_second;
        marker_lem =
            find_at (find_sub marker) (second + 1) (whole_frame ++ rest) (f2 ++ (soh ∷ []))
              (lines soh ps ++ (marker ++ (p ++ (soh ∷ rest)))) (length (lines soh ps))
              (omega arith) (simp append_assoc)
              (find_marker-lines ps (p ++ (soh ∷ rest)) no_marker);
        end_lem =
            find_at (find_byte soh) (idx + 3) (whole_frame ++ rest) (f3 ++ marker)
              (p ++ (soh ∷ rest)) (length p) (omega arith) (simp append_assoc)
              (find_byte_first soh p rest p_clean);
        raw_lem = sym (ap (λ k. take k (whole_frame ++ rest)) size ∙ take_front whole_frame rest);
        rest_lem = sym (ap (λ k. drop k (whole_frame ++ rest)) size ∙ drop_front whole_frame rest);
      }
