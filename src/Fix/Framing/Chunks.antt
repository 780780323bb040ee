-- ===== src/Fix/Framing/Chunks.antt =====
-- The division of the stream into chunks, as `_process_buffer` and `_read_loop` see it
-- (src/protocols/fix_handler.py).
use algo_engine.Prelude.{
  ℕ, zero, suc, ◌≤◌, ◌≡◌, refl, sym, ap, ◌∙◌, none, some, List, [], ◌∷◌, ◌++◌, arith, length,
  append_assoc, append-nil, Option-cases, inl, inr,
}
use algo_engine.Fix.Message.{FixMessage}
use algo_engine.Fix.Wire.{parse_bytes}
use algo_engine.Fix.Framing.{cut, process, process_buffer, read_chunks}
use algo_engine.Fix.Framing.Find.{cut-append, cut-lt}

-- A message found before the others.
abbrev pub before : FixMessage → List FixMessage × List ℕ → List FixMessage × List ℕ
before m (ms, left) = (m ∷ ms, left)

process_end : (fuel : ℕ) (s : List ℕ) → cut s ≡ none → process fuel s ≡ ([], s)
unfolding process
process_end zero s h = refl
process_end (suc fuel) s h = ground arith

process-cut :
    (fuel : ℕ) (s raw rest : List ℕ)
    → cut s ≡ some (raw, rest)
    → process (suc fuel) s ≡ before (parse_bytes raw) (process fuel rest)
unfolding process
process-cut fuel s raw rest h = ground arith

pub cut-nil : cut [] ≡ none
unfolding cut
cut-nil = refl

-- More fuel than bytes changes nothing.
process_fuel :
    (fuel fuel' : ℕ) (s : List ℕ)
    → length s ≤ fuel
    → length s ≤ fuel'
    → process fuel s ≡ process fuel' s
process_fuel zero fuel' [] h k = process_end zero [] cut-nil ∙ sym (process_end fuel' [] cut-nil)
process_fuel zero fuel' (c ∷ s) h k = absurd (omega arith)
process_fuel (suc fuel) zero [] h k =
    process_end (suc fuel) [] cut-nil ∙ sym (process_end zero [] cut-nil)
process_fuel (suc fuel) zero (c ∷ s) h k = absurd (omega arith)
process_fuel (suc fuel) (suc fuel') s h k = elim (Option-cases (cut s)) [
  | inl e ↦ process_end (suc fuel) s e ∙ sym (process_end (suc fuel') s e)
  | inr ((raw, rest), e) ↦
      let shorter = cut-lt s raw rest e in
      process-cut fuel s raw rest e
      ∙ ap (before (parse_bytes raw)) (process_fuel fuel fuel' rest (omega arith) (omega arith))
      ∙ sym (process-cut fuel' s raw rest e)
]

pub process_buffer_end : (s : List ℕ) → cut s ≡ none → process_buffer s ≡ ([], s)
unfolding process_buffer
process_buffer_end s e = process_end (length s) s e

pub process_buffer-cut :
    (s raw rest : List ℕ)
    → cut s ≡ some (raw, rest)
    → process_buffer s ≡ before (parse_bytes raw) (process_buffer rest)
unfolding process_buffer
process_buffer-cut s raw rest e =
    let shorter = cut-lt s raw rest e in
    process_fuel (length s) (suc (length s)) s (omega arith) (omega arith)
    ∙ process-cut (length s) s raw rest e
    ∙ ap (before (parse_bytes raw))
        (process_fuel (length s) (length rest) rest (omega arith) (omega arith))

-- Two stretches of processing, one after the other.
abbrev pub then_also :
    List FixMessage × List ℕ → (List ℕ → List FixMessage × List ℕ) → List FixMessage × List ℕ
then_also (ms, left) f = let (more, last) = f left in (ms ++ more, last)

process_append :
    (n : ℕ) (s t : List ℕ)
    → length s ≤ n
    → process_buffer (s ++ t) ≡ then_also (process_buffer s) (λ left. process_buffer (left ++ t))
process_append zero s t h = elim (Option-cases (cut s)) [
  | inl e ↦ rw (process_buffer_end s e) refl
  | inr ((raw, rest), e) ↦ let shorter = cut-lt s raw rest e in absurd (omega arith)
]
process_append (suc n) s t h = elim (Option-cases (cut s)) [
  | inl e ↦ rw (process_buffer_end s e) refl
  | inr ((raw, rest), e) ↦
      let shorter = cut-lt s raw rest e in
      let go_on = λ (left : List ℕ). process_buffer (left ++ t) in
      process_buffer-cut (s ++ t) raw (rest ++ t) (cut-append s t raw rest e)
      ∙ ap (before (parse_bytes raw)) (process_append n rest t (omega arith))
      ∙ ap (λ p. then_also p go_on) (sym (process_buffer-cut s raw rest e))
]

process_left : (n : ℕ) (s : List ℕ) → length s ≤ n → cut (process_buffer s).1 ≡ none
process_left zero s h = elim (Option-cases (cut s)) [
  | inl e ↦ rw (process_buffer_end s e) e
  | inr ((raw, rest), e) ↦ let shorter = cut-lt s raw rest e in absurd (omega arith)
]
process_left (suc n) s h = elim (Option-cases (cut s)) [
  | inl e ↦ rw (process_buffer_end s e) e
  | inr ((raw, rest), e) ↦
      let shorter = cut-lt s raw rest e in
      rw (process_buffer-cut s raw rest e) (process_left n rest (omega arith))
]

-- The loop of `_process_buffer` runs to its own end: the buffer that it leaves holds no message that
-- could still be cut off, and another run of it finds nothing.
pub process_buffer_left :
    (s : List ℕ)
    → let (_, left) = process_buffer s in (cut left ≡ none) × (process_buffer left ≡ ([], left))
process_buffer_left s =
    let e = process_left (length s) s (omega arith) in
    (e, process_buffer_end (process_buffer s).1 e)

-- The bytes of a list of chunks.
abbrev pub concat : List (List ℕ) → List ℕ
concat [] = []
concat (c ∷ cs) = c ++ concat cs

chunks_from :
    (buffer : List ℕ) (chunks : List (List ℕ))
    → cut buffer ≡ none
    → read_chunks buffer chunks ≡ process_buffer (buffer ++ concat chunks)
unfolding read_chunks
chunks_from buffer [] h = rw (append-nil buffer) (sym (process_buffer_end buffer h))
chunks_from buffer (chunk ∷ chunks) h =
    let left = (process_buffer (buffer ++ chunk)).1 in
    ap (λ p. ((process_buffer (buffer ++ chunk)).0 ++ p.0, p.1))
      (chunks_from left chunks (process_buffer_left (buffer ++ chunk)).0)
    ∙ sym
        (process_append (length (buffer ++ chunk)) (buffer ++ chunk) (concat chunks) (omega arith))
    ∙ ap process_buffer (append_assoc buffer chunk (concat chunks))

-- However the stream is divided into chunks, the messages that are dispatched, their order and the
-- bytes left over are those of the whole stream in one piece.
pub read_chunks-eq-process_buffer :
    (chunks : List (List ℕ)) → read_chunks [] chunks ≡ process_buffer (concat chunks)
read_chunks-eq-process_buffer chunks = chunks_from [] chunks cut-nil
