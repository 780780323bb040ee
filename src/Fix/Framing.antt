-- ===== src/Fix/Framing.antt =====
-- Framing of the byte stream in `FIXSession` (src/protocols/fix_handler.py): `_extract_body_length`,
-- `_process_buffer` and the reading part of `_read_loop`. A dispatched message is one of the list
-- that is returned; bytes are numbers. The chunks are what `read` gives before its empty answer, which
-- ends the loop.
pub mod Find
pub mod Chunks
pub mod Parts
pub mod Frames
use algo_engine.Prelude.{
  ℕ, zero, suc, ◌+◌, ◌≡◌, refl, Bool, true, false, ◌&&◌, Option, none, some, List, [], ◌∷◌, ◌++◌,
  arith, if◌then◌else◌, ◌==◌, length, take, drop,
}
use algo_engine.Prelude.Int.{ℤ}
use algo_engine.Fix.Text.{Text, codes, parse_int, split, soh, map_option}
use algo_engine.Fix.Message.{FixMessage}
use algo_engine.Fix.Wire.{decode_ascii, parse_bytes}

-- `buffer.find(byte)`
abbrev pub find_byte : ℕ → List ℕ → Option ℕ
find_byte b [] = none
find_byte b (c ∷ t) = if c == b then some 0 else map_option suc (find_byte b t)

-- `t.startswith(pattern)`
abbrev pub starts_with : List ℕ → List ℕ → Bool
starts_with [] t = true
starts_with (p ∷ ps) [] = false
starts_with (p ∷ ps) (c ∷ t) = (c == p) && starts_with ps t

-- `buffer.find(pattern)` for a pattern of at least one byte.
abbrev pub find_sub : List ℕ → List ℕ → Option ℕ
find_sub pat [] = none
find_sub pat (c ∷ t) = if starts_with pat (c ∷ t) then some 0 else map_option suc (find_sub pat t)

-- `buffer.find(…, start)`
abbrev pub find_from : (List ℕ → Option ℕ) → ℕ → List ℕ → Option ℕ
find_from find start t = map_option (λ i. start + i) (find (drop start t))

infixl 5 ◌>>=◌
abbrev pub ◌>>=◌ {ℓ κ} : {A : Type ℓ} {B : Type κ} → Option A → (A → Option B) → Option B
none >>= f = none
some a >>= f = f a

body_length_in : List Text → Option ℤ
body_length_in [] = none
body_length_in (p ∷ ps) =
    if starts_with (codes "9=") p then parse_int (drop 2 p) else body_length_in ps

-- `_extract_body_length`
unfoldable pub extract_body_length : List ℕ → ℕ → Option ℤ
unfolding body_length_in
extract_body_length buffer soh_idx = body_length_in (split soh (decode_ascii (take soh_idx buffer)))

abbrev pub marker : List ℕ
marker = codes "10="

-- One turn of the loop of `_process_buffer`: the message cut off and what is left, or `none` where
-- the loop ends with the buffer as it is.
unfoldable pub cut : List ℕ → Option (List ℕ × List ℕ)
cut buffer = do
  first_soh ← find_byte soh buffer
  second_soh ← find_from (find_byte soh) (first_soh + 1) buffer
  body_len ← extract_body_length buffer second_soh
  checksum_idx ← find_from (find_sub marker) (second_soh + 1) buffer
  checksum_end ← find_from (find_byte soh) (checksum_idx + 3) buffer
  some (take (checksum_end + 1) buffer, drop (checksum_end + 1) buffer)

-- The loop, on fuel.
unfoldable pub process : ℕ → List ℕ → List FixMessage × List ℕ
process zero buffer = ([], buffer)
process (suc fuel) buffer = elim (cut buffer) [
  | none ↦ ([], buffer)
  | some (msg_raw, rest) ↦
      let (msgs, left) = process fuel rest in (parse_bytes msg_raw ∷ msgs, left)
]

-- `_process_buffer`: every turn takes a byte at least.
unfoldable pub process_buffer : List ℕ → List FixMessage × List ℕ
unfolding process
process_buffer buffer = process (length buffer) buffer

-- The turns of `_read_loop` on the chunks that `read` returns, from a buffer.
unfoldable pub read_chunks : List ℕ → List (List ℕ) → List FixMessage × List ℕ
read_chunks buffer [] = ([], buffer)
read_chunks buffer (chunk ∷ chunks) =
    let (msgs, left) = process_buffer (buffer ++ chunk) in
    let (more, last) = read_chunks left chunks in (msgs ++ more, last)
