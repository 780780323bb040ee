-- ===== src/Fix/Text.antt =====
-- What src/protocols/fix_handler.py uses of Python's `str`: a text is the list of its code points.
-- Whitespace and digits are those of ASCII and Latin-1, which is all that decoded bytes hold beside
-- the replacement character.
pub mod Decimal
pub mod Split
use algo_engine.Prelude.Eq.{Eq}
use algo_engine.Prelude.{
  ◌↔◌, ℕ, zero, suc, ◌+◌, ◌-◌, ◌*◌, ◌/◌, ◌%◌, ◌≡◌, refl, Bool, true, false, not, ◌&&◌, ◌||◌, Option,
  none, some, List, [], ◌∷◌, ◌++◌, arith, if◌then◌else◌, ltb, leb, ◌==◌,
}
use Prim.Native.Char.{code}
use Prim.Native.String.{String}
use algo_engine.Prelude.Int.{ℤ, pos, negsuc}

abbrev pub Text : Type 0
Text = List ℕ

-- The code points of a literal.
abbrev pub codes : String → Text
codes String.[] = []
codes (String.◌∷◌ c s) = code c ∷ codes s

abbrev pub soh : ℕ
soh = 1

abbrev pub space : ℕ
space = b' '

abbrev pub equals : ℕ
equals = b'='

abbrev pub is_digit : ℕ → Bool
is_digit c = leb b'0' c && leb c b'9'

abbrev pub is_space : ℕ → Bool
is_space c = (leb 9 c && leb c 13) || (leb 28 c && leb c 32) || c == 0x85 || c == 0xa0

-- `str(n)`: the digits of a number, with as much fuel as the number is long.
unfoldable pub print_digits : ℕ → ℕ → Text
print_digits zero n = []
print_digits (suc fuel) n = elim (ltb n 10) [
  | true ↦ (b'0' + n) ∷ []
  | false ↦ print_digits fuel (n / 10) ++ ((b'0' + n % 10) ∷ [])
]

unfoldable pub str_nat : ℕ → Text
unfolding print_digits
str_nat n = print_digits (suc n) n

unfoldable pub str_int : ℤ → Text
unfolding str_nat
str_int (pos n) = str_nat n
str_int (negsuc n) = b'-' ∷ str_nat (suc n)

-- `f"{n:03d}"` for a number below 1000.
unfoldable pub pad_three : ℕ → Text
pad_three n = (b'0' + n / 100) ∷ (b'0' + n / 10 % 10) ∷ (b'0' + n % 10) ∷ []

abbrev pub lstrip : Text → Text
lstrip [] = []
lstrip (c ∷ t) = if is_space c then lstrip t else c ∷ t

-- Puts a character before what `rstrip` has left.
abbrev pub keep : ℕ → Text → Text
keep c [] = if is_space c then [] else c ∷ []
keep c (x ∷ t) = c ∷ x ∷ t

abbrev pub rstrip : Text → Text
rstrip [] = []
rstrip (c ∷ t) = keep c (rstrip t)

unfoldable pub strip : Text → Text
strip t = rstrip (lstrip t)

-- The digits of `int(…)`: `_` may stand between two of them. `after` says that a digit has just
-- been read.
unfoldable pub scan_digits : Bool → ℕ → Text → Option ℕ
scan_digits after acc [] = if after then some acc else none
scan_digits after acc (c ∷ t) =
    let more = scan_digits true (acc * 10 + (c - b'0')) t in
    let skip = scan_digits false acc t in
    if is_digit c then more else if (c == b'_') && after then skip else none

negate : ℕ → ℤ
negate zero = pos 0
negate (suc n) = negsuc n

abbrev pub map_option {ℓ κ} : {A : Type ℓ} {B : Type κ} → (A → B) → Option A → Option B
map_option f none = none
map_option f (some a) = some (f a)

scan_signed : Text → Option ℤ
unfolding scan_digits negate
scan_signed [] = none
scan_signed (c ∷ t) =
    if c == b'-'
    then map_option negate (scan_digits false 0 t)
    else if c == b'+'
    then map_option pos (scan_digits false 0 t)
    else map_option pos (scan_digits false 0 (c ∷ t))

-- The white space that `int` skips: that of `strip` without the separators 28 to 31.
abbrev pub is_int_space : ℕ → Bool
is_int_space c = (leb 9 c && leb c 13) || c == 32 || c == 0x85 || c == 0xa0

abbrev pub lstrip_int : Text → Text
lstrip_int [] = []
lstrip_int (c ∷ t) = if is_int_space c then lstrip_int t else c ∷ t

abbrev pub keep_int : ℕ → Text → Text
keep_int c [] = if is_int_space c then [] else c ∷ []
keep_int c (x ∷ t) = c ∷ x ∷ t

abbrev pub rstrip_int : Text → Text
rstrip_int [] = []
rstrip_int (c ∷ t) = keep_int c (rstrip_int t)

unfoldable pub strip_int : Text → Text
strip_int t = rstrip_int (lstrip_int t)

-- `int(t)`; `none` is the `ValueError`.
unfoldable pub parse_int : Text → Option ℤ
unfolding scan_signed strip_int
parse_int t = scan_signed (strip_int t)

-- `t.replace(old, new)` for two characters.
abbrev pub replace : ℕ → ℕ → Text → Text
replace old new [] = []
replace old new (c ∷ t) = (if c == old then new else c) ∷ replace old new t

-- Puts a character at the front of the first piece.
abbrev pub push_front : ℕ → List Text → List Text
push_front c [] = (c ∷ []) ∷ []
push_front c (p ∷ ps) = (c ∷ p) ∷ ps

-- `t.split(sep)` for one character.
abbrev pub split : ℕ → Text → List Text
split sep [] = [] ∷ []
split sep (c ∷ t) = let rest = split sep t in if c == sep then [] ∷ rest else push_front c rest

-- `sep.join(pieces)`
abbrev pub join : ℕ → List Text → Text
join sep [] = []
join sep (p ∷ []) = p
join sep (p ∷ q ∷ ps) = p ++ (sep ∷ join sep (q ∷ ps))

abbrev pub contains_char : ℕ → Text → Bool
contains_char c [] = false
contains_char c (x ∷ t) = (x == c) || contains_char c t

-- `t.split("=", 1)` for a text that holds the separator: what stands before and after the first.
abbrev pub split_once : ℕ → Text → Text × Text
split_once sep [] = ([], [])
split_once sep (c ∷ t) = let (a, b) = split_once sep t in if c == sep then ([], t) else (c ∷ a, b)

-- `==` of two texts.
unfoldable pub text_eq : Text → Text → Bool
text_eq [] [] = true
text_eq (a ∷ s) (b ∷ t) = (a == b) && text_eq s t
text_eq _ _ = false

pub text_eq_iff : (s t : Text) → (text_eq s t ≡ true) ↔ (s ≡ t)
unfolding text_eq
text_eq_iff [] [] = ground arith
text_eq_iff [] (b ∷ t) = ground arith
text_eq_iff (a ∷ s) [] = ground arith
text_eq_iff (a ∷ s) (b ∷ t) = ground (arith, text_eq_iff s t)

instance abbrev pub text_key_eq : Eq Text
text_key_eq = record { beq = text_eq; beq_iff = text_eq_iff }
