-- ===== src/Fix/Text/Decimal.antt =====
-- `int(str(n))` is `n`, for the texts of src/protocols/fix_handler.py.
use algo_engine.Prelude.{
  ℕ, zero, suc, ◌+◌, ◌-◌, ◌*◌, ◌/◌, ◌%◌, ◌≤◌, ◌<◌, ◌≡◌, ◌≢◌, refl, sym, ap, ◌∙◌, true, false, some,
  [], ◌∷◌, ◌++◌, arith, ltb, All, All-append, Bool-cases, inl, inr,
}
use algo_engine.Prelude.Int.{ℤ, pos, negsuc}
use algo_engine.Fix.Text.{
  Text, print_digits, str_nat, str_int, lstrip_int, rstrip_int, keep_int, strip_int, scan_digits,
  map_option, parse_int, negate, scan_signed,
}

abbrev pub IsDigit : ℕ → Type 0
IsDigit c = (b'0' ≤ c) × (c ≤ b'9')

-- The value of a row of digits behind an accumulator.
abbrev pub value : ℕ → Text → ℕ
value acc [] = acc
value acc (c ∷ t) = value (acc * 10 + (c - b'0')) t

value-append :
    (acc : ℕ) (t : Text) (c : ℕ) → value acc (t ++ (c ∷ [])) ≡ value acc t * 10 + (c - b'0')
value-append acc [] c = refl
value-append acc (d ∷ t) c = value-append (acc * 10 + (d - b'0')) t c

scan_digits_lem : (acc : ℕ) (t : Text) → All IsDigit t → scan_digits true acc t ≡ some (value acc t)
unfolding scan_digits
scan_digits_lem acc [] h = refl
scan_digits_lem acc (c ∷ t) (d, ds) = ground (arith, scan_digits_lem (acc * 10 + (c - b'0')) t ds)

print_digits_one : (fuel n : ℕ) → ltb n 10 ≡ true → print_digits (suc fuel) n ≡ (b'0' + n) ∷ []
unfolding print_digits
print_digits_one fuel n e = ground arith

print_digits_more :
    (fuel n : ℕ)
    → ltb n 10 ≡ false
    → print_digits (suc fuel) n ≡ print_digits fuel (n / 10) ++ ((b'0' + n % 10) ∷ [])
unfolding print_digits
print_digits_more fuel n e = ground arith

print_digits-IsDigit : (fuel n : ℕ) → All IsDigit (print_digits fuel n)
unfolding print_digits
print_digits-IsDigit zero n = tt
print_digits-IsDigit (suc fuel) n = elim (Bool-cases (ltb n 10)) [
  | inl e ↦ rw (print_digits_one fuel n e) (ground arith)
  | inr e ↦ rw (print_digits_more fuel n e) (
      All-append IsDigit (print_digits fuel (n / 10)) _ (print_digits-IsDigit fuel (n / 10))
        (omega arith))
]

value-print_digits : (fuel n : ℕ) → n < fuel → value 0 (print_digits fuel n) ≡ n
value-print_digits zero n h = elim h [ ]
value-print_digits (suc fuel) n h = elim (Bool-cases (ltb n 10)) [
  | inl e ↦ rw (print_digits_one fuel n e) (ground arith)
  | inr e ↦ rw (print_digits_more fuel n e) (
      value-append 0 (print_digits fuel (n / 10)) (b'0' + n % 10)
      ∙ (let ih : value 0 (print_digits fuel (n / 10)) ≡ n / 10 =
            value-print_digits fuel (n / 10) (ground arith) in
          omega arith))
]

append-ne-nil : (t : Text) (c : ℕ) → t ++ (c ∷ []) ≢ []
append-ne-nil [] c = cc
append-ne-nil (x ∷ t) c = cc

print_digits-ne-nil : (fuel n : ℕ) → n < fuel → print_digits fuel n ≢ []
print_digits-ne-nil zero n h = elim h [ ]
print_digits-ne-nil (suc fuel) n h = elim (Bool-cases (ltb n 10)) [
  | inl e ↦ rw (print_digits_one fuel n e) (cc)
  | inr e ↦
      rw (print_digits_more fuel n e) (append-ne-nil (print_digits fuel (n / 10)) (b'0' + n % 10))
]

print_digits-cons :
    (fuel n : ℕ)
    → n < fuel
    → (c : ℕ) × (t : Text) × (print_digits fuel n ≡ c ∷ t) × IsDigit c × All IsDigit t
print_digits-cons fuel n h = front (print_digits fuel n) (print_digits-IsDigit fuel n) refl
  where
    front :
        (t : Text)
        → All IsDigit t
        → t ≡ print_digits fuel n
        → (c : ℕ) × (t : Text) × (print_digits fuel n ≡ c ∷ t) × IsDigit c × All IsDigit t
    front [] d e = absurd (print_digits-ne-nil fuel n h (sym e))
    front (c ∷ t) (d, ds) e = (c, t, sym e, d, ds)

-- Digits are kept by the stripping of `int`.
lstrip_digits : (t : Text) → All IsDigit t → lstrip_int t ≡ t
lstrip_digits [] h = refl
lstrip_digits (c ∷ t) (d, ds) = ground arith

rstrip_digits : (t : Text) → All IsDigit t → rstrip_int t ≡ t
rstrip_digits [] h = refl
rstrip_digits (c ∷ t) (d, ds) = rw (rstrip_digits t ds) (keep_digit c t d)
  where
    keep_digit : (c : ℕ) (t : Text) → IsDigit c → keep_int c t ≡ c ∷ t
    keep_digit c [] d = ground arith
    keep_digit c (x ∷ t) d = refl

-- A digit that opens a row of digits is read as such.
scan_digits_start :
    (c : ℕ) (t : Text)
    → IsDigit c
    → All IsDigit t
    → scan_digits false 0 (c ∷ t) ≡ some (value 0 (c ∷ t))
unfolding scan_digits
scan_digits_start c t d ds = ground (arith, scan_digits_lem (0 * 10 + (c - b'0')) t ds)

scan_digits-print : (n : ℕ) → scan_digits false 0 (str_nat n) ≡ some n
unfolding str_nat
scan_digits-print n =
    let (c, t, e, d, ds) = print_digits-cons (suc n) n (omega arith) in
    rw e
      (scan_digits_start c t d ds ∙ ap some (rw (← e) (value-print_digits (suc n) n (omega arith))))

strip_digits : (t : Text) → All IsDigit t → strip_int t ≡ t
unfolding strip_int
strip_digits t h = rw (lstrip_digits t h) (rstrip_digits t h)

scan_signed_digits :
    (c : ℕ) (t : Text)
    → IsDigit c
    → scan_signed (c ∷ t) ≡ map_option pos (scan_digits false 0 (c ∷ t))
unfolding scan_signed
scan_signed_digits c t d = ground arith

pub str_nat-IsDigit : (n : ℕ) → All IsDigit (str_nat n)
unfolding str_nat
str_nat-IsDigit n = print_digits-IsDigit (suc n) n

pub str_nat-cons : (n : ℕ) → (c : ℕ) × (t : Text) × (str_nat n ≡ c ∷ t) × IsDigit c × All IsDigit t
unfolding str_nat
str_nat-cons n = print_digits-cons (suc n) n (omega arith)

parse_int-str_nat : (n : ℕ) → parse_int (str_nat n) ≡ some (pos n)
unfolding parse_int
parse_int-str_nat n =
    let (c, t, e, d, _) = str_nat-cons n in
    ap scan_signed (strip_digits (str_nat n) (str_nat-IsDigit n))
    ∙ ap scan_signed e
    ∙ scan_signed_digits c t d
    ∙ ap (λ u. map_option pos (scan_digits false 0 u)) (sym e)
    ∙ ap (map_option pos) (scan_digits-print n)

strip_minus : (t : Text) → All IsDigit t → t ≢ [] → strip_int (b'-' ∷ t) ≡ b'-' ∷ t
unfolding strip_int
strip_minus [] h ne = absurd (ne refl)
strip_minus (c ∷ t) h ne = rw (rstrip_digits (c ∷ t) h) refl

-- Reading back what `str` has printed gives the integer.
pub parse_int-str_int : (z : ℤ) → parse_int (str_int z) ≡ some z
unfolding str_int parse_int
parse_int-str_int (pos n) = parse_int-str_nat n
parse_int-str_int (negsuc n) =
    let (c, t, e, _, _) = str_nat-cons (suc n) in
    ap scan_signed (strip_minus (str_nat (suc n)) (str_nat-IsDigit (suc n)) (λ nil. cc))
    ∙ ap (map_option negate) (scan_digits-print (suc n))

pub value-str_nat : (n : ℕ) → value 0 (str_nat n) ≡ n
unfolding str_nat
value-str_nat n = value-print_digits (suc n) n (omega arith)

-- A number above zero begins with a digit that is not 0.
print_digits-head :
    (fuel n : ℕ)
    → n < fuel
    → 0 < n
    → (c : ℕ) × (t : Text) × (print_digits fuel n ≡ c ∷ t) × (c ≢ b'0')
print_digits-head zero n h k = absurd (omega arith)
print_digits-head (suc fuel) n h k = elim (Bool-cases (ltb n 10)) [
  | inl e ↦ (b'0' + n, [], print_digits_one fuel n e, omega arith)
  | inr e ↦
      let (c, t, q, z) = print_digits-head fuel (n / 10) (ground arith) (ground arith) in
      (
        c,
        t ++ ((b'0' + n % 10) ∷ []),
        print_digits_more fuel n e ∙ ap (λ u. u ++ ((b'0' + n % 10) ∷ [])) q,
        z,
      )
]

pub str_nat-head : (n : ℕ) → 0 < n → (c : ℕ) × (t : Text) × (str_nat n ≡ c ∷ t) × (c ≢ b'0')
unfolding str_nat
str_nat-head n h = print_digits-head (suc n) n (omega arith) h
