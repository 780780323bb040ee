-- ===== src/Plugins/Version/Print.antt =====
-- Versions that are printed are read back (src/plugins/loader.py).
use algo_engine.Prelude.{
  ℕ, zero, suc, ◌+◌, ◌-◌, ◌*◌, ◌≡◌, ◌≢◌, refl, sym, ap, ◌∙◌, Bool, true, false, some, [], ◌∷◌, ◌++◌,
  arith, ◌==◌, All, All-append, All-map, Bool-cases, inl, inr, append_assoc,
}
use algo_engine.Fix.Text.{Text, str_nat, is_digit, is_space, lstrip, rstrip, keep, strip}
use algo_engine.Fix.Text.Decimal.{
  IsDigit, value, str_nat-IsDigit, str_nat-cons, str_nat-head, value-str_nat,
}
use algo_engine.Plugins.Version.{
  read_digits, read_number, read_dotted, is_ident, is_build, is_pre, is_suffix, parse_semver,
}

-- `f"{major}.{minor}.{patch}"`
abbrev pub print_version : ℕ → ℕ → ℕ → Text
print_version a b c = str_nat a ++ (b'.' ∷ (str_nat b ++ (b'.' ∷ str_nat c)))

-- A text that does not go on with a digit.
abbrev Ends : Text → Type 0
Ends [] = Unit
Ends (c ∷ t) = is_digit c ≡ false

read_digits_lem :
    (acc : ℕ) (t rest : Text)
    → All IsDigit t
    → Ends rest
    → read_digits acc (t ++ rest) ≡ (value acc t, rest)
unfolding read_digits
read_digits_lem acc [] [] h e = refl
read_digits_lem acc [] (c ∷ rest) h e = ground arith
read_digits_lem acc (c ∷ t) rest (d, ds) e =
    ground (arith, read_digits_lem (acc * 10 + (c - b'0')) t rest ds e)

read_number_cons :
    (c : ℕ) (t rest : Text)
    → c ≢ b'0'
    → IsDigit c
    → All IsDigit t
    → Ends rest
    → read_number ((c ∷ t) ++ rest) ≡ some (value 0 (c ∷ t), rest)
unfolding read_number
read_number_cons c t rest z d ds e = ground (arith, read_digits_lem (c - b'0') t rest ds e)

read_number_zero : (rest : Text) → read_number (b'0' ∷ rest) ≡ some (0, rest)
unfolding read_number
read_number_zero rest = refl

str_nat_zero : str_nat 0 ≡ b'0' ∷ []
unfolding str_nat
str_nat_zero = refl

-- A printed number is read back, with what follows it left over.
read_number-str_nat :
    (n : ℕ) (rest : Text) → Ends rest → read_number (str_nat n ++ rest) ≡ some (n, rest)
read_number-str_nat zero rest e =
    ap (λ t. read_number (t ++ rest)) str_nat_zero ∙ read_number_zero rest
read_number-str_nat (suc n) rest e =
    let (c, t, q, d, ds) = str_nat-cons (suc n) in
    let (b, u, r, z) = str_nat-head (suc n) (omega arith) in
    let same : b ≡ c = let w : b ∷ u ≡ c ∷ t = sym r ∙ q in cc in
    let nonzero : c ≢ b'0' = omega arith in
    ap (λ x. read_number (x ++ rest)) q
    ∙ read_number_cons c t rest nonzero d ds e
    ∙ ap (λ x. some (x, rest)) (ap (value 0) (sym q) ∙ value-str_nat (suc n))

read_dotted-str_nat :
    (n : ℕ) (rest : Text) → read_dotted (str_nat n ++ (b'.' ∷ rest)) ≡ some (n, rest)
read_dotted-str_nat n rest = rw (read_number-str_nat n (b'.' ∷ rest) refl, read_dotted) refl

-- No white space in it.
abbrev IsSolid : Text → Type 0
IsSolid t = All (λ c. is_space c ≡ false) t

digits-IsSolid : (t : Text) → All IsDigit t → IsSolid t
digits-IsSolid t h = All-map (λ c d. ground arith) t h

lstrip_solid : (t : Text) → IsSolid t → lstrip t ≡ t
lstrip_solid [] h = refl
lstrip_solid (c ∷ t) (d, ds) = ground arith

rstrip_solid : (t : Text) → IsSolid t → rstrip t ≡ t
rstrip_solid [] h = refl
rstrip_solid (c ∷ t) (d, ds) = rw (rstrip_solid t ds) (keep_solid c t d)
  where
    keep_solid : (c : ℕ) (t : Text) → is_space c ≡ false → keep c t ≡ c ∷ t
    keep_solid c [] d = ground arith
    keep_solid c (x ∷ t) d = refl

strip_solid : (t : Text) → IsSolid t → strip t ≡ t
unfolding strip
strip_solid t h = ap rstrip (lstrip_solid t h) ∙ rstrip_solid t h

ident-solid : (c : ℕ) → is_ident c ≡ true → is_space c ≡ false
ident-solid c h = ground arith

build-IsSolid : (after : Bool) (t : Text) → is_build after t ≡ true → IsSolid t
unfolding is_build
build-IsSolid after [] h = tt
build-IsSolid after (c ∷ t) h = elim (Bool-cases (is_ident c)) [
  | inl i ↦ (ident-solid c i, build-IsSolid true t (ground arith))
  | inr i ↦ (ground arith, build-IsSolid false t (ground arith))
]

pre-IsSolid : (after : Bool) (t : Text) → is_pre after t ≡ true → IsSolid t
unfolding is_pre
pre-IsSolid after [] h = tt
pre-IsSolid after (c ∷ t) h = elim (Bool-cases (is_ident c)) [
  | inl i ↦ (ident-solid c i, pre-IsSolid true t (ground arith))
  | inr i ↦ elim (Bool-cases (c == b'.')) [
    | inl dot ↦ (ground arith, pre-IsSolid false t (ground arith))
    | inr plus ↦ (ground arith, build-IsSolid false t (ground arith))
  ]
]

suffix-IsSolid : (t : Text) → is_suffix t ≡ true → IsSolid t
unfolding is_suffix
suffix-IsSolid [] h = tt
suffix-IsSolid (c ∷ t) h = elim (Bool-cases (c == b'-')) [
  | inl minus ↦ (ground arith, pre-IsSolid false t (ground arith))
  | inr plus ↦ (ground arith, build-IsSolid false t (ground arith))
]

suffix-Ends : (t : Text) → is_suffix t ≡ true → Ends t
unfolding is_suffix
suffix-Ends [] h = tt
suffix-Ends (c ∷ t) h = ground arith

print_version-IsSolid : (a b c : ℕ) (t : Text) → IsSolid t → IsSolid (print_version a b c ++ t)
print_version-IsSolid a b c t h =
    let solid = λ (n : ℕ). digits-IsSolid (str_nat n) (str_nat-IsDigit n) in
    All-append _ (print_version a b c) t
      (All-append _ (str_nat a) _ (solid a)
        (refl, All-append _ (str_nat b) _ (solid b) (refl, solid c)))
      h

parse_semver_dotted :
    (v t u w : Text) (a b c : ℕ)
    → read_dotted (strip v) ≡ some (a, t)
    → read_dotted t ≡ some (b, u)
    → read_number u ≡ some (c, w)
    → is_suffix w ≡ true
    → parse_semver v ≡ some (a ∷ b ∷ c ∷ [])
unfolding parse_semver
parse_semver_dotted v t u w a b c p q r s =
    rw (p, parse_semver) (rw (q, parse_semver) (rw (r, parse_semver) (rw s refl)))

-- A version that is printed from three numbers is read back as these three numbers, whatever
-- well-formed pre-release and build are written behind it: neither has a part in the result.
pub parse_semver-print_version :
    (a b c : ℕ) (suffix : Text)
    → is_suffix suffix ≡ true
    → parse_semver (print_version a b c ++ suffix) ≡ some (a ∷ b ∷ c ∷ [])
parse_semver-print_version a b c suffix h =
    let tail = str_nat c ++ suffix in
    let whole : print_version a b c ++ suffix ≡ str_nat a ++ (b'.' ∷ (str_nat b ++ (b'.' ∷ tail))) =
      append_assoc (str_nat a) _ suffix
      ∙ ap (λ t. str_nat a ++ (b'.' ∷ t)) (append_assoc (str_nat b) _ suffix) in
    let solid = print_version-IsSolid a b c suffix (suffix-IsSolid suffix h) in
    parse_semver_dotted (print_version a b c ++ suffix) (str_nat b ++ (b'.' ∷ tail)) tail suffix a b
      c (ap read_dotted (strip_solid _ solid ∙ whole) ∙ read_dotted-str_nat a _)
      (read_dotted-str_nat b tail) (read_number-str_nat c suffix (suffix-Ends suffix h)) h
