-- ===== src/Plugins/Version.antt =====
-- The version helpers of src/plugins/loader.py, with the regular expression `_VERSION_RE` written out
-- as a scanner. Texts are lists of code points, and digits are those of ASCII.
pub mod Print
pub mod Order
use algo_engine.Prelude.{
  ℕ, ◌+◌, ◌-◌, ◌*◌, Bool, true, false, not, ◌&&◌, ◌||◌, Option, none, some, List, [], ◌∷◌,
  if◌then◌else◌, ltb, leb, ◌==◌, length,
}
use algo_engine.Prelude.Int.{ℤ, pos, negsuc, ◌-ℤ◌, ltb_ℤ}
use algo_engine.Fix.Text.{Text, is_digit, strip}

-- The rest of a row of digits, with the number so far.
unfoldable pub read_digits : ℕ → Text → ℕ × Text
read_digits acc [] = (acc, [])
read_digits acc (c ∷ t) =
    let rest = read_digits (acc * 10 + (c - b'0')) t in if is_digit c then rest else (acc, c ∷ t)

-- `0|[1-9]\d*`
unfoldable pub read_number : Text → Option (ℕ × Text)
unfolding read_digits
read_number [] = none
read_number (c ∷ t) =
    if c == b'0' then some (0, t) else if is_digit c then some (read_digits (c - b'0') t) else none

-- `\.`
abbrev pub read_dot : Text → Option Text
read_dot [] = none
read_dot (c ∷ t) = if c == b'.' then some t else none

-- `[0-9A-Za-z-]`
abbrev pub is_ident : ℕ → Bool
is_ident c = is_digit c || (leb b'A' c && leb c b'Z') || (leb b'a' c && leb c b'z') || c == b'-'

-- Identifiers with dots between them up to the end; `after` says that one has been begun.
unfoldable pub is_build : Bool → Text → Bool
is_build after [] = after
is_build after (c ∷ t) =
    let more = is_build true t in
    let next = is_build false t in
    if is_ident c then more else if (c == b'.') && after then next else false

-- The same up to the end or to a build.
unfoldable pub is_pre : Bool → Text → Bool
unfolding is_build
is_pre after [] = after
is_pre after (c ∷ t) =
    let more = is_pre true t in
    let next = is_pre false t in
    if is_ident c
    then more
    else if (c == b'.') && after
    then next
    else if (c == b'+') && after
    then is_build false t
    else false

-- What may stand behind the three numbers.
unfoldable pub is_suffix : Text → Bool
unfolding is_pre is_build
is_suffix [] = true
is_suffix (c ∷ t) =
    if c == b'-' then is_pre false t else if c == b'+' then is_build false t else false

-- A number with the dot behind it.
abbrev pub read_dotted : Text → Option (ℕ × Text)
read_dotted t = elim (read_number t) [
  | none ↦ none
  | some (n, u) ↦ elim (read_dot u) [ none ↦ none | some w ↦ some (n, w) ]
]

-- `_parse_semver`
unfoldable pub parse_semver : Text → Option (List ℕ)
unfolding read_number is_suffix
parse_semver v = elim (read_dotted (strip v)) [
  | none ↦ none
  | some (major, t) ↦ elim (read_dotted t) [
    | none ↦ none
    | some (minor, u) ↦ elim (read_number u) [
      | none ↦ none
      | some (patch, w) ↦ if is_suffix w then some (major ∷ minor ∷ patch ∷ []) else none
    ]
  ]
]

-- `_compare_versions`
unfoldable pub compare_versions : List ℕ → List ℕ → ℤ
compare_versions [] b = pos 0 -ℤ pos (length b)
compare_versions (x ∷ a) [] = pos (length (x ∷ a))
compare_versions (x ∷ a) (y ∷ b) =
    let rest = compare_versions a b in if ltb x y then negsuc 0 else if ltb y x then pos 1 else rest

-- A bound that is no version bounds nothing.
unfoldable pub is_above : List ℕ → Option Text → Bool
unfolding parse_semver compare_versions
is_above actual none = true
is_above actual (some bound) = elim (parse_semver bound) [
  | none ↦ true
  | some b ↦ not (ltb_ℤ (compare_versions actual b) (pos 0))
]

unfoldable pub is_below : List ℕ → Option Text → Bool
unfolding parse_semver compare_versions
is_below actual none = true
is_below actual (some bound) = elim (parse_semver bound) [
  | none ↦ true
  | some b ↦ not (ltb_ℤ (pos 0) (compare_versions actual b))
]

unfoldable pub check_version_satisfied : Option Text → Option Text → Option Text → Bool
unfolding parse_semver is_above is_below
check_version_satisfied none none maximum = true
check_version_satisfied none (some minimum) maximum = false
check_version_satisfied (some actual) minimum maximum = elim (parse_semver actual) [
  | none ↦ false
  | some v ↦ is_above v minimum && is_below v maximum
]
