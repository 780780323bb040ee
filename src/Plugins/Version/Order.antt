-- ===== src/Plugins/Version/Order.antt =====
-- The order of versions, and what a check of a version comes to (src/plugins/loader.py).
use algo_engine.Prelude.{
  ℕ, ◌≤◌, ◌<◌, ◌≡◌, ◌↔◌, ◌⊎◌, refl, Bool, true, false, ◌&&◌, Option, some, List, [], ◌∷◌, ◌++◌,
  arith,
}
use algo_engine.Prelude.Int.{pos, ltb_ℤ, ◌-ℤ◌}
use algo_engine.Fix.Text.{Text}
use algo_engine.Plugins.Version.{
  compare_versions, is_suffix, is_above, is_below, check_version_satisfied,
}
use algo_engine.Plugins.Version.Print.{print_version, parse_semver-print_version}

pub record Version : Type 0 where
  pub major : ℕ
  pub minor : ℕ
  pub patch : ℕ

infix 50 ◌≼◌
-- The first number that differs decides.
abbrev pub ◌≼◌ : Version → Version → Type 0
v ≼ w =
    (v.major < w.major)
    ⊎ (v.major ≡ w.major) × ((v.minor < w.minor) ⊎ (v.minor ≡ w.minor) × (v.patch ≤ w.patch))

abbrev numbers : Version → List ℕ
numbers v = v.major ∷ v.minor ∷ v.patch ∷ []

abbrev pub text : Version → Text → Text
text v suffix = print_version v.major v.minor v.patch ++ suffix

compare-≼ :
    (v w : Version) → (ltb_ℤ (pos 0) (compare_versions (numbers v) (numbers w)) ≡ false) ↔ (v ≼ w)
unfolding compare_versions ◌-ℤ◌
compare-≼ v w = ground arith

compare-≽ :
    (v w : Version) → (ltb_ℤ (compare_versions (numbers v) (numbers w)) (pos 0) ≡ false) ↔ (w ≼ v)
unfolding compare_versions ◌-ℤ◌
compare-≽ v w = ground arith

is_above-text :
    (v low : Version) (suffix : Text)
    → is_suffix suffix ≡ true
    → (is_above (numbers v) (some (text low suffix)) ≡ true) ↔ (low ≼ v)
unfolding is_above
is_above-text v low suffix h =
    rw (parse_semver-print_version low.major low.minor low.patch suffix h, is_above)
      (ground (arith, compare-≽ v low))

is_below-text :
    (v high : Version) (suffix : Text)
    → is_suffix suffix ≡ true
    → (is_below (numbers v) (some (text high suffix)) ≡ true) ↔ (v ≼ high)
unfolding is_below
is_below-text v high suffix h =
    rw (parse_semver-print_version high.major high.minor high.patch suffix h, is_below)
      (ground (arith, compare-≼ v high))

check_version_satisfied-some :
    (v : Version) (suffix : Text) (low high : Option Text)
    → is_suffix suffix ≡ true
    → check_version_satisfied (some (text v suffix)) low high
      ≡ (is_above (numbers v) low && is_below (numbers v) high)
unfolding check_version_satisfied
check_version_satisfied-some v suffix low high h =
    rw (parse_semver-print_version v.major v.minor v.patch suffix h, check_version_satisfied) refl

-- A version with a well-formed pre-release or build or none satisfies two bounds, which are such versions too,
-- exactly if its three numbers lie between theirs in lexicographic order, both bounds included;
-- pre-releases and builds count for nothing.
pub check_version_satisfied_lem :
    (v low high : Version) (s t u : Text)
    → is_suffix s ≡ true
    → is_suffix t ≡ true
    → is_suffix u ≡ true
    → (check_version_satisfied (some (text v s)) (some (text low t)) (some (text high u)) ≡ true)
      ↔ (low ≼ v) × (v ≼ high)
check_version_satisfied_lem v low high s t u h k l =
    rw (check_version_satisfied-some v s (some (text low t)) (some (text high u)) h)
      (both (is_above-text v low t k) (is_below-text v high u l))
  where
    both : {P Q : Type 0} {a b : Bool} → (a ≡ true) ↔ P → (b ≡ true) ↔ Q → ((a && b) ≡ true) ↔ P × Q
    both f g = (
      λ h. (f.0 (ground arith), g.0 (ground arith)),
      λ h. (let x = f.1 (h.0) in let y = g.1 (h.1) in ground arith),
    )
