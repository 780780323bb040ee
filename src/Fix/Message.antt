-- ===== src/Fix/Message.antt =====
-- `FIXMessage` of src/protocols/fix_handler.py. A message is its one attribute, `_fields`: a dict
-- from tags to texts in the order in which the tags were first set. A float is given by its `str`.
pub mod Builders
use algo_engine.Prelude.{
  ℕ, zero, suc, ◌+◌, ◌≡◌, refl, Bool, true, false, not, ◌&&◌, Option, none, some, List, [], ◌∷◌,
  ◌++◌, String, arith, if◌then◌else◌, ◌==◌, length,
}
use algo_engine.Prelude.Eq.{◌=?◌, int_eq}
use algo_engine.Prelude.Int.{ℤ, pos, negsuc}
use algo_engine.Prelude.Dict.{Dict, lookup, get_or, insert, erase, contains}
use algo_engine.Fix.Text.{Text, codes, str_int, str_nat, parse_int}
use algo_engine.Fix.Dictionary.{fix_name_tag}

abbrev pub FixMessage : Type 0
FixMessage = Dict ℤ Text

-- `Union[int, str]`
pub data Tag : Type 0 where
  number : ℤ → Tag
  name : String → Tag

-- `Union[str, int, float]`
pub data Value : Type 0 where
  text : Text → Value
  int : ℤ → Value
  float : Text → Value

-- The first test of every accessor; an unknown name stands for tag 0.
unfoldable pub resolve : Tag → ℤ
resolve (number t) = t
resolve (name n) = elim (fix_name_tag n) [ none ↦ pos 0 | some t ↦ pos t ]

unfoldable pub str_value : Value → Text
str_value (text t) = t
str_value (int z) = str_int z
str_value (float t) = t

unfoldable pub set : Tag → Value → FixMessage → FixMessage
unfolding resolve str_value
set tag value msg = insert (resolve tag) (str_value value) msg

unfoldable pub get : Tag → Text → FixMessage → Text
unfolding resolve
get tag default msg = get_or (resolve tag) default msg

-- The outer `none` is the `ValueError` of `int`.
unfoldable pub get_int : Tag → ℤ → FixMessage → Option ℤ
unfolding get
get_int tag default msg = elim (get tag [] msg) [ [] ↦ some default | c ∷ t ↦ parse_int (c ∷ t) ]

unfoldable pub has : Tag → FixMessage → Bool
unfolding resolve
has tag msg = contains (resolve tag) msg

unfoldable pub remove : Tag → FixMessage → FixMessage
unfolding resolve
remove tag msg = erase (resolve tag) msg

unfoldable pub msg_type : FixMessage → Text
msg_type msg = get_or (pos 35) [] msg

-- `int(self._fields.get(34, 0))`
unfoldable pub msg_seq_num : FixMessage → Option ℤ
msg_seq_num msg = elim (lookup (pos 34) msg) [ none ↦ some (pos 0) | some t ↦ parse_int t ]

unfoldable pub sender_comp_id : FixMessage → Text
sender_comp_id msg = get_or (pos 49) [] msg

unfoldable pub target_comp_id : FixMessage → Text
target_comp_id msg = get_or (pos 56) [] msg
