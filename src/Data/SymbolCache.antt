-- ===== src/Data/SymbolCache.antt =====
-- `SymbolCache` of src/data/stream_cache.py: the last ticks of a symbol, and its last bars by
-- resolution. Ticks and bars are of any types; a resolution is its text.
use algo_engine.Prelude.{
  ℕ, ◌+◌, ◌-◌, Option, none, some, List, [], ◌∷◌, ◌++◌, String, if◌then◌else◌, ◌==◌, length, drop,
}
use algo_engine.Prelude.Eq.{string_eq}
use algo_engine.Prelude.Dict.{Dict, get_or, insert}

pub record SymbolCache (T B : Type 0) : Type 0 where
  pub max_size : ℕ
  pub ticks : List T
  pub bars : Dict String (List B)
  pub tick_count : ℕ
  pub bar_count : ℕ

-- `deque.append` with a bound.
abbrev pub push : {A : Type 0} → ℕ → A → List A → List A
push bound x xs = drop (length xs + 1 - bound) (xs ++ (x ∷ []))

-- `list(xs)[-count:]`, which is the whole list where `count` is 0.
abbrev pub last_items : {A : Type 0} → Option ℕ → List A → List A
last_items none xs = xs
last_items (some n) xs = if n == 0 then xs else drop (length xs - n) xs

abbrev pub last_item : {A : Type 0} → List A → Option A
last_item [] = none
last_item (x ∷ []) = some x
last_item (x ∷ y ∷ ys) = last_item (y ∷ ys)

module _ {T B : Type 0} where
  -- `SymbolCache.__init__`
  unfoldable pub new_symbol_cache : ℕ → SymbolCache T B
  new_symbol_cache max_size = record {
    max_size = max_size;
    ticks = [];
    bars = [];
    tick_count = 0;
    bar_count = 0;
  }

  unfoldable pub add_tick : T → SymbolCache T B → SymbolCache T B
  add_tick t c = record c { ticks = push c.max_size t c.ticks; tick_count = c.tick_count + 1 }

  unfoldable pub add_bar : String → B → SymbolCache T B → SymbolCache T B
  add_bar resolution b c = record c {
    bars = insert resolution (push c.max_size b (get_or resolution [] c.bars)) c.bars;
    bar_count = c.bar_count + 1;
  }

  unfoldable pub get_ticks : Option ℕ → SymbolCache T B → List T
  get_ticks count c = last_items count c.ticks

  unfoldable pub get_bars : String → Option ℕ → SymbolCache T B → List B
  get_bars resolution count c = last_items count (get_or resolution [] c.bars)

  unfoldable pub get_latest_tick : SymbolCache T B → Option T
  get_latest_tick c = last_item c.ticks

  unfoldable pub get_latest_bar : String → SymbolCache T B → Option B
  get_latest_bar resolution c = last_item (get_or resolution [] c.bars)

  unfoldable pub clear : SymbolCache T B → SymbolCache T B
  clear c = record c { ticks = []; bars = []; tick_count = 0; bar_count = 0 }
