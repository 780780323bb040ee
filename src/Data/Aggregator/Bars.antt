-- ===== src/Data/Aggregator/Bars.antt =====
-- `Bar` of src/data/models.py and the bars that `_create_bar` of src/data/feed.py makes from ticks.
pub mod Range
use algo_engine.Prelude.{
  ℕ, Bool, true, false, not, Option, none, some, List, [], ◌∷◌, if◌then◌else◌,
}
use algo_engine.Trading.Decimal.{Decimal}
use algo_engine.Trading.Market.{Literals, Tick, mid_price, smaller, larger}
use algo_engine.Data.Aggregator.{Resolution, Batch}

pub record Bar (S D : Type 0) : Type 0 where
  pub symbol : S
  pub timestamp : ℕ
  pub open_price : D
  pub high : D
  pub low : D
  pub close : D
  pub volume : D
  pub resolution : Resolution

-- The last of a list with the elements `x` and `xs`.
abbrev pub last_of {ℓ} : {A : Type ℓ} → A → List A → A
last_of x [] = x
last_of x (y ∷ ys) = last_of y ys

module _ {D : Type 0} ⦃d : Decimal D⦄ where
  -- `max` and `min` of a list with the elements `x` and `xs`.
  abbrev pub highest : D → List D → D
  highest x [] = x
  highest x (y ∷ ys) = highest (larger x y) ys

  abbrev pub lowest : D → List D → D
  lowest x [] = x
  lowest x (y ∷ ys) = lowest (smaller x y) ys

module _ {S D : Type 0} ⦃d : Decimal D⦄ where
  open d use {zero, add, leb}

  -- The sizes of the ticks, added up from `total` on.
  abbrev pub volume_from : D → List (Tick S D) → D
  volume_from total [] = total
  volume_from total (t ∷ ts) = volume_from (add total (add t.bid_size t.ask_size)) ts

  -- `Bar.__post_init__`
  unfoldable pub post_init : Bar S D → Bar S D
  post_init b =
      let top = larger b.open_price b.close in
      let bottom = smaller b.open_price b.close in
      record b {
        high = if leb top b.high then b.high else top;
        low = if leb b.low bottom then b.low else bottom;
      }

module _ {S D : Type 0} ⦃d : Decimal D⦄ ⦃l : Literals D⦄ where
  open d use {zero}

  -- `[t.mid_price for t in ticks]`
  unfoldable pub prices_of : List (Tick S D) → Option (List D)
  unfolding mid_price
  prices_of [] = some []
  prices_of (t ∷ ts) = elim (mid_price t) [
    | none ↦ none
    | some p ↦ elim (prices_of ts) [ none ↦ none | some ps ↦ some (p ∷ ps) ]
  ]

  -- What `_create_bar` gives to `Bar`, with the prices `p` and `ps` of the ticks.
  abbrev pub bar_with : Resolution → S → ℕ → List (Tick S D) → D → List D → Bar S D
  bar_with r s t ticks p ps = record {
    symbol = s;
    timestamp = t;
    open_price = p;
    high = highest p ps;
    low = lowest p ps;
    close = last_of p ps;
    volume = volume_from zero ticks;
    resolution = r;
  }

  -- `_create_bar` with the prices of the ticks; `none` is the exception of an empty list.
  unfoldable pub bar_of : Resolution → S → ℕ → List (Tick S D) → List D → Option (Bar S D)
  unfolding post_init
  bar_of r s t ticks [] = none
  bar_of r s t ticks (p ∷ ps) = some (post_init (bar_with r s t ticks p ps))

  -- `_create_bar`
  unfoldable pub create_bar : Resolution → Batch S D → Option (Bar S D)
  unfolding prices_of bar_of
  create_bar r b = elim (prices_of b.ticks) [
    | none ↦ none
    | some ps ↦ bar_of r b.symbol b.period b.ticks ps
  ]
