-- ===== src/Portfolio/Sync.antt =====
-- `PositionSynchronizer` of src/portfolio/position_sync.py. The local positions are objects that the
-- caller keeps, one for a symbol: the book. `sync` makes a dict of its own that shares them, of
-- which the model has the keys; what is deleted from it stays in the book. A set of symbols
-- iterates in the order of the broker's and then of the other local ones. Percentages are taken as
-- decimals, and how they are computed is an argument. Times and callbacks are left out.
pub mod Reconciled
use algo_engine.Prelude.{
  ℕ, ◌+◌, Bool, true, false, not, ◌&&◌, ◌||◌, Option, none, some, List, [], ◌∷◌, ◌++◌,
  if◌then◌else◌, ltb, length, any, map, drop,
}
use algo_engine.Prelude.Eq.{Eq, ◌=?◌, elem}
use algo_engine.Prelude.Dict.{Dict, lookup, insert}
use algo_engine.Trading.Decimal.{Decimal}
use algo_engine.Trading.Order.{OrderSide}
use algo_engine.Trading.Position.{Position, side_eq, positive}

pub data DifferenceType : Type 0 where
  missing_locally missing_on_broker quantity_mismatch price_mismatch side_mismatch : DifferenceType

pub data Severity : Type 0 where
  warning critical : Severity

pub record PositionDifference (S D : Type 0) : Type 0 where
  pub difference_type : DifferenceType
  pub symbol : S
  pub broker_quantity : Option D
  pub broker_avg_price : Option D
  pub broker_side : Option OrderSide
  pub severity : Severity

pub record SyncConfig (D : Type 0) : Type 0 where
  pub quantity_tolerance : D
  pub price_tolerance_pct : D
  pub auto_reconcile : Bool
  pub max_log_entries : ℕ
  pub reconcile_on_critical : Bool
  pub max_quantity_diff_pct : D

-- `float(a / b) * 100`, `abs(float((a - b) / a)) * 100`, and 100.0.
pub record Gaps (D : Type 0) : Type 0 where
  pub percent : D → D → D
  pub price_gap : D → D → D
  pub hundred : D

pub record SyncResult (S D : Type 0) : Type 0 where
  pub broker_positions_count : ℕ
  pub local_positions_count : ℕ
  pub matched : ℕ
  pub differences : List (PositionDifference S D)
  pub reconciled : ℕ

pub record Synchronizer (S D : Type 0) : Type 0 where
  pub config : SyncConfig D
  pub sync_history : List (SyncResult S D)
  pub total_syncs : ℕ
  pub total_reconciled : ℕ

-- The caller's positions, and the keys of the dict that `sync` makes of them.
pub record Work (S D : Type 0) : Type 0 where
  pub book : Dict S (Position S D)
  pub local_keys : List S

abbrev pub is_critical : Severity → Bool
is_critical critical = true
is_critical warning = false

module _ {D : Type 0} ⦃d : Decimal D⦄ where
  open d use {zero, sub, leb}

  abbrev pub magnitude : D → D
  magnitude x = if leb zero x then x else sub zero x

  abbrev pub quantity_severity : Gaps D → SyncConfig D → D → D → Severity
  quantity_severity g c broker_qty local_qty =
      let pct =
        if positive broker_qty
        then g.percent (magnitude (sub broker_qty local_qty)) broker_qty
        else if positive local_qty
        then g.hundred
        else zero in
      if leb pct c.max_quantity_diff_pct then warning else critical

  abbrev pub prices_agree : Gaps D → SyncConfig D → Option D → Option D → Bool
  prices_agree g c (some x) (some y) =
      not (positive x) || leb (g.price_gap x y) c.price_tolerance_pct
  prices_agree g c (some x) none = true
  prices_agree g c none y = true

module _ {S D : Type 0} ⦃d : Decimal D⦄ where
  open d use {zero, sub, leb}

  abbrev pub difference : DifferenceType → Severity → S → Position S D → PositionDifference S D
  difference kind severity s b = record {
    difference_type = kind;
    symbol = s;
    broker_quantity = some b.quantity;
    broker_avg_price = b.avg_entry_price;
    broker_side = some b.side;
    severity = severity;
  }

  abbrev pub side_difference : S → Position S D → Position S D → List (PositionDifference S D)
  side_difference s b l =
      if side_eq b.side l.side then [] else difference side_mismatch critical s b ∷ []

  abbrev pub quantity_difference :
      Gaps D → SyncConfig D → S → Position S D → Position S D → List (PositionDifference S D)
  quantity_difference g c s b l =
      if leb (magnitude (sub b.quantity l.quantity)) c.quantity_tolerance
      then []
      else difference quantity_mismatch (quantity_severity g c b.quantity l.quantity) s b ∷ []

  abbrev pub price_difference :
      Gaps D → SyncConfig D → S → Position S D → Position S D → List (PositionDifference S D)
  price_difference g c s b l =
      if prices_agree g c b.avg_entry_price l.avg_entry_price
      then []
      else difference price_mismatch warning s b ∷ []

  -- `_compare_positions`
  unfoldable pub compare_positions :
      Gaps D
      → SyncConfig D
      → S
      → Option (Position S D)
      → Option (Position S D)
      → List (PositionDifference S D)
  compare_positions g c s none none = []
  compare_positions g c s (some b) none = difference missing_locally warning s b ∷ []
  compare_positions g c s none (some l) =
      record {
        difference_type = missing_on_broker;
        symbol = s;
        broker_quantity = none;
        broker_avg_price = none;
        broker_side = none;
        severity = critical;
      }
      ∷ []
  compare_positions g c s (some b) (some l) =
      side_difference s b l ++ (quantity_difference g c s b l ++ price_difference g c s b l)

module _ {S : Type 0} ⦃e : Eq S⦄ where
  abbrev pub without : S → List S → List S
  without s [] = []
  without s (x ∷ xs) = let rest = without s xs in if x =? s then rest else x ∷ rest

module _ {S D : Type 0} ⦃e : Eq S⦄ ⦃d : Decimal D⦄ where
  -- A change of the position that the dict has for a symbol; what it counts is whether there is one.
  abbrev pub revise : S → (Position S D → Position S D) → Work S D → ℕ × Work S D
  revise s change w =
      if elem s w.local_keys
      then elim (lookup s w.book) [
        | none ↦ (0, w)
        | some l ↦ (1, record w { book = insert s (change l) w.book })
      ]
      else (0, w)

  -- `_reconcile_single`
  abbrev pub set_quantity : Option D → S → Work S D → ℕ × Work S D
  set_quantity none s w = (0, w)
  set_quantity (some q) s w = revise s (λ l. record l { quantity = q }) w

  abbrev pub set_price : Option D → S → Work S D → ℕ × Work S D
  set_price none s w = (0, w)
  set_price (some q) s w = revise s (λ l. record l { avg_entry_price = some q }) w

  abbrev pub set_side : Option OrderSide → S → Work S D → ℕ × Work S D
  set_side none s w = (0, w)
  set_side (some q) s w = revise s (λ l. record l { side = q }) w

  abbrev pub reconcile_as : DifferenceType → PositionDifference S D → Work S D → ℕ × Work S D
  reconcile_as missing_locally f w = (0, w)
  reconcile_as missing_on_broker f w =
      if elem f.symbol w.local_keys
      then (1, record w { local_keys = without f.symbol w.local_keys })
      else (0, w)
  reconcile_as quantity_mismatch f w = set_quantity f.broker_quantity f.symbol w
  reconcile_as price_mismatch f w = set_price f.broker_avg_price f.symbol w
  reconcile_as side_mismatch f w = set_side f.broker_side f.symbol w

  -- `_reconcile_differences`
  unfoldable pub reconcile_differences : List (PositionDifference S D) → Work S D → ℕ × Work S D
  reconcile_differences [] w = (0, w)
  reconcile_differences (f ∷ fs) w =
      let (n, v) = reconcile_as f.difference_type f w in
      let (k, u) = reconcile_differences fs v in (n + k, u)

  -- `broker_map`: of two positions of a symbol the later one stays.
  unfoldable pub map_of : List (Position S D) → Dict S (Position S D) → Dict S (Position S D)
  map_of [] m = m
  map_of (p ∷ ps) m = map_of ps (insert p.symbol p m)

  -- The loop over the symbols: how many match, and all differences.
  unfoldable pub compare_all :
      Gaps D
      → SyncConfig D
      → Dict S (Position S D)
      → Dict S (Position S D)
      → List S
      → ℕ × List (PositionDifference S D)
  unfolding compare_positions
  compare_all g c broker book [] = (0, [])
  compare_all g c broker book (s ∷ ss) =
      let (n, fs) = compare_all g c broker book ss in
      elim (compare_positions g c s (lookup s broker) (lookup s book)) [
        | [] ↦ (n + 1, fs)
        | h ∷ hs ↦ (n, (h ∷ hs) ++ fs)
      ]

  -- The local symbols that the broker does not have.
  abbrev pub others : List S → Dict S (Position S D) → List S
  others ks [] = []
  others ks ((s, p) ∷ m) = let rest = others ks m in if elem s ks then rest else s ∷ rest

  -- `_add_to_history`
  abbrev pub add_to_history : ℕ → SyncResult S D → List (SyncResult S D) → List (SyncResult S D)
  add_to_history bound x xs =
      let all = xs ++ (x ∷ []) in if ltb bound (length all) then drop 1 all else all

  -- `sync`, with the book that it leaves.
  unfoldable pub sync :
      Gaps D
      → List (Position S D)
      → Dict S (Position S D)
      → Synchronizer S D
      → SyncResult S D × Dict S (Position S D) × Synchronizer S D
  unfolding map_of compare_all reconcile_differences
  sync g broker_positions book y =
      let broker = map_of broker_positions [] in
      let symbols = map (λ p. p.0) broker in
      let local_keys = map (λ p. p.0) book in
      let (n, fs) = compare_all g y.config broker book (symbols ++ others symbols book) in
      let wanted =
        y.config.auto_reconcile
        || (y.config.reconcile_on_critical && any (λ f. is_critical f.severity) fs) in
      let (k, w) =
        reconcile_differences (if wanted then fs else [])
          (record { book = book; local_keys = local_keys }) in
      let result : SyncResult S D = record {
        broker_positions_count = length broker_positions;
        local_positions_count = length book;
        matched = n;
        differences = fs;
        reconciled = k;
      } in
      (
        result,
        w.book,
        record y {
          sync_history = add_to_history y.config.max_log_entries result y.sync_history;
          total_syncs = y.total_syncs + 1;
          total_reconciled = y.total_reconciled + k;
        },
      )
