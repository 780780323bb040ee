-- ===== src/Trading/PositionManager/Holding.antt =====
-- What the position manager of src/trading/position_manager.py holds after any fills.
use algo_engine.Prelude.{
  ◌+◌, ◌≡◌, ◌≢◌, subst, true, false, Option, none, some, List, [], ◌∷◌, ◌++◌, arith, All,
  Option-cases, Bool-cases, inl, inr,
}
use algo_engine.Prelude.Eq.{Eq, ◌=?◌}
use algo_engine.Prelude.Dict.{Dict, lookup, insert, erase}
use algo_engine.Trading.Decimal.{Decimal, IsExact, IsPositiveSum}
use algo_engine.Trading.Order.{Fill}
use algo_engine.Trading.Position.{
  Position, Trade, side_eq, positive, is_long, add_fill, reduce, gain,
}
use algo_engine.Trading.PositionManager.{
  PositionManager, no_positions, position_of, is_reducing, reduce_position, process_fill, new_trade,
  calculate_realized_pnl,
}

module _ {S D : Type 0} ⦃e : Eq S⦄ ⦃d : Decimal D⦄ where
  -- A position with a quantity above zero and an average entry price.
  abbrev pub IsHeld : S × Position S D → Type 0
  IsHeld (_, p) = (positive p.quantity ≡ true) × (p.avg_entry_price ≢ none)

  abbrev pub AllHeld : PositionManager S D → Type 0
  AllHeld m = All IsHeld m.positions

  insert-All :
      (P : S × Position S D → Type 0) (k : S) (p : Position S D) (ps : Dict S (Position S D))
      → ((j : S) → P (j, p))
      → All P ps
      → All P (insert k p ps)
  insert-All P k p [] h hs = (h k, tt)
  insert-All P k p ((j, q) ∷ ps) h (g, hs) = elim (Bool-cases (j =? k)) [
    | inl e ↦ rw e (h j, hs)
    | inr e ↦ rw e (g, insert-All P k p ps h hs)
  ]

  erase-All :
      (P : S × Position S D → Type 0) (k : S) (ps : Dict S (Position S D))
      → All P ps
      → All P (erase k ps)
  erase-All P k [] hs = tt
  erase-All P k ((j, q) ∷ ps) (g, hs) = elim (Bool-cases (j =? k)) [
    | inl e ↦ rw e hs
    | inr e ↦ rw e (g, erase-All P k ps hs)
  ]

  lookup-All :
      (P : S × Position S D → Type 0) (k : S) (ps : Dict S (Position S D)) {p : Position S D}
      → All P ps
      → lookup k ps ≡ some p
      → (j : S) × P (j, p)
  lookup-All P k [] hs h = cc
  lookup-All P k ((j, q) ∷ ps) {p} (g, hs) h = elim (Bool-cases (j =? k)) [
    | inl e ↦ let same : q ≡ p = ground arith in (j, subst (λ x. P (j, x)) same g)
    | inr e ↦ lookup-All P k ps hs (ground arith)
  ]

  reduce-avg :
      (fill : Fill S D) (p : Position S D)
      → p.avg_entry_price ≢ none
      → (reduce fill.quantity fill.fill_price fill.fill_time p).avg_entry_price ≢ none
  unfolding reduce
  reduce-avg fill p h = h

  -- The fills are processed in order; an exception leaves the manager as it was.
  pub process_all : List (Fill S D) → PositionManager S D → PositionManager S D
  process_all [] m = m
  process_all (f ∷ fs) m = process_all fs (elim (process_fill f m) [ none ↦ m | some (_, m') ↦ m' ])

  module _ (sums : IsPositiveSum D) where
    add_fill-IsHeld :
        (fill : Fill S D) (m : PositionManager S D) {p' : Position S D} (j : S)
        → positive fill.quantity ≡ true
        → AllHeld m
        → add_fill fill (position_of fill m) ≡ some p'
        → IsHeld (j, p')
    unfolding add_fill
    add_fill-IsHeld fill m j big h e = elim (Option-cases (lookup fill.symbol m.positions)) [
      | inl new ↦ ground (arith, sums.zero_add fill.quantity)
      | inr (p, old) ↦
          let (_, held) = lookup-All IsHeld fill.symbol m.positions h old in
          ground (arith, sums.add_positive p.quantity fill.quantity)
    ]

    -- A reducing fill finds a position that is held.
    reducing-IsHeld :
        (fill : Fill S D) (m : PositionManager S D) (j : S)
        → AllHeld m
        → is_reducing fill (position_of fill m) ≡ true
        → IsHeld (j, position_of fill m)
    unfolding is_reducing
    reducing-IsHeld fill m j h e = elim (Option-cases (lookup fill.symbol m.positions)) [
      | inl new ↦ absurd (let zero_le = sums.zero_le in let wrong : ⊥ = ground arith in wrong)
      | inr (p, old) ↦
          let (_, held) = lookup-All IsHeld fill.symbol m.positions h old in
          subst (λ q. IsHeld (j, q)) (let same : p ≡ position_of fill m = ground arith in same) held
    ]

    reduce_position-AllHeld :
        (fill : Fill S D) (m : PositionManager S D)
        → AllHeld m
        → is_reducing fill (position_of fill m) ≡ true
        → AllHeld (reduce_position fill (position_of fill m) m).1
    unfolding reduce_position
    reduce_position-AllHeld fill m h e =
        let p = position_of fill m in
        let p' = reduce fill.quantity fill.fill_price fill.fill_time p in
        elim (Bool-cases (positive p'.quantity)) [
          | inl more ↦
              let held : (j : S) → IsHeld (j, p') =
                λ j. (more, reduce-avg fill p (reducing-IsHeld fill m j h e).1) in
              rw more (insert-All IsHeld fill.symbol p' m.positions held h)
          | inr gone ↦ rw gone (erase-All IsHeld fill.symbol m.positions h)
        ]

    process_fill-AllHeld :
        (fill : Fill S D) (m : PositionManager S D) {r : Option (Trade S D)}
        {m' : PositionManager S D}
        → positive fill.quantity ≡ true
        → AllHeld m
        → process_fill fill m ≡ some (r, m')
        → AllHeld m'
    unfolding process_fill
    process_fill-AllHeld fill m {r} {m'} big h e =
        let p = position_of fill m in
        elim (Bool-cases (is_reducing fill p)) [
          | inl yes_reducing ↦
              let same : (reduce_position fill p m).1 ≡ m' = ground arith in
              subst AllHeld same (reduce_position-AllHeld fill m h yes_reducing)
          | inr not_reducing ↦ elim (Option-cases (add_fill fill p)) [
            | inl failed ↦ absurd (let wrong : ⊥ = ground arith in wrong)
            | inr (p', added) ↦
                let held =
                  insert-All IsHeld fill.symbol p' m.positions
                    (λ j. add_fill-IsHeld fill m j big h added) h in
                let same : record m { positions = insert fill.symbol p' m.positions } ≡ m' =
                  ground arith in
                subst AllHeld same held
          ]
        ]

    process_all-AllHeld :
        (fs : List (Fill S D)) (m : PositionManager S D)
        → All (λ f. positive f.quantity ≡ true) fs
        → AllHeld m
        → AllHeld (process_all fs m)
    unfolding process_all
    process_all-AllHeld [] m hs h = h
    process_all-AllHeld (f ∷ fs) m (big, hs) h = elim (Option-cases (process_fill f m)) [
      | inl e ↦ rw (e, process_all) (process_all-AllHeld fs m hs h)
      | inr ((r, m'), e) ↦
          rw (e, process_all) (process_all-AllHeld fs m' hs (process_fill-AllHeld f m big h e))
    ]

    -- After any fills of positive quantity, every position that is kept has a quantity above zero and
    -- an average entry price, provided that sums of positive numbers are positive.
    pub reachable-AllHeld :
        (fs : List (Fill S D))
        → All (λ f. positive f.quantity ≡ true) fs
        → AllHeld (process_all fs no_positions)
    unfolding no_positions
    reachable-AllHeld fs hs = process_all-AllHeld fs no_positions hs tt

-- A fill against a long position.
module _ {S D : Type 0} ⦃e : Eq S⦄ ⦃d : Decimal D⦄ where
  open d use {zero, sub, mul, leb}

  -- Where a difference of a number and itself is zero, and zero is at most zero, a sale against a long
  -- position with an average price, of at least its quantity, closes it: it is
  -- taken out, whatever the surplus, and nothing else changes in the dict; the trade that is
  -- recorded has the whole quantity of the sale, and its profit is reckoned on that.
  pub process_fill_closes :
      IsExact D
      → (fill : Fill S D) (m : PositionManager S D) (p : Position S D) (avg : D)
      → leb zero zero ≡ true
      → lookup fill.symbol m.positions ≡ some p
      → is_long p ≡ true
      → p.avg_entry_price ≡ some avg
      → side_eq fill.side p.side ≡ false
      → leb p.quantity fill.quantity ≡ true
      → (t : Trade S D) × (m' : PositionManager S D) × (process_fill fill m ≡ some (some t, m'))
        × (m'.positions ≡ erase fill.symbol m.positions)
        × (m'.trades ≡ m.trades ++ (t ∷ []))
        × (t.quantity ≡ fill.quantity)
        × (t.realized_pnl ≡ mul fill.quantity (sub fill.fill_price avg))
  unfolding process_fill reduce_position is_reducing is_long reduce new_trade side_eq gain
      calculate_realized_pnl
  process_fill_closes exact fill m p avg z old long priced other enough =
      let nothing = exact.sub_self p.quantity in
      (
        new_trade (m.trade_counter + 1) p fill,
        (reduce_position fill p m).1,
        ground arith,
        ground arith,
        ground arith,
        ground arith,
        ground arith,
      )
