-- ===== src/Portfolio/Sync/Reconciled.antt =====
-- What reconciling does to the caller's positions (src/portfolio/position_sync.py).
use algo_engine.Prelude.{
  ◌≡◌, refl, sym, ap, subst, ◌∙◌, Bool, true, false, Option, none, some, List, [], ◌∷◌, ◌++◌, arith,
  if◌then◌else◌, Bool-cases, inl, inr, append-nil,
}
use algo_engine.Prelude.Eq.{Eq, elem, beq_refl}
use algo_engine.Prelude.Dict.{lookup, lookup-insert}
use algo_engine.Trading.Decimal.{Decimal}
use algo_engine.Trading.Order.{OrderSide, buy, sell}
use algo_engine.Trading.Position.{Position, side_eq}
use algo_engine.Portfolio.Sync.{
  set_price, PositionDifference, SyncConfig, Gaps, Work, magnitude, compare_positions,
  reconcile_differences, reconcile_as, revise, side_difference, quantity_difference,
  price_difference, prices_agree,
}

module _ {S D : Type 0} ⦃e : Eq S⦄ ⦃d : Decimal D⦄ where
  open d use {sub, leb}

  -- The dict has a symbol, and the book has this position for it.
  abbrev Has : S → Position S D → Work S D → Type 0
  Has s l w = (elem s w.local_keys ≡ true) × (lookup s w.book ≡ some l)

  revise_lem :
      (s : S) (change : Position S D → Position S D) (l : Position S D) (w : Work S D)
      → Has s l w
      → Has s (change l) (revise s change w).1
  revise_lem s change l w (k, h) =
      (ground arith, ground (arith, lookup-insert s s (change l) w.book, beq_refl s))

  -- What a list of differences of one symbol makes of a position.
  reconcile_differences-cons :
      (f : PositionDifference S D) (fs : List (PositionDifference S D)) (w : Work S D)
      → (reconcile_differences (f ∷ fs) w).1
        ≡ (reconcile_differences fs (reconcile_as f.difference_type f w).1).1
  unfolding reconcile_differences
  reconcile_differences-cons f fs w = refl

  -- A difference that is there unless a test holds takes a position to what its change makes of it,
  -- and what follows goes on from there.
  step :
      (s : S) (test : Bool) (f : PositionDifference S D) (change : Position S D → Position S D)
      (l : Position S D) (w : Work S D) (rest : List (PositionDifference S D))
      → (test ≡ false → (u : Work S D) → reconcile_as f.difference_type f u ≡ revise s change u)
      → Has s l w
      → (v : Work S D) × Has s (if test then l else change l) v
        × ((reconcile_differences ((if test then [] else f ∷ []) ++ rest) w).1
            ≡ (reconcile_differences rest v).1)
  step s true f change l w rest same h = (w, h, refl)
  step s false f change l w rest same h = (
    (revise s change w).1,
    revise_lem s change l w h,
    reconcile_differences-cons f rest w
        ∙ ap (λ r. (reconcile_differences rest (r.1)).1) (same refl w),
  )

  abbrev with_side : Bool → Position S D → Position S D → Position S D
  with_side same b l = if same then l else record l { side = b.side }

  abbrev with_quantity : Bool → Position S D → Position S D → Position S D
  with_quantity same b l = if same then l else record l { quantity = b.quantity }

  abbrev with_price : Bool → Position S D → Position S D → Position S D
  with_price same b l = if same then l else record l { avg_entry_price = b.avg_entry_price }

  abbrev fixed : Bool → Bool → Bool → Position S D → Position S D → Position S D
  fixed x y z b l = with_price z b (with_quantity y b (with_side x b l))

  side_of :
      (x y z : Bool) (b l : Position S D) → (fixed x y z b l).side ≡ (if x then l.side else b.side)
  side_of x y z b l = ground arith

  quantity_of :
      (x y z : Bool) (b l : Position S D)
      → (fixed x y z b l).quantity ≡ (if y then l.quantity else b.quantity)
  quantity_of x y z b l = ground arith

  price_of :
      (x y z : Bool) (b l : Position S D)
      → (fixed x y z b l).avg_entry_price ≡ (if z then l.avg_entry_price else b.avg_entry_price)
  price_of x y z b l = ground arith

side_eq_refl : (a : OrderSide) → side_eq a a ≡ true
unfolding side_eq
side_eq_refl buy = refl
side_eq_refl sell = refl

-- A test that holds of a value with itself holds of the value that the test was made for, or with itself.
settled :
    {V : Type 0} (test : V → V → Bool) (a b : V)
    → test b b ≡ true
    → test b (if test b a then a else b) ≡ true
settled test a b h = elim (Bool-cases (test b a)) [
  | inl same ↦ rw same same
  | inr other ↦ rw other h
]

module _ {D : Type 0} ⦃d : Decimal D⦄ where
  open d use {leb}

  prices_agree_self :
      (g : Gaps D) (c : SyncConfig D) (o : Option D)
      → ((a : D) → leb (g.price_gap a a) c.price_tolerance_pct ≡ true)
      → prices_agree g c o o ≡ true
  prices_agree_self g c none n = refl
  prices_agree_self g c (some x) n = ground (arith, n x)

module _ {S D : Type 0} ⦃e : Eq S⦄ ⦃d : Decimal D⦄ where
  open d use {sub, leb}

  set_price-revise :
      (g : Gaps D) (c : SyncConfig D) (o y : Option D) (s : S) (u : Work S D)
      → prices_agree g c o y ≡ false
      → set_price o s u ≡ revise s (λ l. record l { avg_entry_price = o }) u
  set_price-revise g c none y s u h = absurd cc
  set_price-revise g c (some x) y s u h = refl

  compare_positions_clean :
      (g : Gaps D) (c : SyncConfig D) (s : S) (b l : Position S D)
      → side_eq b.side l.side ≡ true
      → leb (magnitude (sub b.quantity l.quantity)) c.quantity_tolerance ≡ true
      → prices_agree g c b.avg_entry_price l.avg_entry_price ≡ true
      → compare_positions g c s (some b) (some l) ≡ []
  unfolding compare_positions
  compare_positions_clean g c s b l h k m = rw (h, compare_positions) (rw k (rw m refl))

  -- A value is within the tolerances of itself. Then, where the broker and the caller have a position
  -- of a symbol, and the dict has it, reconciling the differences between the two leaves the caller with
  -- a position that does not differ from the broker's any more.
  pub reconcile-compare :
      (g : Gaps D) (c : SyncConfig D) (s : S) (b l : Position S D) (w : Work S D)
      → ((a : D) → leb (magnitude (sub a a)) c.quantity_tolerance ≡ true)
      → ((a : D) → leb (g.price_gap a a) c.price_tolerance_pct ≡ true)
      → elem s w.local_keys ≡ true
      → lookup s w.book ≡ some l
      → let fs = compare_positions g c s (some b) (some l) in
        (l' : Position S D) × (lookup s (reconcile_differences fs w).1.book ≡ some l')
        × (compare_positions g c s (some b) (some l') ≡ [])
  unfolding compare_positions reconcile_differences
  reconcile-compare g c s b l w n p k h =
      let x = side_eq b.side l.side in
      let y = leb (magnitude (sub b.quantity l.quantity)) c.quantity_tolerance in
      let z = prices_agree g c b.avg_entry_price l.avg_entry_price in
      let sides = side_difference s b l in
      let quantities = quantity_difference g c s b l in
      let prices = price_difference g c s b l in
      let (u, hu, qu) =
        step s x _ (λ m. record m { side = b.side }) l w (quantities ++ prices) (λ t v. refl)
          (k, h) in
      let (v, hv, qv) =
        step s y _ (λ m. record m { quantity = b.quantity }) (with_side x b l) u prices
          (λ t r. refl) hu in
      let (r, hr, qr) =
        step s z _ (λ m. record m { avg_entry_price = b.avg_entry_price })
          (with_quantity y b (with_side x b l)) v []
          (λ t r. set_price-revise g c b.avg_entry_price l.avg_entry_price s r t) hv in
      let last : (reconcile_differences prices v).1 ≡ r =
        ap (λ fs. (reconcile_differences fs v).1) (sym (append-nil prices)) ∙ qr in
      (
        fixed x y z b l,
        subst (λ (o : Work S D). lookup s o.book ≡ some (fixed x y z b l)) (sym (qu ∙ qv ∙ last))
            (hr.1),
        compare_positions_clean g c s b (fixed x y z b l)
            (subst (λ a. side_eq b.side a ≡ true) (sym (side_of x y z b l))
              (settled side_eq l.side b.side (side_eq_refl b.side)))
            (subst (λ a. leb (magnitude (sub b.quantity a)) c.quantity_tolerance ≡ true)
              (sym (quantity_of x y z b l))
              (settled (λ i j. leb (magnitude (sub i j)) c.quantity_tolerance) l.quantity b.quantity
                (n b.quantity)))
            (subst (λ a. prices_agree g c b.avg_entry_price a ≡ true) (sym (price_of x y z b l))
              (settled (prices_agree g c) l.avg_entry_price b.avg_entry_price
                (prices_agree_self g c b.avg_entry_price p))),
      )
