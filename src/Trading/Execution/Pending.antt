-- ===== src/Trading/Execution/Pending.antt =====
-- What a tick does to the pending orders, without a broker (`process_tick` of
-- src/trading/execution_engine.py).
use algo_engine.Prelude.{
  ℕ, ◌≡◌, ◌⊎◌, refl, sym, ap, ◌∙◌, true, false, some, List, [], ◌∷◌, String, arith, All,
  if◌then◌else◌, Bool-cases, inl, inr,
}
use mathlib.Core.Option.{some-injective}
use algo_engine.Prelude.Eq.{Eq, ◌=?◌, string_eq, elem}
use algo_engine.Prelude.Dict.{lookup, insert}
use algo_engine.Trading.Decimal.{Decimal, IsOrdered}
use algo_engine.Trading.Order.{Order}
use algo_engine.Trading.OrderManager.{OrderManager, get_active_orders}
use algo_engine.Trading.OrderManager.Cancelled.{IsConsistent}
use algo_engine.Trading.PositionManager.{mark_price}
use algo_engine.Trading.Market.{Literals, Tick, mid_price}
use algo_engine.Trading.Execution.{
  ExecutionEngine, no_broker, pending_orders, fill_each, process_tick,
}
use algo_engine.Trading.Execution.Filling.{Fills, Waits, IsReady, Outcome, fill_each_lem}
use algo_engine.Trading.Execution.Filled.{Has, IsSame, Apart}
use algo_engine.Trading.Execution.Targets.{
  AreDistinct, awaits, targets, Awaits, targets-Awaits, targets-IsDistinct, targets-All,
}

module _ {S D : Type 0} ⦃d : Decimal D⦄ ⦃l : Literals D⦄ where
  open d use {zero, eqb}

  -- Trying the order at the tick does not raise, and no part of it has been filled.
  pub record IsFresh (t : Tick S D) (e : ExecutionEngine S D) (o : Order S D) : Type 0 where
    pub unfilled : eqb o.filled_quantity zero ≡ true
    pub decided :
        Fills e.commission_model e.slippage_model t o
        ⊎ Waits e.commission_model e.slippage_model t o

module _ {S D : Type 0} (label : ℕ → String) ⦃eq : Eq S⦄ ⦃d : Decimal D⦄ ⦃l : Literals D⦄ where
  pending_orders-targets :
      (symbol : S) (e : ExecutionEngine S D)
      → pending_orders symbol e ≡ targets symbol e.order_manager e.order_manager.active_orders
  unfolding pending_orders get_active_orders targets
  pending_orders-targets symbol e = refl

  process_tick-fill_each :
      (now : ℕ) (t : Tick S D) (e : ExecutionEngine S D) {mid : D}
      → mid_price t ≡ some mid
      → e.broker ≡ no_broker
      → let e' = record e {
        last_prices = insert t.symbol t e.last_prices;
        position_manager = mark_price t.symbol mid t.timestamp e.position_manager;
      } in
        process_tick label now t e
        ≡ fill_each label now t (targets t.symbol e.order_manager e.order_manager.active_orders) e'
  unfolding process_tick targets pending_orders get_active_orders
  process_tick-fill_each now t e h alone = rw (h, alone, process_tick) refl

  targets-IsReady :
      (t : Tick S D) (e : ExecutionEngine S D) (os : List (Order S D))
      → ((o : Order S D)
          → Has e.order_manager o.order_id o
          → awaits t.symbol o ≡ true
          → IsFresh t e o)
      → All (Awaits t.symbol e.order_manager) os
      → All (IsReady e.commission_model e.slippage_model t e.order_manager) os
  unfolding Awaits
  targets-IsReady t e [] fresh h = tt
  targets-IsReady t e (o ∷ os) fresh ((there, hit), h) =
      let f = fresh o there hit in
      (
        record { stored = there; fresh = f.unfilled; decided = f.decided },
        targets-IsReady t e os fresh h,
      )

  others_Apart :
      (symbol : S) (m : OrderManager S D) (id : String) (o : Order S D) (os : List (Order S D))
      → Has m id o
      → awaits symbol o ≡ false
      → All (Awaits symbol m) os
      → Apart id os
  unfolding Awaits
  others_Apart symbol m id o [] there miss h = tt
  others_Apart symbol m id o (p ∷ os) there miss ((found, hit), h) = (
    elim (Bool-cases (p.order_id =? id)) [
      | inr other ↦ other
      | inl e ↦
          let x≡id = (string_eq.beq_iff p.order_id id).0 e in
          let same : p ≡ o =
            some-injective p o (sym found ∙ ap (λ y. lookup y m.orders) x≡id ∙ there) in
          absurd (let wrong : ⊥ = ground (arith, sym hit ∙ ap (awaits symbol) same ∙ miss) in wrong)
    ],
    others_Apart symbol m id o os there miss h,
  )

  -- Without a broker, where comparisons are an order and the mid price of the tick exists, where every active id is that of an
  -- active order stored under its own id and none is there twice, and where every stored pending
  -- order of the tick's symbol has no fill yet and can be tried at the tick without an exception:
  -- processing the tick gives a result, in which, of the order stored under an active id, a pending order of the symbol that fills at the tick is FILLED and its id is no longer active, one
  -- that does not fill is stored unchanged, and any other order is stored unchanged and is active as before.
  pub process_tick_lem :
      IsOrdered D
      → (now : ℕ) (t : Tick S D) (e : ExecutionEngine S D) {mid : D} → mid_price t ≡ some mid
      → e.broker ≡ no_broker
      → IsConsistent e.order_manager
      → AreDistinct e.order_manager.active_orders
      → ((o : Order S D)
          → Has e.order_manager o.order_id o
          → awaits t.symbol o ≡ true
          → IsFresh t e o)
      → (id : String) (o : Order S D) → Has e.order_manager id o
      → elem id e.order_manager.active_orders ≡ true
      → (e' : ExecutionEngine S D) × (process_tick label now t e ≡ some e')
        × (if awaits t.symbol o
            then Outcome e.commission_model e.slippage_model t e'.order_manager o
            else IsSame e.order_manager e'.order_manager id)
  process_tick_lem ordered now t e {mid} h alone live distinct fresh id o there active =
      let m = e.order_manager in
      let os = targets t.symbol m m.active_orders in
      let awaiting = targets-Awaits t.symbol m m.active_orders live in
      let (e', run, res) =
        fill_each_lem label ordered e.commission_model e.slippage_model now t os
          (record e {
            last_prices = insert t.symbol t e.last_prices;
            position_manager = mark_price t.symbol mid t.timestamp e.position_manager;
          })
          (refl, refl) (targets-IsDistinct t.symbol m m.active_orders live distinct)
          (targets-IsReady t e os fresh awaiting) in
      (
        e',
        process_tick-fill_each now t e h alone ∙ run,
        elim (Bool-cases (awaits t.symbol o)) [
          | inl hit ↦
              rw hit
                (targets-All t.symbol m _ id o m.active_orders live active there hit res.outcomes)
          | inr miss ↦ rw miss (res.others id (others_Apart t.symbol m id o os there miss awaiting))
        ],
      )
