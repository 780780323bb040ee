-- ===== src/Trading/OrderRouter/Turns.antt =====
-- The turns of round-robin routing (src/trading/order_router.py).
use algo_engine.Prelude.{ℕ, suc, ◌+◌, ◌%◌, ◌≡◌, ap, ◌∙◌, some, List, [], ◌∷◌, arith, length}
use native.Mathlib.Nat.{mod-add-mod}
use algo_engine.Trading.Decimal.{Decimal}
use algo_engine.Trading.OrderRouter.{Order, OrderRouter}
use algo_engine.Trading.OrderRouter.Route.{Entry, at, route_round_robin}

-- A turn and `k` more.
turns : (i k n : ℕ) → ((i % n + 1) % n + k) % n ≡ (i + suc k) % n
turns i k n =
    mod-add-mod (i % n + 1) n k
    ∙ ap (λ x. x % n) (let q : i % n + 1 + k ≡ i % n + suc k = omega arith in q)
    ∙ mod-add-mod i n (suc k)

module _ {A D : Type 0} ⦃d : Decimal D⦄ where
  -- The router after the orders, routed in turn among the same brokers.
  unfoldable pub route_each :
      List (Order A D) → OrderRouter A D → Entry D → List (Entry D) → OrderRouter A D
  route_each [] r e es = r
  route_each (o ∷ os) r e es = route_each os (route_round_robin r o e es).1 e es

  -- After any number of orders on the same available brokers, the next goes to the broker whose place
  -- is the index at the start plus that number, modulo the number of brokers: each has its turn.
  pub route_each_lem :
      (os : List (Order A D)) (o : Order A D) (r : OrderRouter A D) (e : Entry D)
      (es : List (Entry D))
      → (route_round_robin (route_each os r e es) o e es).0.broker_name
        ≡ some (at ((r.config.round_robin_index + length os) % (length es + 1)) e es ∷ [])
  unfolding route_each route_round_robin
  route_each_lem [] o r e es =
      let n = length es + 1 in
      let i = r.config.round_robin_index in
      ap (λ k. some (at (k % n) e es ∷ [])) (let q : i ≡ i + 0 = omega arith in q)
  route_each_lem (p ∷ os) o r e es =
      route_each_lem os o (route_round_robin r p e es).1 e es
      ∙ ap (λ k. some (at k e es ∷ []))
          (turns r.config.round_robin_index (length os) (length es + 1))
