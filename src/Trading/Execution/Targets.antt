-- ===== src/Trading/Execution/Targets.antt =====
-- The pending orders of a symbol (`_process_pending_orders` of src/trading/execution_engine.py).
use algo_engine.Prelude.{
  ◌≡◌, sym, ap, subst, ◌∙◌, Bool, true, false, ◌&&◌, some, List, [], ◌∷◌, String, arith, All,
  Bool-cases, inl, inr,
}
use mathlib.Core.Option.{some-injective}
use algo_engine.Prelude.Eq.{Eq, ◌=?◌, string_eq, elem}
use algo_engine.Prelude.Dict.{lookup}
use algo_engine.Trading.Order.{Order}
use algo_engine.Trading.OrderManager.{OrderManager, known, matches, select}
use algo_engine.Trading.OrderManager.Cancelled.{IsLive}
use algo_engine.Trading.Execution.{is_pending, only_pending}
use algo_engine.Trading.Execution.Filled.{Has, Apart, IsDistinct}

-- No id is twice in the list.
abbrev pub AreDistinct : List String → Type 0
AreDistinct [] = Unit
AreDistinct (x ∷ xs) = (elem x xs ≡ false) × AreDistinct xs

module _ {S D : Type 0} ⦃eq : Eq S⦄ where
  -- The order waits for the market of the symbol.
  abbrev pub awaits : S → Order S D → Bool
  awaits symbol o = (o.symbol =? symbol) && is_pending o.status

  unfoldable pub targets : S → OrderManager S D → List String → List (Order S D)
  unfolding known select
  targets symbol m ids = only_pending (select (some symbol) (known m.orders ids))

  module _ (symbol : S) (m : OrderManager S D) where
    targets_hit :
        (id : String) (ids : List String) {o : Order S D}
        → Has m id o
        → awaits symbol o ≡ true
        → targets symbol m (id ∷ ids) ≡ o ∷ targets symbol m ids
    unfolding targets matches
    targets_hit id ids there hit = ground arith

    targets_miss :
        (id : String) (ids : List String) {o : Order S D}
        → Has m id o
        → awaits symbol o ≡ false
        → targets symbol m (id ∷ ids) ≡ targets symbol m ids
    unfolding targets matches
    targets_miss id ids there miss = ground arith

    unfoldable pub Awaits : Order S D → Type 0
    Awaits o = Has m o.order_id o × (awaits symbol o ≡ true)

    pub targets-Awaits :
        (ids : List String) → All (IsLive m.orders) ids → All Awaits (targets symbol m ids)
    unfolding Awaits targets
    targets-Awaits [] live = tt
    targets-Awaits (id ∷ ids) ((o, there, active, named), live) =
        elim (Bool-cases (awaits symbol o)) [
          | inl hit ↦
              subst (All Awaits) (sym (targets_hit id ids there hit))
                ((ap (λ x. lookup x m.orders) named ∙ there, hit), targets-Awaits ids live)
          | inr miss ↦
              subst (All Awaits) (sym (targets_miss id ids there miss)) (targets-Awaits ids live)
        ]

    pub targets-Apart :
        (x : String) (ids : List String)
        → All (IsLive m.orders) ids
        → elem x ids ≡ false
        → Apart x (targets symbol m ids)
    unfolding targets
    targets-Apart x [] live out = tt
    targets-Apart x (id ∷ ids) ((o, there, active, named), live) out =
        elim (Bool-cases (awaits symbol o)) [
          | inl hit ↦
              subst (Apart x) (sym (targets_hit id ids there hit))
                (ap (λ y. y =? x) named ∙ ground arith, targets-Apart x ids live (ground arith))
          | inr miss ↦
              subst (Apart x) (sym (targets_miss id ids there miss))
                (targets-Apart x ids live (ground arith))
        ]

    pub targets-IsDistinct :
        (ids : List String)
        → All (IsLive m.orders) ids
        → AreDistinct ids
        → IsDistinct (targets symbol m ids)
    unfolding targets
    targets-IsDistinct [] live distinct = tt
    targets-IsDistinct (id ∷ ids) ((o, there, active, named), live) (new, distinct) =
        elim (Bool-cases (awaits symbol o)) [
          | inl hit ↦ subst IsDistinct (sym (targets_hit id ids there hit)) (
            subst (λ x. Apart x (targets symbol m ids)) (sym named) (targets-Apart id ids live new),
            targets-IsDistinct ids live distinct,
          )
          | inr miss ↦
              subst IsDistinct (sym (targets_miss id ids there miss))
                (targets-IsDistinct ids live distinct)
        ]

    -- What all orders that are selected have in common, each order that meets the tests has.
    pub targets-All :
        (P : Order S D → Type 0) (id : String) (o : Order S D) (ids : List String)
        → All (IsLive m.orders) ids
        → elem id ids ≡ true
        → Has m id o
        → awaits symbol o ≡ true
        → All P (targets symbol m ids)
        → P o
    targets-All P id o [] live here there hit ps = absurd (let wrong : ⊥ = ground arith in wrong)
    targets-All P id o (x ∷ ids) ((o', found, active, named), live) here there hit ps =
        elim (Bool-cases (x =? id)) [
          | inl e ↦
              let x≡id = (string_eq.beq_iff x id).0 e in
              let same : o' ≡ o =
                some-injective o' o (sym found ∙ ap (λ y. lookup y m.orders) x≡id ∙ there) in
              subst P same
                (subst (All P) (targets_hit x ids found (ap (awaits symbol) same ∙ hit)) ps).0
          | inr e ↦ elim (Bool-cases (awaits symbol o')) [
            | inl h ↦
                targets-All P id o ids live (ground arith) there hit
                  (subst (All P) (targets_hit x ids found h) ps).1
            | inr h ↦
                targets-All P id o ids live (ground arith) there hit
                  (subst (All P) (targets_miss x ids found h) ps)
          ]
        ]
