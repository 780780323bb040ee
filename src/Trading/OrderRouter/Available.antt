-- ===== src/Trading/OrderRouter/Available.antt =====
-- The brokers that the strategies of src/trading/order_router.py pick from those that are available.
use algo_engine.Prelude.{
  ℕ, zero, suc, ◌≡◌, refl, sym, subst, Bool, true, false, ◌&&◌, ◌||◌, Option, none, some, List, [],
  ◌∷◌, String, arith, if◌then◌else◌, All, any, Bool-cases, inl, inr, ◌⊎◌,
}
use algo_engine.Prelude.Eq.{◌=?◌, string_eq, elem, beq_refl}
use algo_engine.Prelude.Dict.{Dict, get_or}
use algo_engine.Trading.OrderRouter.{BrokerMetrics}
use algo_engine.Trading.OrderRouter.Route.{
  fixed_name, Entry, with_entry, names, get_available_brokers, first_least, at,
}

pub All-elem :
    (P : String → Type 0) (n : String) (ns : List String) → elem n ns ≡ true → All P ns → P n
All-elem P n [] h hs = absurd cc
All-elem P n (m ∷ ms) h (p, ps) = elim (Bool-cases (m =? n)) [
  | inl same ↦ subst P (let q : m ≡ n = (string_eq.beq_iff m n).0 same in q) p
  | inr other ↦ All-elem P n ms (ground arith) ps
]

module _ {D : Type 0} where
  -- A broker of that name is marked as connected, or answers that it is.
  abbrev pub is_up : Dict String Bool → Dict String (BrokerMetrics D) → String → Bool
  is_up brokers metrics n =
      any (λ e. (e.0 =? n) && (e.1.is_connected || get_or (e.0) false brokers)) metrics

  abbrev pub AllUp : Dict String Bool → Dict String (BrokerMetrics D) → List String → Type 0
  AllUp brokers metrics ns = All (λ n. is_up brokers metrics n ≡ true) ns

  AllUp-cons :
      (brokers : Dict String Bool) (metrics : Dict String (BrokerMetrics D)) (e : Entry D)
      (ns : List String)
      → AllUp brokers metrics ns
      → AllUp brokers (e ∷ metrics) ns
  AllUp-cons brokers metrics e [] h = tt
  AllUp-cons brokers metrics e (n ∷ ns) (h, hs) = (ground arith, AllUp-cons brokers metrics e ns hs)

  -- The same of a list that may be missing.
  abbrev pub AllUpIn :
      Dict String Bool → Dict String (BrokerMetrics D) → Option (List (Entry D)) → Type 0
  AllUpIn brokers metrics none = Unit
  AllUpIn brokers metrics (some es) = AllUp brokers metrics (names es)

  AllUpIn-cons :
      (brokers : Dict String Bool) (metrics : Dict String (BrokerMetrics D)) (e : Entry D)
      (o : Option (List (Entry D)))
      → AllUpIn brokers metrics o
      → AllUpIn brokers (e ∷ metrics) o
  AllUpIn-cons brokers metrics e none h = tt
  AllUpIn-cons brokers metrics e (some es) h = AllUp-cons brokers metrics e (names es) h

  AllUpIn-with_entry :
      (brokers : Dict String Bool) (metrics : Dict String (BrokerMetrics D)) (e : Entry D)
      (o : Option (List (Entry D)))
      → (e.1.is_connected || get_or (e.0) false brokers) ≡ true
      → AllUpIn brokers metrics o
      → AllUpIn brokers (e ∷ metrics) (with_entry e o)
  AllUpIn-with_entry brokers metrics e none up h = tt
  AllUpIn-with_entry brokers metrics e (some es) up h =
      (ground (arith, beq_refl (e.0)), AllUp-cons brokers metrics e (names es) h)

  available_cases :
      (brokers : Dict String Bool) (n : String) (m : BrokerMetrics D)
      (metrics : Dict String (BrokerMetrics D))
      → let rest = get_available_brokers brokers metrics in
        let all = get_available_brokers brokers ((n, m) ∷ metrics) in
        (all ≡ with_entry (n, m) rest) × ((m.is_connected || get_or n false brokers) ≡ true)
        ⊎ (all ≡ rest)
        ⊎ (all ≡ none)
  unfolding get_available_brokers
  available_cases brokers n m metrics =
      let rest = get_available_brokers brokers metrics in
      let whole = with_entry (n, m) rest in ground arith

  pub available-AllUp :
      (brokers : Dict String Bool) (metrics : Dict String (BrokerMetrics D))
      → AllUpIn brokers metrics (get_available_brokers brokers metrics)
  unfolding get_available_brokers
  available-AllUp brokers [] = tt
  available-AllUp brokers ((n, m) ∷ metrics) =
      let rest = get_available_brokers brokers metrics in
      let ih = available-AllUp brokers metrics in
      elim (available_cases brokers n m metrics) [
        | inl (e, up) ↦
            subst (AllUpIn brokers ((n, m) ∷ metrics)) (sym e)
              (AllUpIn-with_entry brokers metrics (n, m) rest up ih)
        | inr (inl e) ↦
            subst (AllUpIn brokers ((n, m) ∷ metrics)) (sym e)
              (AllUpIn-cons brokers metrics (n, m) rest ih)
        | inr (inr e) ↦ subst (AllUpIn brokers ((n, m) ∷ metrics)) (sym e) tt
      ]

  pub first_least-elem :
      (lt : BrokerMetrics D → BrokerMetrics D → Bool) (e : Entry D) (es : List (Entry D))
      → elem (first_least lt e es).0 (names (e ∷ es)) ≡ true
  unfolding first_least
  first_least-elem lt e [] = ground (arith, beq_refl (e.0))
  first_least-elem lt e (f ∷ fs) =
      ground (arith, first_least-elem lt f fs, first_least-elem lt e fs)

  pub at-elem :
      (i : ℕ) (e : Entry D) (es : List (Entry D)) → elem (at i e es) (names (e ∷ es)) ≡ true
  unfolding at
  at-elem zero e es = ground (arith, beq_refl (e.0))
  at-elem (suc i) e [] = ground (arith, beq_refl (e.0))
  at-elem (suc i) e (f ∷ fs) = ground (arith, at-elem i f fs)

  pub fixed_name-elem :
      (name : Option String) (e : Entry D) (es : List (Entry D))
      → elem (fixed_name name e es) (names (e ∷ es)) ≡ true
  fixed_name-elem none e es = ground (arith, beq_refl (e.0))
  fixed_name-elem (some n) e es = go (elem n (names (e ∷ es))) refl
    where
      go :
          (b : Bool)
          → elem n (names (e ∷ es)) ≡ b
          → elem (if b then n else e.0) (names (e ∷ es)) ≡ true
      go true h = h
      go false h = ground (arith, beq_refl (e.0))
