-- ===== src/Data/StreamCache/Victims.antt =====
-- The entry that src/data/stream_cache.py evicts.
use algo_engine.Prelude.{
  ℕ, ◌≡◌, sym, subst, Bool, Option, none, some, [], ◌∷◌, arith, ltb, Bool-cases, Option-cases, inl,
  inr,
}
use algo_engine.Prelude.Eq.{◌=?◌, string_eq, beq_refl}
use algo_engine.Prelude.Dict.{Dict, lookup}
use algo_engine.Data.StreamCache.{CachePolicy, lru, fifo, ttl, count, Key, key_eq, CacheEntry}
use algo_engine.Data.StreamCache.Store.{first_min, first_expired, victim, is_expired}

module _ {S : Type 0} where
  -- A key that stands in the dict.
  abbrev pub Stands : Key → Dict Key (CacheEntry S) → Type 0
  Stands k d = (x : CacheEntry S) × (lookup k d ≡ some x)

  Stands-head : (k : Key) (x : CacheEntry S) (d : Dict Key (CacheEntry S)) → Stands k ((k, x) ∷ d)
  Stands-head k x d = (x, ground (arith, beq_refl k))

  Stands-tail :
      (j k : Key) (x : CacheEntry S) (d : Dict Key (CacheEntry S))
      → Stands j d
      → Stands j ((k, x) ∷ d)
  Stands-tail j k x d (y, h) = elim (Bool-cases (k =? j)) [
    | inl e ↦ (x, ground arith)
    | inr e ↦ (y, ground arith)
  ]

  Stands-second :
      (i j k : Key) (y x : CacheEntry S) (d : Dict Key (CacheEntry S))
      → Stands i ((k, x) ∷ d)
      → Stands i ((k, x) ∷ (j, y) ∷ d)
  Stands-second i j k y x d (z, h) = elim (Bool-cases (k =? i)) [
    | inl e ↦ (x, ground arith)
    | inr e ↦ elim (Bool-cases (j =? i)) [ inl f ↦ (y, ground arith) | inr f ↦ (z, ground arith) ]
  ]

  first_min-Stands :
      (lt : CacheEntry S → CacheEntry S → Bool) (k : Key) (x : CacheEntry S)
      (d : Dict Key (CacheEntry S))
      → Stands (first_min lt k x d) ((k, x) ∷ d)
  unfolding first_min
  first_min-Stands lt k x [] = Stands-head k x []
  first_min-Stands lt k x ((j, y) ∷ d) =
      let all = (k, x) ∷ (j, y) ∷ d in
      elim (Bool-cases (lt y x)) [
        | inl less ↦
            let first : first_min lt k x ((j, y) ∷ d) ≡ first_min lt j y d = ground arith in
            subst (λ i. Stands i all) (sym first)
              (Stands-tail _ k x ((j, y) ∷ d) (first_min-Stands lt j y d))
        | inr more ↦
            let first : first_min lt k x ((j, y) ∷ d) ≡ first_min lt k x d = ground arith in
            subst (λ i. Stands i all) (sym first)
              (Stands-second _ j k y x d (first_min-Stands lt k x d))
      ]

  first_expired-Stands :
      (now : ℕ) (limit : Option ℕ) (d : Dict Key (CacheEntry S)) {k : Key}
      → first_expired now limit d ≡ some k
      → Stands k d
  unfolding first_expired
  first_expired-Stands now none d h = cc
  first_expired-Stands now (some limit) [] h = cc
  first_expired-Stands now (some limit) ((j, x) ∷ d) {k} h =
      elim (Bool-cases (is_expired now limit x)) [
        | inl old ↦
            let same : j ≡ k = ground arith in
            subst (λ i. Stands i ((j, x) ∷ d)) same (Stands-head j x d)
        | inr young ↦ Stands-tail k j x d (first_expired-Stands now (some limit) d (ground arith))
      ]

  victim_fresh :
      (now : ℕ) (limit : Option ℕ) (k : Key) (x : CacheEntry S) (d : Dict Key (CacheEntry S))
      → first_expired now limit ((k, x) ∷ d) ≡ none
      → victim now limit ttl k x d ≡ first_min (λ f g. ltb f.last_access g.last_access) k x d
  unfolding victim
  victim_fresh now limit k x d h = ground arith

  victim_expired :
      (now : ℕ) (limit : Option ℕ) (k j : Key) (x : CacheEntry S) (d : Dict Key (CacheEntry S))
      → first_expired now limit ((k, x) ∷ d) ≡ some j
      → victim now limit ttl k x d ≡ j
  unfolding victim
  victim_expired now limit k j x d h = ground arith

  -- The key that is chosen stands in the cache.
  pub victim-Stands :
      (now : ℕ) (limit : Option ℕ) (policy : CachePolicy) (k : Key) (x : CacheEntry S)
      (d : Dict Key (CacheEntry S))
      → Stands (victim now limit policy k x d) ((k, x) ∷ d)
  unfolding victim
  victim-Stands now limit lru k x d = first_min-Stands _ k x d
  victim-Stands now limit fifo k x d = first_min-Stands _ k x d
  victim-Stands now limit ttl k x d =
      let all = (k, x) ∷ d in
      elim (Option-cases (first_expired now limit all)) [
        | inl e ↦
            subst (λ i. Stands i all) (sym (victim_fresh now limit k x d e))
              (first_min-Stands (λ f g. ltb f.last_access g.last_access) k x d)
        | inr (j, e) ↦
            subst (λ i. Stands i all) (sym (victim_expired now limit k j x d e))
              (first_expired-Stands now limit all e)
      ]
  victim-Stands now limit count k x d = Stands-head k x d
