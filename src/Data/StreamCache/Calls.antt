-- ===== src/Data/StreamCache/Calls.antt =====
-- Any calls of `StreamCache` in any order (src/data/stream_cache.py).
use algo_engine.Prelude.{
  ℕ, ◌≡◌, refl, sym, subst, Bool, true, false, ◌&&◌, Option, none, some, List, [], ◌∷◌, arith,
  if◌then◌else◌, ltb, Bool-cases, Option-cases, inl, inr, ◌+◌,
}
use mathlib.Core.Option.{some-injective}
use algo_engine.Prelude.Eq.{Eq}
use algo_engine.Prelude.Dict.{lookup}
use algo_engine.Data.StreamCache.{MarketData, Key, key_eq, CacheEntry, StreamCache}
use algo_engine.Data.StreamCache.Store.{
  answer, answer_latest, touch, collect, get, get_latest, latest, fresh_enough, recent_enough, miss,
}
use algo_engine.Data.StreamCache.Bounds.{IsStored}
use algo_engine.Data.StreamCache.Stored.{same_store, touch-IsStored}

module _ {S : Type 0} ⦃e : Eq S⦄ where
  collect_gone :
      (now : ℕ) (since : Option ℕ) (k : Key) (ks : List Key) (c : StreamCache S)
      → lookup k c.cache ≡ none
      → collect now since (k ∷ ks) c ≡ collect now since ks c
  unfolding collect
  collect_gone now since k ks c h = ground arith

  collect_stale :
      (now : ℕ) (since : Option ℕ) (k : Key) (ks : List Key) (c : StreamCache S) {x : CacheEntry S}
      → lookup k c.cache ≡ some x
      → (fresh_enough now c.ttl_seconds x && recent_enough since x) ≡ false
      → collect now since (k ∷ ks) c ≡ collect now since ks c
  unfolding collect
  collect_stale now since k ks c {x} h f = rw (h, collect) (rw (f, collect) refl)

  collect_hit :
      (now : ℕ) (since : Option ℕ) (k : Key) (ks : List Key) (c : StreamCache S) {x : CacheEntry S}
      → lookup k c.cache ≡ some x
      → (fresh_enough now c.ttl_seconds x && recent_enough since x) ≡ true
      → (collect now since (k ∷ ks) c).1
        ≡ (collect now since ks (record (touch now k x c) { hits = c.hits + 1 })).1
  unfolding collect
  collect_hit now since k ks c {x} h f = rw (h, collect) (rw (f, collect) refl)

  collect-IsStored :
      (n now : ℕ) (since : Option ℕ) (ks : List Key) (c : StreamCache S)
      → IsStored n c
      → IsStored n (collect now since ks c).1
  unfolding collect
  collect-IsStored n now since [] c h = h
  collect-IsStored n now since (k ∷ ks) c h = elim (Option-cases (lookup k c.cache)) [
    | inl gone ↦
        subst (λ r. IsStored n (r.1)) (sym (collect_gone now since k ks c gone))
          (collect-IsStored n now since ks c h)
    | inr (x, found) ↦
        let d = record (touch now k x c) { hits = c.hits + 1 } in
        elim (Bool-cases (fresh_enough now c.ttl_seconds x && recent_enough since x)) [
          | inl hit ↦ subst (IsStored n) (sym (collect_hit now since k ks c found hit)) (
              collect-IsStored n now since ks d (
                same_store n (touch now k x c) d refl refl refl
                  (touch-IsStored n now k x c found h)))
          | inr stale ↦
              subst (λ r. IsStored n (r.1)) (sym (collect_stale now since k ks c found stale))
                (collect-IsStored n now since ks c h)
        ]
  ]

  miss-IsStored : (n : ℕ) (c : StreamCache S) → IsStored n c → IsStored n (miss c)
  miss-IsStored n c h = same_store n c (miss c) refl refl refl h

  answer-IsStored :
      (n : ℕ) (r : List (MarketData S) × StreamCache S) → IsStored n (r.1) → IsStored n (answer r).1
  answer-IsStored n ([], c) h = miss-IsStored n c h
  answer-IsStored n (x ∷ xs, c) h = h

  pub get-IsStored :
      (n now : ℕ) (symbol : S) (since : Option ℕ) (c : StreamCache S)
      → IsStored n c
      → IsStored n (get now symbol since c).1
  unfolding get
  get-IsStored n now symbol since c h = elim (Option-cases (lookup symbol c.symbol_indices)) [
    | inl unknown ↦ rw (unknown, get) (miss-IsStored n c h)
    | inr (ks, known) ↦
        rw (known, get)
          (answer-IsStored n (collect now since ks c) (collect-IsStored n now since ks c h))
  ]

  -- An entry that is found stands in the cache under its key.
  abbrev Found : Option (Key × CacheEntry S) → StreamCache S → Type 0
  Found best c = (k : Key) (x : CacheEntry S) → best ≡ some (k, x) → lookup k c.cache ≡ some x

  -- What the loop's body makes of the best so far.
  abbrev better :
      Bool → Key → CacheEntry S → Option (Key × CacheEntry S) → Option (Key × CacheEntry S)
  better fresh k x best =
      if fresh
      then elim best [
        | none ↦ some (k, x)
        | some (j, y) ↦ if ltb y.item.timestamp x.item.timestamp then some (k, x) else some (j, y)
      ]
      else best

  moved_found :
      (c : StreamCache S) (p q : Key × CacheEntry S)
      → some p ≡ some q
      → lookup (p.0) c.cache ≡ some (p.1)
      → lookup (q.0) c.cache ≡ some (q.1)
  moved_found c p q same = subst (λ r. lookup (r.0) c.cache ≡ some (r.1)) (some-injective p q same)

  better-Found :
      (fresh : Bool) (k : Key) (x : CacheEntry S) (best : Option (Key × CacheEntry S))
      (c : StreamCache S)
      → lookup k c.cache ≡ some x
      → Found best c
      → Found (better fresh k x best) c
  better-Found false k x best c found h = h
  better-Found true k x none c found h = λ i z q. moved_found c (k, x) (i, z) q found
  better-Found true k x (some (j, y)) c found h =
      elim (Bool-cases (ltb y.item.timestamp x.item.timestamp)) [
        | inl newer ↦ rw newer (λ i z q. moved_found c (k, x) (i, z) q found)
        | inr older ↦ rw older h
      ]

  latest-Found :
      (now : ℕ) (ks : List Key) (best : Option (Key × CacheEntry S)) (c : StreamCache S)
      → Found best c
      → Found (latest now ks best c) c
  unfolding latest
  latest-Found now [] best c h = h
  latest-Found now (k ∷ ks) best c h = latest-Found now ks _ c (go (lookup k c.cache) refl)
    where
      go :
          (r : Option (CacheEntry S))
          → lookup k c.cache ≡ r
          → Found
              (let out : Option (Key × CacheEntry S) = elim r [
                | none ↦ best
                | some x ↦ better (fresh_enough now c.ttl_seconds x) k x best
              ] in
                out)
              c
      go none q = h
      go (some x) q = better-Found (fresh_enough now c.ttl_seconds x) k x best c q h

  answer_latest-IsStored :
      (n now : ℕ) (r : Option (Key × CacheEntry S)) (c : StreamCache S)
      → Found r c
      → IsStored n c
      → IsStored n (answer_latest now r c).1
  unfolding touch
  answer_latest-IsStored n now none c f h = miss-IsStored n c h
  answer_latest-IsStored n now (some (k, x)) c f h =
      same_store n (touch now k x c) _ refl refl refl (touch-IsStored n now k x c (f k x refl) h)

  pub get_latest-IsStored :
      (n now : ℕ) (symbol : S) (c : StreamCache S)
      → IsStored n c
      → IsStored n (get_latest now symbol c).1
  unfolding get_latest
  get_latest-IsStored n now symbol c h = elim (Option-cases (lookup symbol c.symbol_indices)) [
    | inl unknown ↦ rw (unknown, get_latest) (miss-IsStored n c h)
    | inr (ks, known) ↦
        rw (known, get_latest)
          (answer_latest-IsStored n now (latest now ks none c) c
            (latest-Found now ks none c (λ k x q. absurd cc)) h)
  ]
