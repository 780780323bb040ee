-- ===== src/Data/StreamCache/Stored.antt =====
-- What every call of `StreamCache` keeps (src/data/stream_cache.py): the bound on the size, and an
-- index that has all entries.
use algo_engine.Prelude.{
  ℕ, ◌+◌, ◌≤◌, ◌<◌, ◌≡◌, refl, sym, ap, ◌∙◌, subst, true, false, not, some, List, [], arith, length,
  Bool-cases, Option-cases, inl, inr, String,
}
use algo_engine.Prelude.Eq.{Eq, ◌=?◌, elem, string_eq}
use algo_engine.Prelude.Dict.{
  Dict, lookup, get_or, insert, lookup-insert, length-insert_le, length-insert_old, get_or-insert,
  insert-IsDistinct, IsDistinct,
}
use algo_engine.Data.StreamCache.{MarketData, Key, key_eq, CacheEntry, StreamCache}
use algo_engine.Data.StreamCache.Store.{
  set_add, evict_entry, should_evict, hash_for, is_duplicate, put_hashed, store, put, touch,
}
use algo_engine.Data.StreamCache.Bounds.{IsIndexed, IsStored, elem-set_add, evict_entry_lem}

module _ {S : Type 0} ⦃e : Eq S⦄ where
  -- Fields that the invariant does not speak of.
  pub same_store :
      (n : ℕ) (c d : StreamCache S)
      → d.max_size ≡ c.max_size
      → d.cache ≡ c.cache
      → d.symbol_indices ≡ c.symbol_indices
      → IsStored n c
      → IsStored n d
  same_store n c d p q r h = record {
    size = p ∙ h.size;
    small = subst (λ (m : Dict Key (CacheEntry S)). length m ≤ n) (sym q) h.small;
    distinct = subst IsDistinct (sym q) h.distinct;
    index_distinct = subst IsDistinct (sym r) h.index_distinct;
    indexed =
        subst (λ m. IsIndexed m d.symbol_indices) (sym q)
          (subst (IsIndexed c.cache) (sym r) h.indexed);
  }

  is_duplicate-IsStored :
      (n : ℕ) (g : String) (c : StreamCache S) → IsStored n c → IsStored n (is_duplicate g c).1
  unfolding is_duplicate
  is_duplicate-IsStored n g c h = elim (Bool-cases (not c.enable_dedup)) [
    | inl off ↦ rw off h
    | inr on ↦ elim (Bool-cases (elem g c.seen_hashes)) [
      | inl seen ↦ rw on (rw seen h)
      | inr new ↦ rw on (rw new (same_store n c _ refl refl refl h))
    ]
  ]

  -- A key enters the cache, and the index of its symbol.
  insert-IsIndexed :
      (k : Key) (x : CacheEntry S) (cache : Dict Key (CacheEntry S)) (idx : Dict S (List Key))
      → IsIndexed cache idx
      → IsIndexed
          (insert k x cache)
          (insert x.item.symbol (set_add k (get_or x.item.symbol [] idx)) idx)
  insert-IsIndexed k x cache idx h j y found =
      let s = x.item.symbol in
      let g = get_or-insert s y.item.symbol (set_add k (get_or s [] idx)) [] idx in
      let f = lookup-insert k j x cache in
      let m = elem-set_add k j (get_or s [] idx) in
      elim (Bool-cases (k =? j)) [
        | inl same ↦
            let symbol : s ≡ y.item.symbol =
              ap (λ (z : CacheEntry S). z.item.symbol) (let q : x ≡ y = ground arith in q) in
            ground (arith, e.beq_iff s y.item.symbol)
        | inr other ↦
            let there = h j y (let q : lookup j cache ≡ some y = ground arith in q) in
            ground (arith, e.beq_iff s y.item.symbol)
      ]

  insert-small :
      (k : Key) (x : CacheEntry S) (d : Dict Key (CacheEntry S)) (n : ℕ)
      → length d < n
      → length (insert k x d) ≤ n
  insert-small k x d n h = omega (arith, length-insert_le k x d)

  store-IsStored :
      (n now : ℕ) (ticker : S → String) (x : MarketData S) (c : StreamCache S)
      → length c.cache < n
      → IsStored n c
      → IsStored n (store ticker now x c)
  unfolding store
  store-IsStored n now ticker x c room h =
      let d = store ticker now x c in
      record {
        size = h.size;
        small = insert-small _ _ c.cache n room;
        distinct = insert-IsDistinct _ _ c.cache h.distinct;
        index_distinct = insert-IsDistinct _ _ c.symbol_indices h.index_distinct;
        indexed = insert-IsIndexed _ _ c.cache c.symbol_indices h.indexed;
      }

  put_seen :
      (now : ℕ) (ticker : S → String) (g : String) (x : MarketData S) (c : StreamCache S)
      → let d = (is_duplicate g c).1 in
        (is_duplicate g c).0 ≡ true
        → (put_hashed ticker now g x c).1 ≡ record d { dedup_hits = d.dedup_hits + 1 }
  unfolding put_hashed
  put_seen now ticker g x c h = ground arith

  put_full :
      (now : ℕ) (ticker : S → String) (g : String) (x : MarketData S) (c : StreamCache S)
      → let d = (is_duplicate g c).1 in
        (is_duplicate g c).0 ≡ false
        → should_evict d ≡ true
        → (put_hashed ticker now g x c).1 ≡ store ticker now x (evict_entry now d)
  unfolding put_hashed
  put_full now ticker g x c h k = ground arith

  put_room :
      (now : ℕ) (ticker : S → String) (g : String) (x : MarketData S) (c : StreamCache S)
      → let d = (is_duplicate g c).1 in
        (is_duplicate g c).0 ≡ false
        → should_evict d ≡ false
        → (put_hashed ticker now g x c).1 ≡ store ticker now x d
  unfolding put_hashed
  put_room now ticker g x c h k = ground arith

  put_hashed-IsStored :
      (n now : ℕ) (ticker : S → String) (g : String) (x : MarketData S) (c : StreamCache S)
      → 0 < n
      → IsStored n c
      → IsStored n (put_hashed ticker now g x c).1
  put_hashed-IsStored n now ticker g x c m h =
      let d = (is_duplicate g c).1 in
      let k = is_duplicate-IsStored n g c h in
      let size = k.size in
      let small = k.small in
      elim (Bool-cases (is_duplicate g c).0) [
        | inl seen ↦
            subst (IsStored n) (sym (put_seen now ticker g x c seen))
              (same_store n d _ refl refl refl k)
        | inr new ↦ elim (Bool-cases (should_evict d)) [
          | inl full ↦
              let (kept, less) = evict_entry_lem now n d d.cache refl (ground arith) k in
              subst (IsStored n) (sym (put_full now ticker g x c new full))
                (store-IsStored n now ticker x (evict_entry now d) (omega arith) kept)
          | inr room ↦
              subst (IsStored n) (sym (put_room now ticker g x c new room))
                (store-IsStored n now ticker x d (ground arith) k)
        ]
      ]

  pub put-IsStored :
      (n now : ℕ) (ticker : S → String) (x : MarketData S) (c : StreamCache S)
      → 0 < n
      → IsStored n c
      → IsStored n (put ticker now x c).1
  unfolding put
  put-IsStored n now ticker x c m h = elim (Option-cases (hash_for x c)) [
    | inl raised ↦ rw (raised, put) h
    | inr (g, made) ↦ rw (made, put) (put_hashed-IsStored n now ticker g x c m h)
  ]

  -- An entry is stored again with the same item.
  rewritten-IsIndexed :
      (k : Key) (x y : CacheEntry S) (cache : Dict Key (CacheEntry S)) (idx : Dict S (List Key))
      → lookup k cache ≡ some x
      → y.item ≡ x.item
      → IsIndexed cache idx
      → IsIndexed (insert k y cache) idx
  rewritten-IsIndexed k x y cache idx found same h j z there =
      let f = lookup-insert k j y cache in
      elim (Bool-cases (k =? j)) [
        | inl here ↦
            let q : y ≡ z = ground arith in
            let kj : k ≡ j = ground (arith, key_eq.beq_iff k j) in
            let symbol : x.item.symbol ≡ z.item.symbol =
              ap (λ (i : MarketData S). i.symbol)
                (sym same ∙ ap (λ (w : CacheEntry S). w.item) q) in
            subst (λ i. elem i (get_or z.item.symbol [] idx) ≡ true) kj
              (subst (λ s. elem k (get_or s [] idx) ≡ true) symbol (h k x found))
        | inr other ↦ h j z (let q : lookup j cache ≡ some z = ground arith in q)
      ]

  pub touch-IsStored :
      (n now : ℕ) (k : Key) (x : CacheEntry S) (c : StreamCache S)
      → lookup k c.cache ≡ some x
      → IsStored n c
      → IsStored n (touch now k x c)
  unfolding touch
  touch-IsStored n now k x c found h = record {
    size = h.size;
    small =
        subst (λ m. m ≤ n)
          (sym (
            length-insert_old k
              (record x {
                access_count = x.access_count + 1;
                last_access = now;
                access_seq = c.lru_seq_counter + 1;
              })
              c.cache found))
          h.small;
    distinct = insert-IsDistinct _ _ c.cache h.distinct;
    index_distinct = h.index_distinct;
    indexed = rewritten-IsIndexed k x _ c.cache c.symbol_indices found refl h.indexed;
  }
