-- ===== src/Data/StreamCache/Removals.antt =====
-- What takes entries out of `StreamCache` (src/data/stream_cache.py), and any calls in any order.
use algo_engine.Prelude.{
  ℕ, ◌≤◌, ◌<◌, ◌≡◌, refl, sym, ap, ◌∙◌, subst, Bool, true, false, Option, none, some, List, [], ◌∷◌,
  arith, if◌then◌else◌, ltb, length, Bool-cases, Option-cases, inl, inr, String,
}
use algo_engine.Prelude.Eq.{Eq, ◌=?◌, elem}
use algo_engine.Prelude.Dict.{
  Dict, lookup, get_or, insert, erase, lookup-erase, erase-IsDistinct, length-erase_le,
  get_or-insert, insert-IsDistinct, IsDistinct,
}
use algo_engine.Data.StreamCache.{
  CachePolicy, MarketData, Key, key_eq, CacheEntry, StreamCache, BackPressureConfig, new_cache,
}
use algo_engine.Data.StreamCache.Store.{
  discard, put, get, get_latest, clear, remove_keys, clear_symbol, expired_keys, drop_expired,
  cleanup_expired, cleanup_turn,
}
use algo_engine.Data.StreamCache.Bounds.{IsIndexed, IsStored, get_or-erase, unindexed}
use algo_engine.Data.StreamCache.Calls.{get-IsStored, get_latest-IsStored}
use algo_engine.Data.StreamCache.Stored.{same_store, put-IsStored}

module _ {S : Type 0} ⦃e : Eq S⦄ where
  clear-IsStored : (n : ℕ) (c : StreamCache S) → IsStored n c → IsStored n (clear c)
  unfolding clear
  clear-IsStored n c h = record {
    size = h.size;
    small = omega arith;
    distinct = tt;
    index_distinct = tt;
    indexed = λ k x q. absurd cc;
  }

  -- Exactly the listed keys go.
  remove_keys_lem :
      (ks : List Key) (d : Dict Key (CacheEntry S))
      → IsDistinct d
      → IsDistinct (remove_keys ks d).1
        × (length (remove_keys ks d).1 ≤ length d)
        × ((j : Key) → lookup j (remove_keys ks d).1 ≡ (if elem j ks then none else lookup j d))
  unfolding remove_keys
  remove_keys_lem [] d h = (h, omega arith, λ j. refl)
  remove_keys_lem (k ∷ ks) d h =
      let (a, b, f) = remove_keys_lem ks (erase k d) (erase-IsDistinct k d h) in
      (
        a,
        omega (arith, length-erase_le k d),
        λ j. ground (arith, f j, lookup-erase k j d h, key_eq.beq_iff j k, key_eq.beq_iff k j),
      )

  remove_keys-IsIndexed :
      (symbol : S) (cache : Dict Key (CacheEntry S)) (idx : Dict S (List Key)) (ks : List Key)
      → IsDistinct cache
      → IsDistinct idx
      → get_or symbol [] idx ≡ ks
      → IsIndexed cache idx
      → IsIndexed (remove_keys ks cache).1 (erase symbol idx)
  remove_keys-IsIndexed symbol cache idx ks dist idist known h j x found =
      let (a, b, f) = remove_keys_lem ks cache dist in
      let g = get_or-erase symbol x.item.symbol idx idist in
      let fj = f j in
      let out : elem j ks ≡ false = ground arith in
      let stays : lookup j cache ≡ some x = ground arith in
      let there = h j x stays in
      elim (Bool-cases (symbol =? x.item.symbol)) [
        | inl same ↦
            let s : symbol ≡ x.item.symbol = ground (arith, e.beq_iff symbol x.item.symbol) in
            let k : get_or x.item.symbol [] idx ≡ ks = ap (λ z. get_or z [] idx) (sym s) ∙ known in
            absurd (let q : true ≡ false = sym there ∙ ap (elem j) k ∙ out in cc)
        | inr other ↦ ground arith
      ]

  clear_symbol-IsStored :
      (n : ℕ) (symbol : S) (c : StreamCache S) → IsStored n c → IsStored n (clear_symbol symbol c).1
  unfolding clear_symbol
  clear_symbol-IsStored n symbol c h = elim (Option-cases (lookup symbol c.symbol_indices)) [
    | inl unknown ↦ rw (unknown, clear_symbol) h
    | inr (ks, known) ↦
        let (a, b, f) = remove_keys_lem ks c.cache h.distinct in
        rw (known, clear_symbol)
          record {
            size = h.size;
            small = let small = h.small in omega arith;
            distinct = a;
            index_distinct = erase-IsDistinct symbol c.symbol_indices h.index_distinct;
            indexed =
                remove_keys-IsIndexed symbol c.cache c.symbol_indices ks h.distinct h.index_distinct
                  (ground arith) h.indexed;
          }
  ]

  -- An expired entry is taken out, and off the index of its symbol.
  abbrev dropped : Key → CacheEntry S → StreamCache S → StreamCache S
  dropped k x c = record c {
    cache = erase k c.cache;
    symbol_indices =
        insert x.item.symbol (discard k (get_or x.item.symbol [] c.symbol_indices))
          c.symbol_indices;
  }

  dropped-IsStored :
      (n : ℕ) (k : Key) (x : CacheEntry S) (c : StreamCache S)
      → IsStored n c
      → IsStored n (dropped k x c)
  dropped-IsStored n k x c h =
      let s = x.item.symbol in
      let l = discard k (get_or s [] c.symbol_indices) in
      record {
        size = h.size;
        small = let small = h.small in omega (arith, length-erase_le k c.cache);
        distinct = erase-IsDistinct k c.cache h.distinct;
        index_distinct = insert-IsDistinct s l c.symbol_indices h.index_distinct;
        indexed =
            unindexed k s c.cache c.symbol_indices _ h.distinct
              (λ t. get_or-insert s t l [] c.symbol_indices) h.indexed;
      }

  drop_expired_gone :
      (k : Key) (ks : List Key) (c : StreamCache S)
      → lookup k c.cache ≡ none
      → drop_expired (k ∷ ks) c ≡ drop_expired ks c
  unfolding drop_expired
  drop_expired_gone k ks c h = rw (h, drop_expired) refl

  drop_expired_found :
      (k : Key) (ks : List Key) (c : StreamCache S) {x : CacheEntry S}
      → lookup k c.cache ≡ some x
      → drop_expired (k ∷ ks) c ≡ drop_expired ks (dropped k x c)
  unfolding drop_expired
  drop_expired_found k ks c h = rw (h, drop_expired) refl

  drop_expired-IsStored :
      (n : ℕ) (ks : List Key) (c : StreamCache S) → IsStored n c → IsStored n (drop_expired ks c)
  unfolding drop_expired
  drop_expired-IsStored n [] c h = h
  drop_expired-IsStored n (k ∷ ks) c h = elim (Option-cases (lookup k c.cache)) [
    | inl gone ↦
        subst (IsStored n) (sym (drop_expired_gone k ks c gone)) (drop_expired-IsStored n ks c h)
    | inr (x, found) ↦
        subst (IsStored n) (sym (drop_expired_found k ks c found))
          (drop_expired-IsStored n ks (dropped k x c) (dropped-IsStored n k x c h))
  ]

  cleanup_expired-IsStored :
      (n now : ℕ) (c : StreamCache S) (limit : Option ℕ)
      → c.ttl_seconds ≡ limit
      → IsStored n c
      → IsStored n (cleanup_expired now c).1
  unfolding cleanup_expired
  cleanup_expired-IsStored n now c none q h = rw (q, cleanup_expired) h
  cleanup_expired-IsStored n now c (some limit) q h =
      rw (q, cleanup_expired) (drop_expired-IsStored n (expired_keys now limit c.cache) c h)

  cleanup_turn-IsStored :
      (n now : ℕ) (c : StreamCache S) → IsStored n c → IsStored n (cleanup_turn now c)
  unfolding cleanup_turn
  cleanup_turn-IsStored n now c h =
      let d = (cleanup_expired now c).1 in
      let k = cleanup_expired-IsStored n now c c.ttl_seconds refl h in
      elim (Bool-cases (ltb 5000 (length d.seen_hashes))) [
        | inl many ↦ rw many (same_store n d _ refl refl refl k)
        | inr few ↦ rw few k
      ]

-- The calls that read or change the cache, each with the time at which it is made.
pub data Call (S : Type 0) : Type 0 where
  put_item : ℕ → MarketData S → Call S
  get_items : ℕ → S → Option ℕ → Call S
  get_latest_item : ℕ → S → Call S
  clear_items : Call S
  clear_items_of : S → Call S
  clean_up : ℕ → Call S

module _ {S : Type 0} ⦃e : Eq S⦄ where
  pub call : (S → String) → Call S → StreamCache S → StreamCache S
  call ticker (put_item now x) c = (put ticker now x c).1
  call ticker (get_items now s since) c = (get now s since c).1
  call ticker (get_latest_item now s) c = (get_latest now s c).1
  call ticker clear_items c = clear c
  call ticker (clear_items_of s) c = (clear_symbol s c).1
  call ticker (clean_up now) c = cleanup_turn now c

  unfoldable pub call_all : (S → String) → List (Call S) → StreamCache S → StreamCache S
  unfolding call
  call_all ticker [] c = c
  call_all ticker (a ∷ cs) c = call_all ticker cs (call ticker a c)

  call-IsStored :
      (n : ℕ) (ticker : S → String) (a : Call S) (c : StreamCache S)
      → 0 < n
      → IsStored n c
      → IsStored n (call ticker a c)
  unfolding call
  call-IsStored n ticker (put_item now x) c m h = put-IsStored n now ticker x c m h
  call-IsStored n ticker (get_items now s since) c m h = get-IsStored n now s since c h
  call-IsStored n ticker (get_latest_item now s) c m h = get_latest-IsStored n now s c h
  call-IsStored n ticker clear_items c m h = clear-IsStored n c h
  call-IsStored n ticker (clear_items_of s) c m h = clear_symbol-IsStored n s c h
  call-IsStored n ticker (clean_up now) c m h = cleanup_turn-IsStored n now c h

  call_all-IsStored :
      (n : ℕ) (ticker : S → String) (cs : List (Call S)) (c : StreamCache S)
      → 0 < n
      → IsStored n c
      → IsStored n (call_all ticker cs c)
  unfolding call_all
  call_all-IsStored n ticker [] c m h = h
  call_all-IsStored n ticker (a ∷ cs) c m h =
      call_all-IsStored n ticker cs (call ticker a c) m (call-IsStored n ticker a c m h)

  -- With a size above zero, after any calls of putting, getting, clearing and cleaning up, under any
  -- policy of eviction: the cache never holds more entries than its size; no key and no symbol
  -- stands twice; and the key of every entry stands in the index of the entry's symbol.
  pub reachable-IsStored :
      (size : ℕ) (policy : CachePolicy) (ttl : Option ℕ) (dedup : Bool) (b : BackPressureConfig)
      (ticker : S → String) (cs : List (Call S))
      → 0 < size
      → IsStored size (call_all ticker cs (new_cache size policy ttl dedup b))
  unfolding new_cache
  reachable-IsStored size policy ttl dedup b ticker cs m =
      call_all-IsStored size ticker cs _ m record {
        size = refl;
        small = omega arith;
        distinct = tt;
        index_distinct = tt;
        indexed = λ k x q. absurd cc;
      }
