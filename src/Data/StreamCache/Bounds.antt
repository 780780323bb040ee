-- ===== src/Data/StreamCache/Bounds.antt =====
-- What `StreamCache` holds after any calls (src/data/stream_cache.py): its size, and its index.
use algo_engine.Prelude.{
  ℕ, suc, ◌≤◌, ◌<◌, ◌≡◌, refl, sym, ap, ◌∙◌, subst, true, false, none, some, List, [], ◌∷◌, ◌++◌,
  arith, if◌then◌else◌, length, Option-cases, inl, inr,
}
use algo_engine.Prelude.Eq.{Eq, ◌=?◌, string_eq, elem}
use algo_engine.Prelude.Dict.{
  Dict, lookup, get_or, insert, erase, lookup-erase, erase-IsDistinct, length-erase,
  length-erase_le, get_or-insert, insert-IsDistinct, IsDistinct,
}
use algo_engine.Data.StreamCache.{Key, key_eq, CacheEntry, StreamCache}
use algo_engine.Data.StreamCache.Store.{
  discard, set_add, victim, unindex, remove_entry, evict_entry,
}
use algo_engine.Data.StreamCache.Victims.{Stands, victim-Stands}

pub elem-discard :
    (k j : Key) (ks : List Key) → elem j (discard k ks) ≡ (if k =? j then false else elem j ks)
elem-discard k j [] = ground arith
elem-discard k j (i ∷ ks) =
    ground (arith, elem-discard k j ks, key_eq.beq_iff i k, key_eq.beq_iff i j, key_eq.beq_iff k j)

pub elem-set_add :
    (k j : Key) (ks : List Key) → elem j (set_add k ks) ≡ (if k =? j then true else elem j ks)
elem-set_add k j ks = ground (arith, elem-snoc k j ks, key_eq.beq_iff k j)
  where
    elem-snoc :
        (k j : Key) (ks : List Key) → elem j (ks ++ (k ∷ [])) ≡ (if k =? j then true else elem j ks)
    elem-snoc k j [] = ground arith
    elem-snoc k j (i ∷ ks) = ground (arith, elem-snoc k j ks)

module _ {S : Type 0} ⦃e : Eq S⦄ where
  -- Every entry's key stands in the index of its symbol.
  abbrev pub IsIndexed : Dict Key (CacheEntry S) → Dict S (List Key) → Type 0
  IsIndexed cache idx =
      (k : Key) (x : CacheEntry S)
      → lookup k cache ≡ some x
      → elem k (get_or x.item.symbol [] idx) ≡ true

  -- The cache keeps its size; no key and no symbol stands twice; and the index has all entries.
  pub record IsStored (n : ℕ) (c : StreamCache S) : Type 0 where
    pub size : c.max_size ≡ n
    pub small : length c.cache ≤ n
    pub distinct : IsDistinct c.cache
    pub index_distinct : IsDistinct c.symbol_indices
    pub indexed : IsIndexed c.cache c.symbol_indices

  pub get_or-erase :
      (s t : S) (idx : Dict S (List Key))
      → IsDistinct idx
      → get_or t [] (erase s idx) ≡ (if s =? t then [] else get_or t [] idx)
  get_or-erase s t idx h = ground (arith, lookup-erase s t idx h)

  get_or-unindex :
      (s t : S) (k : Key) (idx : Dict S (List Key))
      → IsDistinct idx
      → get_or t [] (unindex s k idx)
        ≡ (if s =? t then discard k (get_or s [] idx) else get_or t [] idx)
  unfolding unindex
  get_or-unindex s t k idx h = go (discard k (get_or s [] idx)) refl
    where
      go :
          (l : List Key)
          → discard k (get_or s [] idx) ≡ l
          → get_or t [] (elim l [ [] ↦ erase s idx | j ∷ js ↦ insert s (j ∷ js) idx ])
            ≡ (if s =? t then discard k (get_or s [] idx) else get_or t [] idx)
      go [] q = get_or-erase s t idx h ∙ ap (λ l. if s =? t then l else get_or t [] idx) (sym q)
      go (j ∷ js) q =
          get_or-insert s t (j ∷ js) [] idx
          ∙ ap (λ l. if s =? t then l else get_or t [] idx) (sym q)

  unindex-IsDistinct :
      (s : S) (k : Key) (idx : Dict S (List Key)) → IsDistinct idx → IsDistinct (unindex s k idx)
  unfolding unindex
  unindex-IsDistinct s k idx h = go (discard k (get_or s [] idx))
    where
      go :
          (l : List Key) → IsDistinct (elim l [ [] ↦ erase s idx | j ∷ js ↦ insert s (j ∷ js) idx ])
      go [] = erase-IsDistinct s idx h
      go (j ∷ js) = insert-IsDistinct s (j ∷ js) idx h

  -- Taking out a key, and taking it off the index of one symbol.
  pub unindexed :
      (k : Key) (s : S) (cache : Dict Key (CacheEntry S)) (idx idx' : Dict S (List Key))
      → IsDistinct cache
      → ((t : S)
          → get_or t [] idx' ≡ (if s =? t then discard k (get_or s [] idx) else get_or t [] idx))
      → IsIndexed cache idx
      → IsIndexed (erase k cache) idx'
  unindexed k s cache idx idx' dist g h j y found =
      let t = y.item.symbol in
      let stays : lookup j cache ≡ some y = ground (arith, lookup-erase k j cache dist) in
      let other : (k =? j) ≡ false = ground (arith, lookup-erase k j cache dist) in
      let there = h j y stays in
      ground (arith, g t, elem-discard k j (get_or s [] idx), e.beq_iff s t)

  -- The entry of a key is taken out.
  abbrev removed : Key → CacheEntry S → StreamCache S → StreamCache S
  removed k x c = record c {
    cache = erase k c.cache;
    symbol_indices = unindex x.item.symbol k c.symbol_indices;
  }

  remove_entry_missing :
      (k : Key) (c : StreamCache S) → lookup k c.cache ≡ none → remove_entry k c ≡ c
  unfolding remove_entry
  remove_entry_missing k c h = ground arith

  remove_entry_found :
      (k : Key) (c : StreamCache S) {x : CacheEntry S}
      → lookup k c.cache ≡ some x
      → remove_entry k c ≡ removed k x c
  unfolding remove_entry
  remove_entry_found k c h = ground arith

  remove_entry-IsStored :
      (n : ℕ) (k : Key) (c : StreamCache S) → IsStored n c → IsStored n (remove_entry k c)
  remove_entry-IsStored n k c h = elim (Option-cases (lookup k c.cache)) [
    | inl e ↦ subst (IsStored n) (sym (remove_entry_missing k c e)) h
    | inr (x, e) ↦ subst (IsStored n) (sym (remove_entry_found k c e)) record {
      size = h.size;
      small = let small = h.small in omega (arith, length-erase_le k c.cache);
      distinct = erase-IsDistinct k c.cache h.distinct;
      index_distinct = unindex-IsDistinct x.item.symbol k c.symbol_indices h.index_distinct;
      indexed =
          unindexed k x.item.symbol c.cache c.symbol_indices _ h.distinct
            (λ t. get_or-unindex x.item.symbol t k c.symbol_indices h.index_distinct) h.indexed;
    }
  ]

  remove_entry-length :
      (k : Key) (c : StreamCache S)
      → Stands k c.cache
      → suc (length (remove_entry k c).cache) ≡ length c.cache
  remove_entry-length k c (x, e) =
      ap (λ (d : StreamCache S). suc (length d.cache)) (remove_entry_found k c e)
      ∙ length-erase k c.cache e

  evict_entry_some :
      (now : ℕ) (c : StreamCache S) (k : Key) (x : CacheEntry S) (d : Dict Key (CacheEntry S))
      → c.cache ≡ (k, x) ∷ d
      → evict_entry now c ≡ remove_entry (victim now c.ttl_seconds c.policy k x d) c
  unfolding evict_entry
  evict_entry_some now c k x d r = ground arith

  -- An eviction takes one entry out of a cache that has one.
  pub evict_entry_lem :
      (now n : ℕ) (c : StreamCache S) (d : Dict Key (CacheEntry S))
      → c.cache ≡ d
      → 0 < length d
      → IsStored n c
      → IsStored n (evict_entry now c) × (suc (length (evict_entry now c).cache) ≡ length d)
  evict_entry_lem now n c [] r m h = absurd (omega arith)
  evict_entry_lem now n c ((k, x) ∷ d) r m h =
      let v = victim now c.ttl_seconds c.policy k x d in
      let evicts = evict_entry_some now c k x d r in
      let stands = subst (Stands v) (sym r) (victim-Stands now c.ttl_seconds c.policy k x d) in
      (
        subst (IsStored n) (sym evicts) (remove_entry-IsStored n v c h),
        ap (λ (g : StreamCache S). suc (length g.cache)) evicts
            ∙ remove_entry-length v c stands
            ∙ ap length r,
      )
