-- ===== src/Data/StreamCache/Store.antt =====
-- Putting, getting, evicting and clearing in `StreamCache` (src/data/stream_cache.py). One call reads
-- the clock once; `ticker` gives the ticker of a symbol.
use algo_engine.Prelude.{
  ℕ, ◌+◌, ◌/◌, Bool, true, false, not, ◌&&◌, ◌||◌, Option, none, some, List, [], ◌∷◌, ◌++◌, String,
  if◌then◌else◌, ltb, leb, ◌==◌, length, drop,
}
use algo_engine.Prelude.Eq.{Eq, ◌=?◌, string_eq, elem}
use algo_engine.Prelude.Dict.{Dict, lookup, get_or, insert, erase, contains}
use algo_engine.Data.StreamCache.{
  CachePolicy, lru, fifo, ttl, count, MarketData, Key, key_eq, CacheEntry, StreamCache,
}

-- `deque(maxlen=10000)`
abbrev pub max_hashes : ℕ
max_hashes = 10000

unfoldable pub push_hash : String → List String → List String
push_hash h hs = if ltb (length hs) max_hashes then hs ++ (h ∷ []) else drop 1 hs ++ (h ∷ [])

abbrev pub discard : Key → List Key → List Key
discard k [] = []
discard k (j ∷ js) = let rest = discard k js in if j =? k then rest else j ∷ rest

abbrev pub set_add : Key → List Key → List Key
set_add k js = if elem k js then js else js ++ (k ∷ [])

module _ {S : Type 0} where
  -- `min(…, key=…)`: the first of the least, from a first candidate.
  unfoldable pub first_min :
      (CacheEntry S → CacheEntry S → Bool) → Key → CacheEntry S → Dict Key (CacheEntry S) → Key
  first_min lt k e [] = k
  first_min lt k e ((j, f) ∷ d) = if lt f e then first_min lt j f d else first_min lt k e d

  abbrev least_recent : CacheEntry S → CacheEntry S → Bool
  least_recent f e =
      ltb f.last_access e.last_access
      || ((f.last_access == e.last_access) && ltb f.access_seq e.access_seq)

  -- `(now - timestamp) > ttl`
  abbrev pub is_expired : ℕ → ℕ → CacheEntry S → Bool
  is_expired now limit e = ltb (e.timestamp + limit) now

  unfoldable pub first_expired : ℕ → Option ℕ → Dict Key (CacheEntry S) → Option Key
  first_expired now none d = none
  first_expired now (some limit) [] = none
  first_expired now (some limit) ((k, e) ∷ d) =
      let later = first_expired now (some limit) d in
      if is_expired now limit e then some k else later

  -- The key that `_evict_entry` chooses in a cache with a first entry.
  unfoldable pub victim :
      ℕ → Option ℕ → CachePolicy → Key → CacheEntry S → Dict Key (CacheEntry S) → Key
  unfolding first_min first_expired
  victim now limit lru k e d = first_min least_recent k e d
  victim now limit fifo k e d = first_min (λ f g. ltb f.timestamp g.timestamp) k e d
  victim now limit ttl k e d = elim (first_expired now limit ((k, e) ∷ d)) [
    | some j ↦ j
    | none ↦ first_min (λ f g. ltb f.last_access g.last_access) k e d
  ]
  victim now limit count k e d = k

module _ {S : Type 0} ⦃e : Eq S⦄ where
  -- `_symbol_indices[symbol].discard(key)`, and the entry goes when it is empty.
  unfoldable pub unindex : S → Key → Dict S (List Key) → Dict S (List Key)
  unindex s k idx = elim (discard k (get_or s [] idx)) [
    | [] ↦ erase s idx
    | j ∷ js ↦ insert s (j ∷ js) idx
  ]

  -- An entry is taken out, with its key in the index.
  unfoldable pub remove_entry : Key → StreamCache S → StreamCache S
  unfolding unindex
  remove_entry k c = elim (lookup k c.cache) [
    | none ↦ c
    | some x ↦ record c {
      cache = erase k c.cache;
      symbol_indices = unindex x.item.symbol k c.symbol_indices;
    }
  ]

  -- `_evict_entry`
  unfoldable pub evict_entry : ℕ → StreamCache S → StreamCache S
  unfolding victim remove_entry
  evict_entry now c = elim (c.cache) [
    | [] ↦ c
    | (k, x) ∷ d ↦ remove_entry (victim now c.ttl_seconds c.policy k x d) c
  ]

  -- `_should_evict`
  abbrev pub should_evict : StreamCache S → Bool
  should_evict c = leb c.max_size (length c.cache)

  -- The hash that `_is_duplicate` comes to, where it needs one; `none` is the exception of making it.
  abbrev pub hash_for : MarketData S → StreamCache S → Option String
  hash_for x c = if c.enable_dedup then x.dedup_hash else some ""

  -- `_is_duplicate` with the hash
  unfoldable pub is_duplicate : String → StreamCache S → Bool × StreamCache S
  unfolding push_hash
  is_duplicate g c =
      if not c.enable_dedup
      then (false, c)
      else if elem g c.seen_hashes
      then (true, c)
      else (false, record c { seen_hashes = push_hash g c.seen_hashes })

  module _ (ticker : S → String) where
    -- `_generate_key`
    abbrev pub generate_key : MarketData S → Key
    generate_key x = record { ticker = ticker x.symbol; time = x.timestamp; detail = x.detail }

    -- The storing of an item in `put`.
    unfoldable pub store : ℕ → MarketData S → StreamCache S → StreamCache S
    store now x c =
        let k = generate_key x in
        record c {
          cache =
              insert k
                (record {
                  item = x;
                  timestamp = now;
                  access_count = 0;
                  last_access = now;
                  access_seq = c.lru_seq_counter + 1;
                })
                c.cache;
          lru_seq_counter = c.lru_seq_counter + 1;
          symbol_indices =
              insert x.symbol (set_add k (get_or x.symbol [] c.symbol_indices)) c.symbol_indices;
          inserts = c.inserts + 1;
        }

    -- `put` of an item with its hash
    unfoldable pub put_hashed : ℕ → String → MarketData S → StreamCache S → Bool × StreamCache S
    unfolding is_duplicate evict_entry store
    put_hashed now g x c =
        let (seen, d) = is_duplicate g c in
        if seen
        then (false, record d { dedup_hits = d.dedup_hits + 1 })
        else (true, store now x (if should_evict d then evict_entry now d else d))

    -- `put`; `none` is the exception of making the hash, before which nothing is changed.
    unfoldable pub put : ℕ → MarketData S → StreamCache S → Option Bool × StreamCache S
    unfolding put_hashed
    put now x c = elim (hash_for x c) [
      | none ↦ (none, c)
      | some g ↦ let (done, d) = put_hashed now g x c in (some done, d)
    ]

  -- `touch`
  unfoldable pub touch : ℕ → Key → CacheEntry S → StreamCache S → StreamCache S
  touch now k x c = record c {
    cache =
        insert k
          (record x {
            access_count = x.access_count + 1;
            last_access = now;
            access_seq = c.lru_seq_counter + 1;
          })
          c.cache;
    lru_seq_counter = c.lru_seq_counter + 1;
  }

  abbrev pub fresh_enough : ℕ → Option ℕ → CacheEntry S → Bool
  fresh_enough now none x = true
  fresh_enough now (some limit) x = not (is_expired now limit x)

  abbrev pub recent_enough : Option ℕ → CacheEntry S → Bool
  recent_enough none x = true
  recent_enough (some since) x = leb since x.item.timestamp

  -- The loop of `get` over the keys of a symbol.
  unfoldable pub collect :
      ℕ → Option ℕ → List Key → StreamCache S → List (MarketData S) × StreamCache S
  unfolding touch
  collect now since [] c = ([], c)
  collect now since (k ∷ ks) c = elim (lookup k c.cache) [
    | none ↦ collect now since ks c
    | some x ↦ elim (fresh_enough now c.ttl_seconds x && recent_enough since x) [
      | true ↦
          let (found, d) = collect now since ks (record (touch now k x c) { hits = c.hits + 1 }) in
          (x.item ∷ found, d)
      | false ↦ collect now since ks c
    ]
  ]

  -- `results.sort(key=…)`, stable.
  abbrev pub insert_by_time : MarketData S → List (MarketData S) → List (MarketData S)
  insert_by_time x [] = x ∷ []
  insert_by_time x (y ∷ ys) =
      if leb x.timestamp y.timestamp then x ∷ y ∷ ys else y ∷ insert_by_time x ys

  abbrev pub sort_by_time : List (MarketData S) → List (MarketData S)
  sort_by_time [] = []
  sort_by_time (x ∷ xs) = insert_by_time x (sort_by_time xs)

  abbrev pub miss : StreamCache S → StreamCache S
  miss c = record c { misses = c.misses + 1 }

  -- The end of `get`.
  abbrev pub answer : List (MarketData S) × StreamCache S → List (MarketData S) × StreamCache S
  answer ([], c) = ([], miss c)
  answer (x ∷ xs, c) = (sort_by_time (x ∷ xs), c)

  unfoldable pub get : ℕ → S → Option ℕ → StreamCache S → List (MarketData S) × StreamCache S
  unfolding collect
  get now symbol since c = elim (lookup symbol c.symbol_indices) [
    | none ↦ ([], miss c)
    | some ks ↦ answer (collect now since ks c)
  ]

  -- The loop of `get_latest`, with the best so far.
  unfoldable pub latest :
      ℕ → List Key → Option (Key × CacheEntry S) → StreamCache S → Option (Key × CacheEntry S)
  latest now [] best c = best
  latest now (k ∷ ks) best c =
      latest now ks
        (elim (lookup k c.cache) [
          | none ↦ best
          | some x ↦
              if fresh_enough now c.ttl_seconds x
              then elim best [
                | none ↦ some (k, x)
                | some (j, y) ↦
                    if ltb y.item.timestamp x.item.timestamp then some (k, x) else some (j, y)
              ]
              else best
        ])
        c

  -- The end of `get_latest`.
  abbrev pub answer_latest :
      ℕ → Option (Key × CacheEntry S) → StreamCache S → Option (MarketData S) × StreamCache S
  answer_latest now none c = (none, miss c)
  answer_latest now (some (k, x)) c = (some x.item, record (touch now k x c) { hits = c.hits + 1 })

  unfoldable pub get_latest : ℕ → S → StreamCache S → Option (MarketData S) × StreamCache S
  unfolding latest touch
  get_latest now symbol c = elim (lookup symbol c.symbol_indices) [
    | none ↦ (none, miss c)
    | some ks ↦ answer_latest now (latest now ks none c) c
  ]

  unfoldable pub clear : StreamCache S → StreamCache S
  clear c = record c { cache = []; symbol_indices = []; seen_hashes = [] }

  unfoldable pub remove_keys : List Key → Dict Key (CacheEntry S) → ℕ × Dict Key (CacheEntry S)
  remove_keys [] d = (0, d)
  remove_keys (k ∷ ks) d =
      let (n, rest) = remove_keys ks (erase k d) in (if contains k d then n + 1 else n, rest)

  unfoldable pub clear_symbol : S → StreamCache S → ℕ × StreamCache S
  unfolding remove_keys
  clear_symbol symbol c = elim (lookup symbol c.symbol_indices) [
    | none ↦ (0, c)
    | some ks ↦
        let (n, d) = remove_keys ks c.cache in
        (n, record c { cache = d; symbol_indices = erase symbol c.symbol_indices })
  ]

  unfoldable pub expired_keys : ℕ → ℕ → Dict Key (CacheEntry S) → List Key
  expired_keys now limit [] = []
  expired_keys now limit ((k, x) ∷ d) =
      let rest = expired_keys now limit d in if is_expired now limit x then k ∷ rest else rest

  -- An expired entry goes; its symbol stays in the index, if need be with no keys.
  unfoldable pub drop_expired : List Key → StreamCache S → StreamCache S
  drop_expired [] c = c
  drop_expired (k ∷ ks) c = drop_expired ks (elim (lookup k c.cache) [
    | none ↦ c
    | some x ↦ record c {
      cache = erase k c.cache;
      symbol_indices =
          insert x.item.symbol (discard k (get_or x.item.symbol [] c.symbol_indices))
            c.symbol_indices;
    }
  ])

  -- `_cleanup_expired`
  unfoldable pub cleanup_expired : ℕ → StreamCache S → ℕ × StreamCache S
  unfolding expired_keys drop_expired
  cleanup_expired now c = elim (c.ttl_seconds) [
    | none ↦ (0, c)
    | some limit ↦ let ks = expired_keys now limit c.cache in (length ks, drop_expired ks c)
  ]

  -- A turn of `_cleanup_loop`, before its sleep.
  unfoldable pub cleanup_turn : ℕ → StreamCache S → StreamCache S
  unfolding cleanup_expired
  cleanup_turn now c =
      let d = (cleanup_expired now c).1 in
      if ltb 5000 (length d.seen_hashes)
      then record d { seen_hashes = drop (length d.seen_hashes / 2) d.seen_hashes }
      else d
