-- ===== src/Data/StreamCache.antt =====
-- The state of `StreamCache` in src/data/stream_cache.py. Symbols are any type with `==` and a ticker.
-- Times are whole microseconds. A cache key is taken as its three parts; what stands in it behind the
-- time stamp, and the hash for deduplication, are texts that each item brings along, since they are
-- made by formatting decimals and rounding floats; an item has no hash where making it raises, as it
-- does for a bar, whose prices are read under names that a bar does not have. A set is a list without repetitions, and iterates
-- in the order of that list. Watermarks are percentages, and products with them are exact.
pub mod Store
pub mod Flow
pub mod Victims
pub mod Bounds
pub mod Flowing
pub mod Pressure
pub mod Stored
pub mod Calls
pub mod Removals
use algo_engine.Prelude.{
  ℕ, ◌≡◌, ◌↔◌, Bool, true, false, ◌&&◌, Option, none, some, List, [], ◌∷◌, ◌++◌, String, arith,
  ◌==◌, if◌then◌else◌,
}
use algo_engine.Prelude.Eq.{Eq, ◌=?◌, string_eq, elem}
use algo_engine.Prelude.Dict.{Dict}

pub data CachePolicy : Type 0 where
  lru fifo ttl count : CachePolicy

pub record MarketData (S : Type 0) : Type 0 where
  pub symbol : S
  pub timestamp : ℕ
  pub detail : String
  pub dedup_hash : Option String

pub record Key : Type 0 where
  pub ticker : String
  pub time : ℕ
  pub detail : String

abbrev pub key_beq : Key → Key → Bool
key_beq a b = (a.time == b.time) && ((a.ticker =? b.ticker) && (a.detail =? b.detail))

pub key_beq_iff : (a b : Key) → (key_beq a b ≡ true) ↔ (a ≡ b)
key_beq_iff a b =
    ground (arith, string_eq.beq_iff a.ticker b.ticker, string_eq.beq_iff a.detail b.detail)

instance abbrev pub key_eq : Eq Key
key_eq = record { beq = key_beq; beq_iff = key_beq_iff }

pub record CacheEntry (S : Type 0) : Type 0 where
  pub item : MarketData S
  pub timestamp : ℕ
  pub access_count : ℕ
  pub last_access : ℕ
  pub access_seq : ℕ

pub record BackPressureConfig : Type 0 where
  pub max_queue_size : ℕ
  pub high_watermark : ℕ
  pub low_watermark : ℕ
  pub drops_oldest : Bool

pub record StreamCache (S : Type 0) : Type 0 where
  pub max_size : ℕ
  pub policy : CachePolicy
  -- `none` stands for `None` and for 0, which count alike
  pub ttl_seconds : Option ℕ
  pub enable_dedup : Bool
  pub backpressure : BackPressureConfig
  pub cache : Dict Key (CacheEntry S)
  pub symbol_indices : Dict S (List Key)
  pub seen_hashes : List String
  pub lru_seq_counter : ℕ
  pub async_queue : List (MarketData S)
  pub queue_size : ℕ
  pub dropped_count : ℕ
  pub throttling : Bool
  -- `not self._pause_event.is_set()`
  pub paused : Bool
  pub hits : ℕ
  pub misses : ℕ
  pub dedup_hits : ℕ
  pub inserts : ℕ
  pub running : Bool

-- `StreamCache.__init__`
unfoldable pub new_cache :
    {S : Type 0} → ℕ → CachePolicy → Option ℕ → Bool → BackPressureConfig → StreamCache S
new_cache max_size policy ttl_seconds enable_dedup backpressure = record {
  max_size = max_size;
  policy = policy;
  ttl_seconds = ttl_seconds;
  enable_dedup = enable_dedup;
  backpressure = backpressure;
  cache = [];
  symbol_indices = [];
  seen_hashes = [];
  lru_seq_counter = 0;
  async_queue = [];
  queue_size = 0;
  dropped_count = 0;
  throttling = false;
  paused = false;
  hits = 0;
  misses = 0;
  dedup_hits = 0;
  inserts = 0;
  running = false;
}
