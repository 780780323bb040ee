-- ===== src/Data/Sync/Manager.antt =====
-- `DataSyncManager` of src/data/sync_manager.py. A market datum is its symbol and its text; the checksum
-- is a parameter, a hash of the library. Latencies, which are floats, are left out; handlers are numbers, and
-- what they are called with is recorded.
pub mod Buffer
use algo_engine.Prelude.{
  ℕ, ◌+◌, ◌≡◌, Bool, true, false, not, ◌&&◌, ◌||◌, Option, none, some, List, [], ◌∷◌, ◌++◌, String,
  ltb, leb, if◌then◌else◌, length,
}
use algo_engine.Prelude.Eq.{Eq, ◌=?◌, nat_eq, string_eq}
use algo_engine.Prelude.Dict.{Dict, lookup, insert, erase, contains}
use algo_engine.Data.Sync.{
  SyncGap, SequenceManager, new_sequences, get_next_sequence, record_received,
  get_missing_sequences, gap_length, reset,
}

pub data SyncState : Type 0 where
  synced syncing out_of_sync disconnected error : SyncState

pub record DataPacket (S : Type 0) : Type 0 where
  pub symbol : S
  pub data_timestamp : String
  pub sequence_number : ℕ
  pub timestamp : ℕ
  pub checksum : String
  pub source : String
  pub retry_count : ℕ

pub record SyncStatus : Type 0 where
  pub state : SyncState
  pub last_sequence : ℕ
  pub last_received : Option ℕ
  pub gaps : List SyncGap
  pub total_received : ℕ
  pub total_missing : ℕ
  pub checksum_failures : ℕ

-- What the handlers are called with.
pub data Report (S : Type 0) : Type 0 where
  integrity : ℕ → Bool → Report S
  gap_found : S → SyncGap → Report S

pub record DataSyncManager (S : Type 0) : Type 0 where
  pub sequence_managers : Dict S SequenceManager
  pub sync_status : Dict S SyncStatus
  pub packet_buffer : Dict ℕ (DataPacket S)
  pub buffer_size : ℕ
  pub total_packets : ℕ
  pub checksum_failures : ℕ
  pub gaps_detected : ℕ
  -- the earliest first
  pub reports : List (Report S)

abbrev pub new_status : SyncStatus
new_status = record {
  state = disconnected;
  last_sequence = 0;
  last_received = none;
  gaps = [];
  total_received = 0;
  total_missing = 0;
  checksum_failures = 0;
}

abbrev pub total_length : List SyncGap → ℕ
unfolding gap_length
total_length [] = 0
total_length (g ∷ gs) = gap_length g + total_length gs

-- The smallest key of a buffer, and the other one where it is empty.
abbrev pub oldest_key : {A : Type 0} → ℕ → Dict ℕ A → ℕ
oldest_key k [] = k
oldest_key k ((j, _) ∷ d) = oldest_key (if ltb j k then j else k) d

-- The buffer with a packet, without its oldest where it is too large.
abbrev pub put_packet :
    {S : Type 0} → ℕ → ℕ → DataPacket S → Dict ℕ (DataPacket S) → Dict ℕ (DataPacket S)
put_packet size n p buffer =
    let buffer' = insert n p buffer in
    if ltb size (length buffer') then erase (oldest_key n buffer') buffer' else buffer'

-- The number of a new packet: the one that is given, or the next of the symbol.
abbrev pub number_packet : Option ℕ → SequenceManager → ℕ × SequenceManager
number_packet none q = get_next_sequence q
number_packet (some n) q = (n, q)

-- The state by the gaps that are open.
abbrev pub state_of : List SyncGap → SyncState
state_of [] = synced
state_of (g ∷ gs) = out_of_sync

module _ {S : Type 0} where
  -- `DataSyncManager.__init__`
  unfoldable pub new_sync : DataSyncManager S
  new_sync = record {
    sequence_managers = [];
    sync_status = [];
    packet_buffer = [];
    buffer_size = 10000;
    total_packets = 0;
    checksum_failures = 0;
    gaps_detected = 0;
    reports = [];
  }

  -- The packets of a list of numbers that are in the buffer, each counted as tried once more.
  abbrev pub take_packets :
      List ℕ → Dict ℕ (DataPacket S) → List (DataPacket S) × Dict ℕ (DataPacket S)
  take_packets [] buffer = ([], buffer)
  take_packets (n ∷ ns) buffer =
      elim (lookup n buffer) as (λ _. List (DataPacket S) × Dict ℕ (DataPacket S)) [
        | none ↦ take_packets ns buffer
        | some p ↦
            let p' : DataPacket S = record p { retry_count = p.retry_count + 1 } in
            let (ps, b) = take_packets ns (insert n p' buffer) in (p' ∷ ps, b)
      ]

module _ {S : Type 0} ⦃eq : Eq S⦄ where
  -- `register_symbol`
  unfoldable pub register_symbol : ℕ → S → DataSyncManager S → DataSyncManager S
  unfolding new_sequences
  register_symbol size s m = if contains s m.sequence_managers then m else record m {
    sequence_managers = insert s (new_sequences size) m.sequence_managers;
    sync_status = insert s new_status m.sync_status;
  }

  -- `unregister_symbol`
  unfoldable pub unregister_symbol : S → DataSyncManager S → DataSyncManager S
  unregister_symbol s m =
      if contains s m.sequence_managers
      then record m {
        sequence_managers = erase s m.sequence_managers;
        sync_status = erase s m.sync_status;
      }
      else m

  -- The sequence manager of a symbol, which is made where there is none.
  abbrev pub sequences_of : S → DataSyncManager S → SequenceManager
  sequences_of s m = elim (lookup s m.sequence_managers) [ none ↦ new_sequences 10000 | some q ↦ q ]

  abbrev pub status_of : S → DataSyncManager S → SyncStatus
  status_of s m = elim (lookup s m.sync_status) [ none ↦ new_status | some x ↦ x ]

  -- `create_packet`; the checksum is made from the ticker, the datum's time and the number.
  unfoldable pub create_packet :
      (S → String → ℕ → String)
      → ℕ
      → S
      → String
      → String
      → Option ℕ
      → DataSyncManager S
      → DataPacket S × DataSyncManager S
  unfolding register_symbol get_next_sequence
  create_packet hash now s datum source sequence m =
      let m1 = register_symbol 10000 s m in
      let (n, q) = number_packet sequence (sequences_of s m1) in
      let p : DataPacket S = record {
        symbol = s;
        data_timestamp = datum;
        sequence_number = n;
        timestamp = now;
        checksum = hash s datum n;
        source = source;
        retry_count = 0;
      } in
      (
        p,
        record m1 {
          sequence_managers = insert s q m1.sequence_managers;
          packet_buffer = put_packet m1.buffer_size n p m1.packet_buffer;
        },
      )

  -- `verify_checksum`
  unfoldable pub verify_checksum : (S → String → ℕ → String) → DataPacket S → Bool
  verify_checksum hash p = hash p.symbol p.data_timestamp p.sequence_number =? p.checksum

  abbrev pub report_gaps : S → List SyncGap → List (Report S)
  report_gaps s [] = []
  report_gaps s (g ∷ gs) = gap_found s g ∷ report_gaps s gs

  -- `receive_packet` of a packet whose number is new.
  unfoldable pub accept_packet :
      ℕ → DataPacket S → List SyncGap → SequenceManager → DataSyncManager S → DataSyncManager S
  accept_packet now p found q m =
      let x = status_of p.symbol m in
      record m {
        sequence_managers = insert p.symbol q m.sequence_managers;
        sync_status =
            insert p.symbol
              (record x {
                total_received = x.total_received + 1;
                last_sequence = p.sequence_number;
                last_received = some now;
                state = state_of q.gaps;
                gaps = q.gaps;
                total_missing = total_length q.gaps;
              })
              m.sync_status;
        total_packets = m.total_packets + 1;
        gaps_detected = m.gaps_detected + length found;
        reports = m.reports ++ (integrity p.sequence_number true ∷ report_gaps p.symbol found);
      }

  -- `receive_packet`
  unfoldable pub receive_packet :
      (S → String → ℕ → String)
      → ℕ
      → DataPacket S
      → DataSyncManager S
      → Bool × List SyncGap × DataSyncManager S
  unfolding register_symbol verify_checksum record_received accept_packet
  receive_packet hash now p m =
      let m1 = register_symbol 10000 p.symbol m in
      if verify_checksum hash p
      then (let (new, found, q) =
            record_received now p.sequence_number (sequences_of p.symbol m1) in
          if new then (true, found, accept_packet now p found q m1) else (false, [], m1))
      else (let x = status_of p.symbol m1 in
          (
            false,
            [],
            record m1 {
              sync_status =
                  insert p.symbol (record x { checksum_failures = x.checksum_failures + 1 })
                    m1.sync_status;
              checksum_failures = m1.checksum_failures + 1;
              reports = m1.reports ++ (integrity p.sequence_number false ∷ []);
            },
          ))

  -- `get_missing_packets`
  unfoldable pub get_missing_packets :
      S → DataSyncManager S → List (DataPacket S) × DataSyncManager S
  unfolding get_missing_sequences
  get_missing_packets s m = elim (lookup s m.sequence_managers) [
    | none ↦ ([], m)
    | some q ↦
        let (ps, b) = take_packets (get_missing_sequences q) m.packet_buffer in
        (ps, record m { packet_buffer = b })
  ]

  -- `reset_symbol`
  unfoldable pub reset_symbol : S → DataSyncManager S → DataSyncManager S
  unfolding reset
  reset_symbol s m = record m {
    sequence_managers = elim (lookup s m.sequence_managers) [
      | none ↦ m.sequence_managers
      | some q ↦ insert s (reset q) m.sequence_managers
    ];
    sync_status =
        if contains s m.sync_status then insert s new_status m.sync_status else m.sync_status;
  }
